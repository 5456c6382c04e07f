-- ===== src/ThreeFinger/Controller/Wait/Keeping.antt =====
-- What a wait of the controller node keeps of the state.
use mathlib.Core.Path.{subst}
use ur5_ros.Common.{[], ◌∷◌, ℕ, ◌≡◌, inl, inr, Bool, List, some, All}
use ur5_ros.ThreeFinger.Messages.{Status}
use ur5_ros.ThreeFinger.Controller.{Config, Controller, Event, on_event, on_events}
use ur5_ros.ThreeFinger.Controller.Wait.{
  Waited, round_verdict, seen_status, wait_for_status, Round, seen_feedback,
}
use ur5_ros.ThreeFinger.Controller.Wait.Verdicts.{settled}

-- What every event keeps, a wait keeps.
module _ (k : Config) (P : Controller → Type 0) (Q : Event → Type 0)
    (keep : (e : Event) (c : Controller) → Q e → P c → P (on_event k e c)) where
  pub on_events-keep : (es : List Event) (c : Controller) → All Q es → P c → P (on_events k es c)
  unfolding on_events
  on_events-keep [] c q p = p
  on_events-keep (e ∷ es) c q p = on_events-keep es (on_event k e c) q.1 (keep e c q.0 p)

  pub wait_for_status-keep :
      (predicate : Status → Bool) (deadline connection_id : ℕ) (rs : List Round) (final : Status)
      (feedback : List Status) (c d : Controller) (w : Waited)
      → wait_for_status k predicate deadline connection_id rs final feedback c ≡ some (w, d)
      → All (λ (r : Round). All Q r.events) rs
      → P c
      → P d
  unfolding wait_for_status
  wait_for_status-keep predicate deadline connection_id [] final feedback c d w h q p = absurd (cc)
  wait_for_status-keep predicate deadline connection_id (r ∷ rs) final feedback c d w h q p =
      let here : Controller = on_events k r.events c in
      let kept : P here = on_events-keep r.events c q.0 p in
      elim (settled (round_verdict k predicate deadline connection_id r here)
        (seen_status r here final) (seen_feedback r here feedback) here
        (wait_for_status k predicate deadline connection_id rs (seen_status r here final)
          (seen_feedback r here feedback) here)
        w d h) [
          | inl (ended, seen, same) ↦ subst P same kept
          | inr later ↦
              wait_for_status-keep predicate deadline connection_id rs (seen_status r here final)
                (seen_feedback r here feedback) here d w later q.1 kept
        ]
