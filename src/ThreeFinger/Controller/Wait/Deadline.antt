-- ===== src/ThreeFinger/Controller/Wait/Deadline.antt =====
-- The end of a wait of the controller node: its deadline.
use Prim.Native.String.{String}
use ur5_ros.Common.{
  ℕ, ◌≡◌, refl, Bool, true, false, leb, if◌then◌else◌, List, [], ◌∷◌, ◌++◌, Option, none, some,
}
use ur5_ros.Common.Result.{Result, err}
use ur5_ros.ThreeFinger.Messages.{Status}
use ur5_ros.ThreeFinger.Controller.{Config, Controller, on_events}
use ur5_ros.ThreeFinger.Controller.Wait.{
  Round, Waited, settle, seen_status, seen_feedback, status_verdict, deadline_verdict, or_deadline,
  round_verdict, wait_for_status,
}

-- A result that does not depend on how the rounds go on.
unfoldable pub Returns : (List Round → Option (Waited × Controller)) → Type 0
Returns run = (a : Waited × Controller) × ((rest : List Round) → run rest ≡ some a)

late_decides :
    (v : Option (Result String (Unit {0}))) (deadline : ℕ) (r : Round)
    → leb deadline r.ended_at ≡ true
    → (a : Result String (Unit {0})) × (or_deadline v deadline r ≡ some a)
unfolding or_deadline deadline_verdict
late_decides (some v) deadline r h = (v, refl)
late_decides none deadline r h = (err "request timed out", rw (h))

decides :
    (down cancelled : Bool) (a b : String) (v : Option (Result String (Unit {0})))
    → (c : Result String (Unit {0})) × (v ≡ some c)
    → (c : Result String (Unit {0})) × ((if down
          then some (err a)
          else if cancelled
          then some (err b)
          else v)
        ≡ some c)
decides true cancelled a b v p = (err a, refl)
decides false true a b v p = (err b, refl)
decides false false a b v p = p

settle-Returns :
    (v : Option (Result String (Unit {0}))) (final : Status) (feedback : List Status)
    (c : Controller) (run : List Round → Option (Waited × Controller))
    → Returns run
    → Returns (λ rest. settle v final feedback c (run rest))
unfolding settle Returns
settle-Returns (some v) final feedback c run p =
    ((record { verdict = v; final_status = final; feedback = feedback }, c), λ rest. refl)
settle-Returns none final feedback c run p = p

module _ (k : Config) (predicate : Status → Bool) (deadline connection_id : ℕ) where
  round_late :
      (r : Round) (c : Controller)
      → leb deadline r.ended_at ≡ true
      → (a : Result String (Unit {0})) × (round_verdict k predicate deadline connection_id r c
          ≡ some a)
  unfolding round_verdict
  round_late r c h =
      decides c.shutting_down r.cancelled "controller is shutting down" "request cancelled"
        (or_deadline (if c.have_status then status_verdict k predicate connection_id r c else none)
          deadline r)
        (late_decides (if c.have_status then status_verdict k predicate connection_id r c else none)
          deadline r h)

  -- `wait_for_status` returns no later than at the first reading of the clock that is not before its
  -- deadline, whatever the rounds before it saw and however they would go on.
  pub wait_for_status-Returns :
      (rs : List Round) (r : Round) (final : Status) (feedback : List Status) (c : Controller)
      → leb deadline r.ended_at ≡ true
      → Returns (λ rest.
        wait_for_status k predicate deadline connection_id (rs ++ r ∷ rest) final feedback c)
  unfolding wait_for_status Returns settle
  wait_for_status-Returns [] r final feedback c h =
      let here : Controller = on_events k r.events c in
      let (v, e) = round_late r here h in
      (
        (
          record {
            verdict = v;
            final_status = seen_status r here final;
            feedback = seen_feedback r here feedback;
          },
          here,
        ),
        λ rest. rw (e),
      )
  wait_for_status-Returns (q ∷ rs) r final feedback c h =
      let here : Controller = on_events k q.events c in
      settle-Returns (round_verdict k predicate deadline connection_id q here)
        (seen_status q here final) (seen_feedback q here feedback) here
        (λ rest.
          wait_for_status k predicate deadline connection_id (rs ++ r ∷ rest)
            (seen_status q here final) (seen_feedback q here feedback) here)
        (wait_for_status-Returns rs r (seen_status q here final) (seen_feedback q here feedback)
          here h)
