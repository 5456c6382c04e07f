-- ===== src/ThreeFinger/Controller/Wait/Verdicts.antt =====
-- What a wait of the controller node has seen when it ends.
use Prim.Native.String.{String}
use mathlib.Core.Path.{subst}
use ur5_ros.Common.{
  ◌==◌, [], ◌∷◌, ℕ, ◌≡◌, ap, ◌∙◌, ◌⊎◌, inl, inr, refl, not, Bool, true, false, if◌then◌else◌, List,
  Option, none, some, ◌≢◌, leb, ==→eq, ◌∙◌, ◌-◌, ◌≤◌, arith,
}
use ur5_ros.Common.Result.{Result, ok, err}
use ur5_ros.ThreeFinger.Messages.{Status}
use ur5_ros.ThreeFinger.Controller.{Config, Controller, is_stale, on_events, or_text}
use ur5_ros.ThreeFinger.Controller.Wait.{
  Waited, settle, or_deadline, round_verdict, seen_status, status_verdict, wait_for_status,
  deadline_verdict, looks, Round, seen_feedback,
}

-- A wait that began at `start` has come to a round of its rounds, whose events have led to `c`.
pub data AtRound (k : Config) : List Round → Controller → Round → Controller → Type 0 where
  first_round :
      {r : Round} {rs : List Round} {start c : Controller}
      → on_events k r.events start ≡ c
      → AtRound k (r ∷ rs) start r c
  later_round :
      {x r : Round} {rs : List Round} {start c : Controller}
      → AtRound k rs (on_events k x.events start) r c
      → AtRound k (x ∷ rs) start r c

-- The wait ended at a round whose first reading of the clock was within the timeout after the
-- reception of the status.
pub record Fresh (k : Config) (rounds : List Round) (start c : Controller) : Type 0 where
  pub round : Round
  pub reached : AtRound k rounds start round c
  pub within : round.checked_at - c.last_status_time ≤ k.status_timeout

-- A wait that succeeded: the status of the caller is the current one, it is fresh, it is of the
-- connection of the request and the predicate holds of it.
pub record Answered (k : Config) (predicate : Status → Bool) (connection_id : ℕ)
    (rounds : List Round) (start : Controller) (w : Waited) (c : Controller) : Type 0 where
  pub current : w.final_status ≡ c.current_status
  pub connected : c.current_status.connected ≡ true
  pub connection : c.current_status.connection_id ≡ connection_id
  pub fresh : Fresh k rounds start c
  pub answers : predicate c.current_status ≡ true

-- Either the round ends the loop, or the rest of the rounds does.
pub settled :
    (v : Option (Result String (Unit {0}))) (final : Status) (feedback : List Status)
    (here : Controller) (rest : Option (Waited × Controller)) (w : Waited) (c : Controller)
    → settle v final feedback here rest ≡ some (w, c)
    → ((v ≡ some w.verdict) × (w.final_status ≡ final) × (here ≡ c)) ⊎ (rest ≡ some (w, c))
unfolding settle
settled (some v) final feedback here rest w c h = inl (cc, cc, cc)
settled none final feedback here rest w c h = inr h

abbrev Verdict : Type 0
Verdict = Option (Result String (Unit {0}))

abbrev success : Verdict
success = some (ok tt)

-- The tests of `status_verdict` that the loop has passed where it succeeds.
tests_passed :
    (connected same stale answers : Bool) (a b d : String)
    → ◌≡◌ {A = Verdict}
        (if not connected
          then some (err a)
          else if not same
          then some (err b)
          else if stale
          then some (err d)
          else if answers
          then some (ok tt)
          else none)
        success
    → (connected ≡ true) × (same ≡ true) × (stale ≡ false) × (answers ≡ true)
tests_passed true true false true a b d h = (refl, refl, refl, refl)
tests_passed false same stale answers a b d h = absurd (cc)
tests_passed true false stale answers a b d h = absurd (cc)
tests_passed true true true answers a b d h = absurd (cc)
tests_passed true true false false a b d h = absurd (cc)

no_timeout :
    (late : Bool) (a : String) → ◌≢◌ {A = Verdict} (if late then some (err a) else none) success
no_timeout true a h = absurd (cc)
no_timeout false a h = absurd (cc)

or_deadline-ok :
    (v : Verdict) (deadline : ℕ) (r : Round) → or_deadline v deadline r ≡ success → v ≡ success
unfolding or_deadline deadline_verdict
or_deadline-ok (some v) deadline r h = h
or_deadline-ok none deadline r h =
    absurd (no_timeout (leb deadline r.ended_at) "request timed out" h)

has_passed :
    (have : Bool) (v : Verdict)
    → (if have then v else none) ≡ success
    → (have ≡ true) × (v ≡ success)
has_passed true v h = (refl, h)
has_passed false v h = absurd (cc)

loop_passed :
    (down cancelled : Bool) (v : Verdict) (a b : String)
    → ◌≡◌ {A = Verdict}
        (if down then some (err a) else if cancelled then some (err b) else v)
        success
    → (down ≡ false) × (cancelled ≡ false) × (v ≡ success)
loop_passed false false v a b h = (refl, refl, h)
loop_passed true cancelled v a b h = absurd (cc)
loop_passed false true v a b h = absurd (cc)

module _ (k : Config) (predicate : Status → Bool) (deadline connection_id : ℕ) where
  pub round_verdict-ok :
      (r : Round) (c : Controller)
      → round_verdict k predicate deadline connection_id r c ≡ success
      → (looks r c ≡ true) × (status_verdict k predicate connection_id r c ≡ success)
  unfolding round_verdict looks
  round_verdict-ok r c h =
      let (up, wanted, v) =
        loop_passed c.shutting_down r.cancelled
          (or_deadline
            (if c.have_status then status_verdict k predicate connection_id r c else none) deadline
            r)
          "controller is shutting down" "request cancelled" h in
      let (have, passed) = has_passed c.have_status (status_verdict k predicate connection_id r c) (
        or_deadline-ok
          (if c.have_status then status_verdict k predicate connection_id r c else none) deadline r
          v) in
      (rw (up, wanted, have), passed)

  seen-looks :
      (r : Round) (c : Controller) (s : Status)
      → looks r c ≡ true
      → seen_status r c s ≡ c.current_status
  unfolding seen_status
  seen-looks r c s h = rw (h)

  within_timeout :
      (r : Round) (c : Controller)
      → is_stale k r.checked_at c ≡ false
      → r.checked_at - c.last_status_time ≤ k.status_timeout
  unfolding is_stale
  within_timeout r c h = ground arith

  round-Answered :
      (r : Round) (rs : List Round) (start c : Controller) (w : Waited)
      → on_events k r.events start ≡ c
      → w.final_status ≡ c.current_status
      → status_verdict k predicate connection_id r c ≡ success
      → Answered k predicate connection_id (r ∷ rs) start w c
  unfolding status_verdict
  round-Answered r rs start c w same_state e h =
      let (connected, same, fresh, answers) =
        tests_passed c.current_status.connected (c.current_status.connection_id == connection_id)
          (is_stale k r.checked_at c) (predicate c.current_status)
          (or_text "gripper disconnected" c.current_status.diagnostic)
          "gripper reconnected. Request not replayed" "gripper status is stale" h in
      record {
        current = e;
        connected = connected;
        connection = ==→eq c.current_status.connection_id connection_id same;
        fresh = record {
          round = r;
          reached = AtRound.first_round same_state;
          within = within_timeout r c fresh;
        };
        answers = answers;
      }

  later-Answered :
      (r : Round) (rs : List Round) (start c : Controller) (w : Waited)
      → Answered k predicate connection_id rs (on_events k r.events start) w c
      → Answered k predicate connection_id (r ∷ rs) start w c
  later-Answered r rs start c w a = record {
    current = a.current;
    connected = a.connected;
    connection = a.connection;
    fresh = record {
      round = a.fresh.round;
      reached = AtRound.later_round a.fresh.reached;
      within = a.fresh.within;
    };
    answers = a.answers;
  }

  -- A wait that returns with success returns at a status that answers the request.
  pub wait_for_status-Answered :
      (rs : List Round) (final : Status) (feedback : List Status) (c d : Controller) (w : Waited)
      → wait_for_status k predicate deadline connection_id rs final feedback c ≡ some (w, d)
      → w.verdict ≡ ok tt
      → Answered k predicate connection_id rs c w d
  unfolding wait_for_status
  wait_for_status-Answered [] final feedback c d w h v = absurd (cc)
  wait_for_status-Answered (r ∷ rs) final feedback c d w h v =
      let here : Controller = on_events k r.events c in
      elim (settled (round_verdict k predicate deadline connection_id r here)
        (seen_status r here final) (seen_feedback r here feedback) here
        (wait_for_status k predicate deadline connection_id rs (seen_status r here final)
          (seen_feedback r here feedback) here)
        w d h) [
          | inl (ended, seen, same) ↦
              subst (λ (z : Controller). Answered k predicate connection_id (r ∷ rs) c w z) same
                (let (l, passed) =
                    round_verdict-ok r here (ended ∙ ap {A = Result String (Unit {0})} some v) in
                  round-Answered r rs c here w refl (seen ∙ seen-looks r here final l) passed)
          | inr later ↦ later-Answered r rs c d w (
              wait_for_status-Answered rs (seen_status r here final) (seen_feedback r here feedback)
                here d w later v)
        ]
