-- ===== src/RobotiqDriver/DefaultDriver/Activation.antt =====
-- How `activate` waits for the gripper.
use mathlib.Core.Path.{subst}
use ur5_ros.Common.{
  ◌⊎◌, inl, inr, ℕ, zero, suc, ◌≤◌, ◌≡◌, ◌≢◌, refl, sym, ap, ◌∙◌, arith, Option, none, some,
}
use ur5_ros.Common.Result.{Result, ok, err}
use ur5_ros.RobotiqDriver.Serial.{Serial}
use ur5_ros.RobotiqDriver.Frames.{DefaultDriver, DriverError, GripperStatus, in_progress, completed}
use ur5_ros.RobotiqDriver.DefaultDriver.{
  if_in_progress, update_status, after_poll, wait_in_progress,
}

not_in_progress :
    {A : Type 0} (s : GripperStatus) (a b : A) → s ≢ in_progress → if_in_progress s a b ≡ b
not_in_progress in_progress a b h = absurd (h refl)
not_in_progress completed a b h = refl
not_in_progress GripperStatus.reset a b h = refl

is_in_progress :
    {A : Type 0} (s : GripperStatus) (a b : A) → s ≡ in_progress → if_in_progress s a b ≡ a
is_in_progress in_progress a b h = refl
is_in_progress completed a b h = absurd (cc)
is_in_progress GripperStatus.reset a b h = absurd (cc)

GripperStatus-cases : (s : GripperStatus) → (s ≡ in_progress) ⊎ (s ≢ in_progress)
GripperStatus-cases in_progress = inl refl
GripperStatus-cases completed = inr (λ e. cc)
GripperStatus-cases GripperStatus.reset = inr (λ e. cc)

module _ (serial : Serial) where
  open serial use {Port}

  -- `n` polls, each made because the gripper was still in progress, lead to a driver that sees it
  -- no longer so.
  pub data Polls : ℕ → DefaultDriver Port → DefaultDriver Port → Type 0 where
    settled : {d : DefaultDriver Port} → d.gripper_status ≢ in_progress → Polls 0 d d
    polled :
        {n : ℕ} {d e f : DefaultDriver Port}
        → d.gripper_status ≡ in_progress
        → update_status serial d ≡ (ok tt, e)
        → Polls n e f
        → Polls (suc n) d f

  abbrev Answer : Type 0
  Answer = Option (Result DriverError (Unit {0}) × DefaultDriver Port)

  settled_at_once :
      (rounds : ℕ) (d : DefaultDriver Port)
      → d.gripper_status ≢ in_progress
      → wait_in_progress serial rounds d ≡ some (ok tt, d)
  unfolding wait_in_progress
  settled_at_once zero d h = not_in_progress d.gripper_status _ _ h
  settled_at_once (suc rounds) d h = not_in_progress d.gripper_status _ _ h

  one_poll :
      (rounds : ℕ) (d : DefaultDriver Port)
      → d.gripper_status ≡ in_progress
      → wait_in_progress serial (suc rounds) d
        ≡ after_poll serial (λ e. wait_in_progress serial rounds e) (update_status serial d)
  unfolding wait_in_progress
  one_poll rounds d h = is_in_progress d.gripper_status _ _ h

  after_poll-ok :
      (continue : DefaultDriver Port → Answer)
      {r : Result DriverError (Unit {0}) × DefaultDriver Port} {e : DefaultDriver Port}
      → r ≡ (ok tt, e)
      → after_poll serial continue r ≡ continue e
  unfolding after_poll
  after_poll-ok continue h = ap (after_poll serial continue) h

  -- With at least as many rounds as polls are needed, the wait returns.
  pub wait_in_progress-Polls :
      (rounds n : ℕ) (d e : DefaultDriver Port)
      → Polls n d e
      → n ≤ rounds
      → wait_in_progress serial rounds d ≡ some (ok tt, e)
  wait_in_progress-Polls rounds n d e (settled h) le = settled_at_once rounds d h
  wait_in_progress-Polls zero n d e (polled h u p) le = absurd (omega arith)
  wait_in_progress-Polls (suc rounds) (suc n) d f (polled {e = e} h u p) le =
      one_poll rounds d h ∙ after_poll-ok _ u ∙ wait_in_progress-Polls rounds n e f p (omega arith)

  returned_after :
      (continue : DefaultDriver Port → Answer)
      (r : Result DriverError (Unit {0}) × DefaultDriver Port) (f : DefaultDriver Port)
      → after_poll serial continue r ≡ some (ok tt, f)
      → (e : DefaultDriver Port) × (r ≡ (ok tt, e)) × (continue e ≡ some (ok tt, f))
  unfolding after_poll
  returned_after continue (ok u, e) f h = (e, refl, h)
  returned_after continue (err x, e) f h = absurd (cc)

  same_driver :
      {d f : DefaultDriver Port} → ◌≡◌ {A = Answer} (some (ok tt, d)) (some (ok tt, f)) → d ≡ f
  same_driver e = cc

  -- A wait that returns normally has made some polls, no more than its rounds.
  pub wait_in_progress_returned :
      (rounds : ℕ) (d f : DefaultDriver Port)
      → wait_in_progress serial rounds d ≡ some (ok tt, f)
      → (n : ℕ) × (n ≤ rounds) × Polls n d f
  unfolding wait_in_progress
  wait_in_progress_returned zero d f h = elim (GripperStatus-cases d.gripper_status) [
    | inr out ↦ (
      0,
      omega arith,
      subst (Polls 0 d) (same_driver (sym (not_in_progress d.gripper_status _ _ out) ∙ h))
          (settled out),
    )
    | inl busy ↦ absurd (never (sym (is_in_progress d.gripper_status _ _ busy) ∙ h))
  ]
    where
      never : ◌≡◌ {A = Answer} none (some (ok tt, f)) → ⊥
      never e = cc
  wait_in_progress_returned (suc rounds) d f h = elim (GripperStatus-cases d.gripper_status) [
    | inr out ↦ (
      0,
      omega arith,
      subst (Polls 0 d) (same_driver (sym (not_in_progress d.gripper_status _ _ out) ∙ h))
          (settled out),
    )
    | inl busy ↦
        let (e, u, rest) =
          returned_after (λ e. wait_in_progress serial rounds e) (update_status serial d) f
            (sym (is_in_progress d.gripper_status _ _ busy) ∙ h) in
        let (n, le, p) = wait_in_progress_returned rounds e f rest in
        (suc n, omega arith, polled busy u p)
  ]
