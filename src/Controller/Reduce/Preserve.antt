-- ===== src/Controller/Reduce/Preserve.antt =====
-- Every event keeps the state valid.
use eoduksini.Controller.PostRun.Inversion.{record_post_run_inv}
use eoduksini.Base.{ℕ, String, ◌≡◌, refl, true, false, Option, some, length}
use eoduksini.Base.Dict.{lookup, lookup-insert_old}
use eoduksini.Base.Result.{ok}
use eoduksini.Controller.Types.{
  Outcome, succeeded, failed, recovery_required, Reservation, Metering, Entry, Attempt, State,
  Request, Approval, Assessment, PostRun,
}
use eoduksini.Controller.Contracts.{Contracts}
use eoduksini.Controller.Event.{is_none}
use eoduksini.Controller.Dispatch.{
  incomplete, prepare_attempt, end_attempt, finish_attempt, new_attempt, put_attempt,
  finished_state,
}
use eoduksini.Controller.PostRun.{record_post_run, event_attempt, with_metering}
use eoduksini.Controller.Attempts.{
  AttemptValid, end_attempt-AttemptValid, new_attempt-AttemptValid, incomplete-ended,
  with_metering-AttemptValid,
}
use eoduksini.Controller.Reduce.{record_approval, record_assessment}
use eoduksini.Controller.Reduce.Inversion.{
  prepare_attempt_inv, finish_attempt_inv, record_approval_inv, record_assessment_inv,
}
use eoduksini.Controller.Reduce.Valid.{
  IsValid, prepare-IsValid, put_attempt-IsValid, hold-IsValid, release-IsValid,
}

module _ (c : Contracts) {s : State} (v : IsValid s) where
  pub prepare_attempt-IsValid :
      (e : Entry) (id d : String) (r : Reservation) (m : Option Metering) {s' : State}
      → lookup id s.approvals ≡ some e
      → prepare_attempt c s e id d r m ≡ ok s'
      → IsValid s'
  prepare_attempt-IsValid e id d r m found h =
      let (free, running, _, _, _, same) = prepare_attempt_inv c s e id d r m h in
      rw same
        (prepare-IsValid id e (new_attempt d m) v found new_attempt-AttemptValid r free running)

  -- What an event of this kind leaves alone decides validity.
  pub same-IsValid :
      {s' : State}
      → s'.attempts ≡ s.attempts
      → s'.approvals ≡ s.approvals
      → s'.reservation ≡ s.reservation
      → s'.recovery_required ≡ s.recovery_required
      → IsValid s'
  same-IsValid p q r w = record {
    attempts_valid = rw (p, q) v.attempts_valid;
    exclusive = rw p v.exclusive;
    reserved = rw (p, r) v.reserved;
    fenced = rw (w, r) v.fenced;
    unique = rw p v.unique;
  }

  pub record_assessment-IsValid :
      (epoch : ℕ) (r : Request) (at : ℕ) (a : Assessment) {s' : State}
      → record_assessment c s epoch r at a ≡ ok s'
      → IsValid s'
  record_assessment-IsValid epoch r at a h =
      let (p, q, t, w, _) = record_assessment_inv c s epoch r at a h in same-IsValid p q t w

  pub record_approval-IsValid :
      (epoch : ℕ) (r : Request) (p : Approval) (a : Option Assessment) {s' : State}
      → record_approval c s epoch r p a ≡ ok s'
      → IsValid s'
  record_approval-IsValid epoch r p a h =
      let (fresh, same_attempts, same_approvals, t, w, _, _, _, _, _) =
        record_approval_inv c s epoch r p a h in
      record {
        attempts_valid = λ id b found.
            let (e, approval, valid) = v.attempts_valid id b (rw same_attempts at found) in
            (e, rw same_approvals (lookup-insert_old _ id _ s.approvals fresh approval), valid);
        exclusive = rw same_attempts v.exclusive;
        reserved = rw (same_attempts, t) v.reserved;
        fenced = rw (w, t) v.fenced;
        unique = rw same_attempts v.unique;
      }

  pub record_post_run-IsValid :
      (e : PostRun) {s' : State} → record_post_run c s e ≡ ok s' → IsValid s'
  unfolding incomplete
  record_post_run-IsValid e h =
      let (a, m, found, done, same) = record_post_run_inv c s e h in
      let (entry, approval, valid) = v.attempts_valid (event_attempt e) a found in
      rw same (
        put_attempt-IsValid (event_attempt e) entry (with_metering a m) v approval
          (with_metering-AttemptValid m valid) a found (λ h. cc))

  module _ (id : String) (e : Entry) (a : Attempt) (approval : lookup id s.approvals ≡ some e)
      (found : lookup id s.attempts ≡ some a) where
    pub valid_attempt : AttemptValid (length e.request.commands) a
    valid_attempt =
        let (e', approval', valid) = v.attempts_valid id a found in
        let same : e' ≡ e = cc in rw same at valid

    pub command-IsValid :
        (a' : Attempt)
        → AttemptValid (length e.request.commands) a'
        → (incomplete a' ≡ true → incomplete a ≡ true)
        → IsValid (put_attempt s id a')
    command-IsValid a' valid less = put_attempt-IsValid id e a' v approval valid a found less

    pub finish_attempt-IsValid :
        (o : Outcome) (reason : String) {s' : State}
        → incomplete a ≡ true
        → is_none s.reservation ≡ false
        → s.recovery_required ≡ false
        → finish_attempt c s id (length e.request.commands) a o reason ≡ ok s'
        → IsValid s'
    finish_attempt-IsValid o reason was held running h =
        let (m, may, same) = finish_attempt_inv c s id _ a o reason h in
        let valid = end_attempt-AttemptValid o reason m valid_attempt may in
        rw same (by_outcome o m valid)
      where
        by_outcome :
            (o : Outcome) (m : Option Metering)
            → AttemptValid (length e.request.commands) (end_attempt a o reason m)
            → IsValid (finished_state s id (end_attempt a o reason m) o)
        by_outcome recovery_required m valid =
            hold-IsValid id e _ v approval valid a found (λ _. was) held
        by_outcome succeeded m valid =
            release-IsValid id e _ v approval valid a found (λ _. was) was
              (incomplete-ended _ _ refl) running
        by_outcome failed m valid =
            release-IsValid id e _ v approval valid a found (λ _. was) was
              (incomplete-ended _ _ refl) running
