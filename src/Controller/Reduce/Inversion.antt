-- ===== src/Controller/Reduce/Inversion.antt =====
-- What an accepted event says of the state that it was applied to.
use eoduksini.Base.{
  ℕ, String, ◌≡◌, true, false, some, length, arith, Option, none, Bool-cases, inl, inr,
  if◌then◌else◌, ◌-◌, ◌≤◌, eq_iff, ◌+◌, sym, ap,
}
use eoduksini.Base.Dict.{lookup, insert}
use eoduksini.Base.Result.{ok, >>=-eq-ok, ok-injective}
use eoduksini.Controller.Types.{Entry, Attempt, State, Reservation, Metering, Outcome, Event}
use eoduksini.Controller.Contracts.{Contracts, Checked, request_digest}
use eoduksini.Controller.Event.{is_none, is_clear}
use eoduksini.Controller.Dispatch.{
  incomplete, active_attempt, approved_entry, prepare_attempt, prepared_state, finish_attempt,
  may_finish, finished_state, end_attempt, finish_attempt_metering, put_attempt,
}
use eoduksini.Controller.Reduce.{
  on_attempt, record_assessment, record_approval, Request, Approval, Assessment, reduce, step,
  start, fences, apply, update_attempt, check_assessment,
}

module _ (c : Contracts) (s : State) where
  pub on_attempt_inv :
      (id : String) (f : ℕ → Attempt → Checked State) {s' : State}
      → on_attempt c s id f ≡ ok s'
      → (e : Entry) × (a : Attempt) × (lookup id s.approvals ≡ some e)
        × (lookup id s.attempts ≡ some a)
        × (incomplete a ≡ true)
        × (is_none s.reservation ≡ false)
        × (s.recovery_required ≡ false)
        × (f (length e.request.commands) a ≡ ok s')
  unfolding on_attempt approved_entry active_attempt
  on_attempt_inv id f h = ground arith

  pub update_attempt_inv :
      (id : String) (f : ℕ → Attempt → Checked Attempt) {s' : State}
      → update_attempt c s id f ≡ ok s'
      → (e : Entry) × (a : Attempt) × (a' : Attempt) × (lookup id s.approvals ≡ some e)
        × (lookup id s.attempts ≡ some a)
        × (incomplete a ≡ true)
        × (s.recovery_required ≡ false)
        × (f (length e.request.commands) a ≡ ok a')
        × (s' ≡ put_attempt s id a')
  unfolding update_attempt
  update_attempt_inv id f h =
      let (e, a, approval, found, was, _, running, h') = on_attempt_inv id _ h in
      let (a', done, h'') = >>=-eq-ok (f (length e.request.commands) a) _ h' in
      (e, a, a', approval, found, was, running, done, sym (ok-injective h''))

  pub prepare_attempt_inv :
      (e : Entry) (id d : String) (r : Reservation) (m : Option Metering) {s' : State}
      → prepare_attempt c s e id d r m ≡ ok s'
      → (is_none s.reservation ≡ true)
        × (s.recovery_required ≡ false)
        × (e.request.control_epoch ≡ s.control_epoch)
        × (e.approval.control_epoch ≡ s.control_epoch)
        × (lookup id s.attempts ≡ none)
        × (s' ≡ prepared_state s id d r m)
  unfolding prepare_attempt
  prepare_attempt_inv e id d r m h = ground arith

  pub finish_attempt_inv :
      (id : String) (count : ℕ) (a : Attempt) (o : Outcome) (reason : String) {s' : State}
      → finish_attempt c s id count a o reason ≡ ok s'
      → (m : Option Metering) × (may_finish count a o ≡ true)
        × (s' ≡ finished_state s id (end_attempt a o reason m) o)
  unfolding finish_attempt
  finish_attempt_inv id count a o reason h = elim (Bool-cases (may_finish count a o)) [
    | inl yes_may ↦
        let (m, _, same) = >>=-eq-ok (finish_attempt_metering c a o) _ (rw yes_may at h) in
        (m, yes_may, ground arith)
    | inr not_may ↦ ground arith
  ]

  pub record_assessment_inv :
      (epoch : ℕ) (r : Request) (at : ℕ) (a : Assessment) {s' : State}
      → record_assessment c s epoch r at a ≡ ok s'
      → (s'.attempts ≡ s.attempts)
        × (s'.approvals ≡ s.approvals)
        × (s'.reservation ≡ s.reservation)
        × (s'.recovery_required ≡ s.recovery_required)
        × (s'.control_epoch ≡ (if is_clear a then s.control_epoch else epoch))
  unfolding record_assessment
  record_assessment_inv epoch r at a h =
      let (_, _, h') = >>=-eq-ok (check_assessment c s r at a) _ h in
      let same = sym (ok-injective h') in
      (
        ap (λ t. t.attempts) same,
        ap (λ t. t.approvals) same,
        ap (λ t. t.reservation) same,
        ap (λ t. t.recovery_required) same,
        ap (λ t. t.control_epoch) same,
      )

  pub record_approval_inv :
      (epoch : ℕ) (r : Request) (p : Approval) (a : Option Assessment) {s' : State}
      → record_approval c s epoch r p a ≡ ok s'
      → (lookup r.attempt_id s.approvals ≡ none)
        × (s'.attempts ≡ s.attempts)
        × (s'.approvals ≡ insert r.attempt_id (record { request = r; approval = p }) s.approvals)
        × (s'.reservation ≡ s.reservation)
        × (s'.recovery_required ≡ s.recovery_required)
        × (s'.control_epoch ≡ s.control_epoch)
        × (r.control_epoch ≡ epoch)
        × (p.control_epoch ≡ epoch)
        × (p.request_digest ≡ request_digest c r)
        × (p.expires_at - p.issued_at ≤ s.policy.approval_ttl_ms)
  unfolding record_approval
  record_approval_inv epoch r p a h = ground (arith, eq_iff p.request_digest (request_digest c r))

  pub step_inv :
      (e : Event) {s' : State}
      → step c s e ≡ ok s'
      → (e.control_epoch ≡ (if fences e.payload then s.control_epoch + 1 else s.control_epoch))
        × (apply c s e.control_epoch e.payload ≡ ok s')
  unfolding step
  step_inv e h = ground arith

-- What `reduce` does behind its checks on the event's form and digest.
abbrev pub transition : Contracts → Option State → Event → Checked State
transition c none e = start c e
transition c (some s) e = step c s e

pub reduce_inv :
    (c : Contracts) (state : Option State) (e : Event) {s' : State}
    → reduce c state e ≡ ok s'
    → transition c state e ≡ ok s'
unfolding reduce
reduce_inv c state e h = ground arith

pub approved_entry_inv :
    (s : State) (id : String) {e : Entry}
    → approved_entry s id ≡ ok e
    → lookup id s.approvals ≡ some e
unfolding approved_entry
approved_entry_inv s id h = ground arith
