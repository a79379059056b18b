-- ===== src/Controller/Reduce/Phases.antt =====
-- The reducer as a machine of three phases: free for an attempt, busy with one, and halted for good.
use eoduksini.Controller.Reduce.Replay.{reduce-IsValid}
use eoduksini.Controller.Reduce.Recover.{recover_inv, pending_attempt}
use eoduksini.Controller.Dispatch.{
  approved_entry, prepared_state, finished_state, put_attempt, end_attempt,
}
use eoduksini.Controller.PostRun.Inversion.{record_post_run_inv}
use eoduksini.Base.Json.{Value}
use eoduksini.Controller.Reduce.Inversion.{
  record_approval_inv, record_assessment_inv, prepare_attempt_inv, on_attempt_inv,
  finish_attempt_inv, update_attempt_inv, step_inv, reduce_inv,
}
use eoduksini.Base.Result.{ok, >>=-eq-ok}
use eoduksini.Controller.Reduce.Valid.{IsValid}
use eoduksini.Controller.Reduce.{apply, update_attempt, replay, reduce}
use eoduksini.Controller.Event.{is_none}
use eoduksini.Controller.Contracts.{Contracts, Checked}
use eoduksini.Controller.Types.{
  Payload, State, Reservation, Metering, attempt_prepared, init, command_prepared, approved,
  Measurement, semantic_assessed, command_started, CommandResult, recovered, post_run,
  command_finished, finished, succeeded, failed, recovery_required, Request, Approval, Assessment,
  PostRun, Attempt, Event, Outcome,
}
use eoduksini.Base.{
  ℕ, String, Bool, true, false, List, [], ◌∷◌, ◌≡◌, refl, arith, map, some, not, Option, Bool-cases,
  inl, inr, ap,
}

pub data Phase : Type 0 where
  free busy halted : Phase

unfoldable pub phase_of : (reserved recovery : Bool) → Phase
phase_of _ true = halted
phase_of true false = busy
phase_of false false = free

unfoldable pub phase : State → Phase
unfolding phase_of is_none
phase s = phase_of (not (is_none s.reservation)) s.recovery_required

-- One event of the machine.
pub data Move : Phase → Payload → Phase → Type 0 where
  prepare :
      {id d : String} {r : Reservation} {m : Option Metering}
      → Move free (attempt_prepared id d r m) busy
  dispatch : {id : String} {i : ℕ} → Move busy (command_prepared id i) busy
  begin :
      {id : String} {i pid : ℕ} {m : Option Measurement}
      → Move busy (command_started id i pid m) busy
  complete :
      {id : String} {i : ℕ} {r : CommandResult} {m : Option Measurement} {l : Option (List Value)}
      → Move busy (command_finished id i r m l) busy
  succeed : {id reason : String} → Move busy (finished id succeeded reason) free
  fail : {id reason : String} → Move busy (finished id failed reason) free
  give_up : {id reason : String} → Move busy (finished id recovery_required reason) halted
  -- A recovery of what is running; a halted machine stays halted.
  recover_running : {ids : List String} {reason : String} → Move busy (recovered ids reason) halted
  recover_halted : {ids : List String} {reason : String} → Move halted (recovered ids reason) halted
  approve :
      {p : Phase} {r : Request} {a : Approval} {x : Option Assessment} → Move p (approved r a x) p
  assess : {p : Phase} {r : Request} {at : ℕ} {x : Assessment} → Move p (semantic_assessed r at x) p
  report : {p : Phase} {x : PostRun} → Move p (post_run x) p

pub data Walk : Phase → List Payload → Phase → Type 0 where
  rest : {p : Phase} → Walk p [] p
  move :
      {p q r : Phase} {x : Payload} {xs : List Payload}
      → Move p x q
      → Walk q xs r
      → Walk p (x ∷ xs) r

phase-busy :
    (s : State) → is_none s.reservation ≡ false → s.recovery_required ≡ false → phase s ≡ busy
unfolding phase
phase-busy s h k = rw (h, k) refl

phase-free :
    (s : State) → is_none s.reservation ≡ true → s.recovery_required ≡ false → phase s ≡ free
unfolding phase
phase-free s h k = rw (h, k) refl

phase-halted : (s : State) → s.recovery_required ≡ true → phase s ≡ halted
unfolding phase
phase-halted s k = ground (arith, k)

same_phase :
    (s t : State)
    → t.reservation ≡ s.reservation
    → t.recovery_required ≡ s.recovery_required
    → phase t ≡ phase s
unfolding phase
same_phase s t h k = rw (h, k) refl

finished-Move :
    (s : State) (id : String) (a : Attempt) (o : Outcome) {reason : String}
    → s.recovery_required ≡ false
    → Move busy (finished id o reason) (phase (finished_state s id a o))
unfolding is_none
finished-Move s id a succeeded running =
    rw (phase-free (finished_state s id a succeeded) refl running) succeed
finished-Move s id a failed running =
    rw (phase-free (finished_state s id a failed) refl running) fail
finished-Move s id a recovery_required running =
    rw (phase-halted (finished_state s id a recovery_required) refl) give_up

module _ (c : Contracts) where
  update_attempt-held :
      (s : State) (id : String) (f : ℕ → Attempt → Checked Attempt) {s' : State}
      → update_attempt c s id f ≡ ok s'
      → is_none s.reservation ≡ false
  unfolding update_attempt
  update_attempt-held s id f h = (on_attempt_inv c s id _ h).5

  command-busy :
      (s : State) (id : String) (f : ℕ → Attempt → Checked Attempt) {s' : State}
      → update_attempt c s id f ≡ ok s'
      → (phase s ≡ busy) × (phase s' ≡ busy)
  command-busy s id f {s'} h =
      let (_, _, a', _, _, _, running, _, same) = update_attempt_inv c s id f h in
      let held = update_attempt-held s id f h in
      (phase-busy s held running, rw same (phase-busy (put_attempt s id a') held running))

  apply-Move :
      (p : Payload) (s : State) (epoch : ℕ) {s' : State}
      → IsValid s
      → apply c s epoch p ≡ ok s'
      → Move (phase s) p (phase s')
  unfolding apply is_none
  apply-Move (init _ _ _ _) s epoch v h = cc
  apply-Move (approved r p a) s epoch {s'} v h =
      let (_, _, _, held, running, _, _, _, _, _) = record_approval_inv c s epoch r p a h in
      rw (same_phase s s' held running) approve
  apply-Move (semantic_assessed r at a) s epoch {s'} v h =
      let (_, _, held, running, _) = record_assessment_inv c s epoch r at a h in
      rw (same_phase s s' held running) assess
  apply-Move (recovered ids reason) s epoch {s'} v h =
      let (d, _, some_pending, same) = recover_inv c s epoch ids reason h in
      let (id, a, found, was) = pending_attempt c s v some_pending in
      let after : phase s' ≡ halted = rw same (
        phase-halted (record s { attempts = d; control_epoch = epoch; recovery_required = true })
          refl) in
      elim (Bool-cases s.recovery_required) [
        | inl stopped ↦ rw (phase-halted s stopped, after) recover_halted
        | inr running ↦ rw (phase-busy s (v.reserved id a found was) running, after) recover_running
      ]
  apply-Move (post_run e) s epoch {s'} v h =
      let (a, m, found, done, same) = record_post_run_inv c s e h in
      rw (same_phase s s' (ap (λ t. t.reservation) same) (ap (λ t. t.recovery_required) same))
        report
  apply-Move (attempt_prepared id d r m) s epoch {s'} v h =
      let (e, found, h') = >>=-eq-ok (approved_entry s id) _ h in
      let (idle, running, _, _, fresh, same) = prepare_attempt_inv c s e id d r m h' in
      rw (phase-free s idle running, same, phase-busy (prepared_state s id d r m) refl running)
        prepare
  apply-Move (command_prepared id i) s epoch v h =
      let (before, after) = command-busy s id _ h in rw (before, after) dispatch
  apply-Move (command_started id i pid m) s epoch v h =
      let (before, after) = command-busy s id _ h in rw (before, after) begin
  apply-Move (command_finished id i result m l) s epoch v h =
      let (before, after) = command-busy s id _ h in rw (before, after) complete
  apply-Move (finished id o reason) s epoch v h =
      let (e, a, approval, found, was, held, running, h') = on_attempt_inv c s id _ h in
      let (m, _, same) = finish_attempt_inv c s id _ a o reason h' in
      rw (phase-busy s held running, same) (finished-Move s id (end_attempt a o reason m) o running)

  -- The reducer refines the machine: every journal that replays from a valid state is a walk of the
  -- machine, between the phases of the two states, event by event.
  pub replay-Walk :
      (s : State) (events : List Event) {s' : State}
      → IsValid s
      → replay c (some s) events ≡ ok (some s')
      → Walk (phase s) (map (λ e. e.payload) events) (phase s')
  unfolding replay
  replay-Walk s [] {s'} v h = let same : s ≡ s' = cc in rw same rest
  replay-Walk s (e ∷ es) v h =
      let (t, done, h') = >>=-eq-ok (reduce c (some s) e) _ h in
      let (_, applied) = step_inv c s e (reduce_inv c (some s) e done) in
      move (apply-Move e.payload s e.control_epoch v applied)
        (replay-Walk t es (reduce-IsValid c (some s) e v done) h')
