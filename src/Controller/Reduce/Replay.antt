-- ===== src/Controller/Reduce/Replay.antt =====
-- Replaying a journal: what holds at its end whatever its events are.
use eoduksini.Base.Dict.{lookup}
use eoduksini.Controller.Attempts.{
  prepare_command-AttemptValid, start_command-AttemptValid, finish_command-AttemptValid,
}
use eoduksini.Controller.Dispatch.{approved_entry}
use eoduksini.Controller.Reduce.Recover.{recover-IsValid}
use eoduksini.Controller.Reduce.Inversion.{
  step_inv, reduce_inv, approved_entry_inv, on_attempt_inv, update_attempt_inv,
}
use eoduksini.Base.Result.{ok, >>=-eq-ok, ok-injective}
use eoduksini.Controller.Types.{
  Event, State, Payload, init, approved, semantic_assessed, recovered, post_run, attempt_prepared,
  command_prepared, command_started, command_finished, finished,
}
use mathlib.Core.Path.{subst}
use eoduksini.Base.{some, none, ◌≡◌, Option, ℕ, List, some, [], false, ◌∷◌, arith}
use eoduksini.Controller.Contracts.{Contracts}
use eoduksini.Controller.Reduce.{apply, start, step, reduce, replay}
use eoduksini.Controller.Reduce.Valid.{IsValid, OptionValid}
use eoduksini.Controller.Reduce.Preserve.{
  prepare_attempt-IsValid, record_assessment-IsValid, record_approval-IsValid,
  record_post_run-IsValid, finish_attempt-IsValid, command-IsValid, valid_attempt,
}

module _ (c : Contracts) where
  apply-IsValid :
      (p : Payload) (s : State) (epoch : ℕ) {s' : State}
      → IsValid s
      → apply c s epoch p ≡ ok s'
      → IsValid s'
  unfolding apply
  apply-IsValid (init _ _ _ _) s epoch v h = cc
  apply-IsValid (approved r p a) s epoch v h = record_approval-IsValid c v epoch r p a h
  apply-IsValid (semantic_assessed r at a) s epoch v h =
      record_assessment-IsValid c v epoch r at a h
  apply-IsValid (recovered ids reason) s epoch v h = recover-IsValid c s epoch ids reason v h
  apply-IsValid (post_run e) s epoch v h = record_post_run-IsValid c v e h
  apply-IsValid (attempt_prepared id d r m) s epoch v h =
      let (e, found, h') = >>=-eq-ok (approved_entry s id) _ h in
      prepare_attempt-IsValid c v e id d r m (approved_entry_inv s id found) h'
  apply-IsValid (command_prepared id i) s epoch v h =
      let (e, a, a', approval, found, was, _, done, same) = update_attempt_inv c s id _ h in
      let live = valid_attempt c v id e a approval found in
      let (valid, _) = prepare_command-AttemptValid i live done in
      rw same (command-IsValid c v id e a approval found a' valid (λ _. was))
  apply-IsValid (command_started id i pid m) s epoch v h =
      let (e, a, a', approval, found, was, _, done, same) = update_attempt_inv c s id _ h in
      let live = valid_attempt c v id e a approval found in
      let (valid, _) = start_command-AttemptValid c i m live done in
      rw same (command-IsValid c v id e a approval found a' valid (λ _. was))
  apply-IsValid (command_finished id i result m l) s epoch v h =
      let (e, a, a', approval, found, was, _, done, same) = update_attempt_inv c s id _ h in
      let live = valid_attempt c v id e a approval found in
      let valid = finish_command-AttemptValid c i result m l live was done in
      rw same (command-IsValid c v id e a approval found a' valid (λ _. was))
  apply-IsValid (finished id o reason) s epoch v h =
      let (e, a, approval, found, was, held, running, h') = on_attempt_inv c s id _ h in
      finish_attempt-IsValid c v id e a approval found o reason was held running h'

  pub step-IsValid :
      (s : State) (e : Event) {s' : State} → IsValid s → step c s e ≡ ok s' → IsValid s'
  step-IsValid s e v h = apply-IsValid e.payload s e.control_epoch v (step_inv c s e h).1

  start_inv :
      (e : Event) {s : State}
      → start c e ≡ ok s
      → (s.attempts ≡ []) × (s.recovery_required ≡ false) × (s.control_epoch ≡ 1)
  unfolding start
  start_inv e h = ground arith

  pub start-IsValid : (e : Event) {s : State} → start c e ≡ ok s → IsValid s
  unfolding lookup
  start-IsValid e h =
      let (empty, calm, _) = start_inv e h in
      record {
        attempts_valid = λ id a found. cc;
        exclusive = λ i j a b found. cc;
        reserved = λ i a found. cc;
        fenced = λ k. cc;
        unique = rw empty tt;
      }

  pub reduce-IsValid :
      (state : Option State) (e : Event) {s' : State}
      → OptionValid state
      → reduce c state e ≡ ok s'
      → IsValid s'
  reduce-IsValid none e v h = start-IsValid e (reduce_inv c none e h)
  reduce-IsValid (some s) e v h = step-IsValid s e v (reduce_inv c (some s) e h)

  -- After any journal that replays, from no state at all or from a valid one, the state is valid.
  pub replay-IsValid :
      (state : Option State) (events : List Event) {state' : Option State}
      → OptionValid state
      → replay c state events ≡ ok state'
      → OptionValid state'
  unfolding replay
  replay-IsValid state [] v h = subst OptionValid (ok-injective h) v
  replay-IsValid state (e ∷ es) v h =
      let (s, done, h') = >>=-eq-ok (reduce c state e) _ h in
      replay-IsValid (some s) es (reduce-IsValid state e v done) h'
