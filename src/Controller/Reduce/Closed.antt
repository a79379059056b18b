-- ===== src/Controller/Reduce/Closed.antt =====
-- Every attempt that is prepared comes to its end in the journal, or is still under way.
use eoduksini.Controller.Reduce.Stop.{replay-recovery_required}
use mathlib.Core.Path.{subst}
use eoduksini.Controller.PostRun.{event_attempt, with_metering}
use eoduksini.Controller.PostRun.Inversion.{record_post_run_inv}
use eoduksini.Controller.Reduce.Recover.{recover_inv}
use eoduksini.Controller.Reduce.Replay.{reduce-IsValid}
use eoduksini.Base.Json.{Value}
use eoduksini.Controller.Reduce.Inversion.{
  step_inv, reduce_inv, prepare_attempt_inv, record_approval_inv, record_assessment_inv,
  update_attempt_inv, on_attempt_inv,
}
use eoduksini.Base.Result.{ok, >>=-eq-ok}
use eoduksini.Base.Dict.{insert, lookup, lookup-insert, lookup-insert_old}
use eoduksini.Controller.Reduce.Fence.{prepares}
use eoduksini.Controller.Reduce.Valid.{IsValid}
use eoduksini.Controller.Contracts.{Contracts}
use eoduksini.Controller.Types.{
  Payload, State, Event, finished, Attempt, CommandResult, attempt_prepared, init, Measurement,
  approved, semantic_assessed, recovered, post_run, command_prepared, command_started,
  command_finished,
}
use eoduksini.Controller.Dispatch.{
  prepare_command, start_command, finish_command, incomplete, is_running, is_prepared,
  approved_entry, new_attempt,
}
use eoduksini.Base.{
  ◌≡◌, String, ℕ, Bool, List, str_eq, true, some, arith, ◌⊎◌, Bool-cases, false, Option, inl, any,
  inr, refl, ap, eq_iff, eq_refl, ◌∷◌, [],
}
use eoduksini.Controller.Reduce.{apply, reduce, replay}

-- FINISHED of this attempt.
unfoldable pub finishes : String → Payload → Bool
finishes id (finished j _ _) = str_eq j id
finishes id _ = false

-- An attempt of this name that has not ended.
abbrev pub Open : String → State → Type 0
Open id s = (a : Attempt) × (lookup id s.attempts ≡ some a) × (incomplete a ≡ true)

Open-insert :
    (s t : State) (id j : String) (b : Attempt)
    → t.attempts ≡ insert j b s.attempts
    → Open id s
    → (str_eq j id ≡ true → incomplete b ≡ true)
    → Open id t
Open-insert s t id j b same (a, found, live) goes_on = elim (Bool-cases (str_eq j id)) [
  | inl is_id ↦ (b, ground (arith, same, is_id, lookup-insert j id b s.attempts), goes_on is_id)
  | inr other ↦ (a, ground (arith, same, other, found, lookup-insert j id b s.attempts), live)
]

prepare_command-incomplete :
    (count : ℕ) (a : Attempt) (i : ℕ) {b : Attempt}
    → prepare_command count a i ≡ ok b
    → incomplete b ≡ true
unfolding prepare_command incomplete is_prepared
prepare_command-incomplete count a i h = ground arith

module _ (c : Contracts) where
  start_command-incomplete :
      (a : Attempt) (i : ℕ) (m : Option Measurement) {b : Attempt}
      → start_command c a i m ≡ ok b
      → incomplete b ≡ true
  unfolding start_command incomplete is_running is_prepared
  start_command-incomplete a i m h = ground arith

  finish_command-status :
      (a : Attempt) (i : ℕ) (r : CommandResult) (m : Option Measurement) (l : Option (List Value))
      {b : Attempt}
      → finish_command c a i r m l ≡ ok b
      → b.status ≡ a.status
  unfolding finish_command
  finish_command-status a i r m l h = ground arith

  same_status : (a b : Attempt) → b.status ≡ a.status → incomplete a ≡ true → incomplete b ≡ true
  unfolding incomplete
  same_status a b same h = rw same h

  -- An open attempt stays open until its FINISHED, or until a recovery is demanded.
  apply-Open :
      (p : Payload) (s : State) (epoch : ℕ) (id : String) {t : State}
      → IsValid s
      → apply c s epoch p ≡ ok t
      → Open id s
      → (finishes id p ≡ true) ⊎ ((t.recovery_required ≡ true) ⊎ Open id t)
  unfolding apply finishes
  apply-Open (init _ _ _ _) s epoch id v h o = cc
  apply-Open (approved r p a) s epoch id v h (b, found, live) =
      inr (inr (b, rw (record_approval_inv c s epoch r p a h).1 found, live))
  apply-Open (semantic_assessed r at a) s epoch id v h (b, found, live) =
      inr (inr (b, rw (record_assessment_inv c s epoch r at a h).0 found, live))
  apply-Open (recovered ids reason) s epoch id v h o =
      let (d, done, _, same) = recover_inv c s epoch ids reason h in
      inr (inl (ap (λ u. u.recovery_required) same))
  apply-Open (post_run e) s epoch id {t} v h o =
      let (a, m, found, done, same) = record_post_run_inv c s e h in
      inr (
        inr (
          Open-insert s t id (event_attempt e) (with_metering a m) (ap (λ u. u.attempts) same) o
            (λ is_id.
              let (b, there, live) = o in
              let one : a ≡ b = ground (arith, is_id, eq_iff (event_attempt e) id, found, there) in
              same_status a (with_metering a m) refl (rw one live))))
  apply-Open (attempt_prepared j d r m) s epoch id v h (b, there, live) =
      let (e, found, h') = >>=-eq-ok (approved_entry s j) _ h in
      let (_, _, _, _, fresh, same) = prepare_attempt_inv c s e j d r m h' in
      inr (inr (b, rw same (lookup-insert_old j id (new_attempt d m) s.attempts fresh there), live))
  apply-Open (command_prepared j i) s epoch id {t} v h o =
      let (e, a, b, _, found, was, _, done, same) = update_attempt_inv c s j _ h in
      inr (
        inr (
          Open-insert s t id j b (ap (λ u. u.attempts) same) o
            (λ _. prepare_command-incomplete _ a i done)))
  apply-Open (command_started j i pid m) s epoch id {t} v h o =
      let (e, a, b, _, found, was, _, done, same) = update_attempt_inv c s j _ h in
      inr (
        inr (
          Open-insert s t id j b (ap (λ u. u.attempts) same) o
            (λ _. start_command-incomplete a i m done)))
  apply-Open (command_finished j i result m l) s epoch id {t} v h o =
      let (e, a, b, _, found, was, _, done, same) = update_attempt_inv c s j _ h in
      inr (
        inr (
          Open-insert s t id j b (ap (λ u. u.attempts) same) o
            (λ _. same_status a b (finish_command-status a i result m l done) was)))
  apply-Open (finished j outcome reason) s epoch id v h (b, there, live) =
      let (e, a, _, found, was, _, _, _) = on_attempt_inv c s j _ h in
      let one : j ≡ id = v.exclusive j id a b found there was live in inl (rw one (eq_refl id))

  prepares-Open :
      (p : Payload) (s : State) (epoch : ℕ) (id : String) {t : State}
      → apply c s epoch p ≡ ok t
      → prepares id p ≡ true
      → Open id t
  unfolding apply prepares incomplete is_prepared
  prepares-Open (attempt_prepared j d r m) s epoch id h starts =
      let (e, found, h') = >>=-eq-ok (approved_entry s j) _ h in
      let (_, _, _, _, fresh, same) = prepare_attempt_inv c s e j d r m h' in
      (
        new_attempt d m,
        rw same (ground (arith, starts, lookup-insert j id (new_attempt d m) s.attempts)),
        refl,
      )
  prepares-Open (init _ _ _ _) s epoch id h starts = cc
  prepares-Open _ s epoch id h starts = cc

  replay-Open :
      (s : State) (events : List Event) (id : String) {t : State}
      → IsValid s
      → replay c (some s) events ≡ ok (some t)
      → t.recovery_required ≡ false
      → Open id s
      → (any (λ e. finishes id e.payload) events ≡ true) ⊎ Open id t
  unfolding replay
  replay-Open s [] id {t} v h running o = let same : s ≡ t = cc in inr (subst (Open id) same o)
  replay-Open s (e ∷ es) id {t} v h running o =
      let (u, done, h') = >>=-eq-ok (reduce c (some s) e) _ h in
      let (_, applied) = step_inv c s e (reduce_inv c (some s) e done) in
      elim (apply-Open e.payload s e.control_epoch id v applied o) [
        | inl ends ↦ inl (rw ends refl)
        | inr (inl halted) ↦
            let (stays, _) = replay-recovery_required c u es halted h' in
            absurd (cc (stays, running))
        | inr (inr still) ↦
            elim (replay-Open u es id (reduce-IsValid c (some s) e v done) h' running still) [
              | inl later ↦ inl (ground (arith, later))
              | inr at_end ↦ inr at_end
            ]
      ]

  -- From a valid state: behind the PREPARED of an attempt, a journal that replays to a state which
  -- demands no recovery has the FINISHED of that attempt, or the attempt is incomplete in that state.
  pub replay-finishes :
      (s : State) (e : Event) (after : List Event) (id : String) {t u : State}
      → IsValid s
      → reduce c (some s) e ≡ ok t
      → prepares id e.payload ≡ true
      → replay c (some t) after ≡ ok (some u)
      → u.recovery_required ≡ false
      → (any (λ x. finishes id x.payload) after ≡ true) ⊎ Open id u
  replay-finishes s e after id {t} v h starts rest running =
      let (_, applied) = step_inv c s e (reduce_inv c (some s) e h) in
      replay-Open t after id (reduce-IsValid c (some s) e v h) rest running
        (prepares-Open e.payload s e.control_epoch id applied starts)
