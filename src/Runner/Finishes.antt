-- ===== src/Runner/Finishes.antt =====
-- A run comes to its end (core/controller/runner.mjs).
use eoduksini.Controller.Event.{is_none}
use eoduksini.Runner.Kept.{last_reasons-Kept, record_when-Kept}
use eoduksini.Runner.Sound.{off, finish-over, finish-first}
use eoduksini.Runner.Steps.{
  save, steps, step, on_spawn, recover_if, Input, on_exit, on_close, on_grace, handle_output,
  output_data, deadline_passed, started, grace_passed, min, rolled_back, spawn, exit, close,
  started_failed, error,
}
use eoduksini.Runner.{
  maybe_finish, start_grace, Run, terminate_direct_child, record_recovery, require_recovery, Moment,
  observe_wall_clock, record_when, Options, finish, spawned_run,
}
use mathlib.Core.Path.{subst}
use eoduksini.Base.{
  [], ◌∷◌, ℕ, String, Bool, true, false, not, ◌&&◌, ◌||◌, Option, some, none, ltb, List, ◌++◌, ◌-◌,
  length, ◌≡◌, refl, arith, Option-cases, Bool-cases, inl, sym, inr, if_true, if_false, ap,
  if_either, ◌∙◌, ◌==◌,
}

-- What may still end the run: a timer, or the callback behind a close.
abbrev Awaited : Run → Type 0
Awaited s = (s.finished || s.deadline || s.grace || (s.close_observed && s.callback_pending)) ≡ true

record_recovery-Awaited : (r : String) (s : Run) → Awaited s → Awaited (record_recovery r s)
unfolding record_recovery
record_recovery-Awaited r s h = elim (Option-cases s.recovery_reason) [
  | inl missing ↦
      let same : record_recovery r s ≡ record s { recovery_reason = some r } =
        ground (arith, missing) in
      subst Awaited (sym same) h
  | inr (x, there) ↦
      let same : record_recovery r s ≡ s = ground (arith, there) in subst Awaited (sym same) h
]

record_when-Awaited : (b : Bool) (r : String) (s : Run) → Awaited s → Awaited (record_when b r s)
record_when-Awaited true r s h = record_recovery-Awaited r s h
record_when-Awaited false r s h = h

observe-Awaited : (now : ℕ) (s : Run) → Awaited s → Awaited (observe_wall_clock now s)
unfolding observe_wall_clock
observe-Awaited now s h =
    if_either Awaited (ltb now s.last_wall_clock) _ _
      (record_recovery-Awaited "WALL_CLOCK_ROLLBACK" s h) h

terminate-Awaited : (m : Moment) (s : Run) → Awaited s → Awaited (terminate_direct_child m s)
unfolding terminate_direct_child
terminate-Awaited m s h =
    record_when-Awaited (not s.close_observed && m.kill_throws) "CHILD_TERMINATION_FAILED" s h

-- With the grace period running, or behind the end.
Closing : Run → Type 0
Closing s = (s.finished || s.grace) ≡ true

start_grace-Closing : (s : Run) → Closing (start_grace s)
unfolding start_grace Closing
start_grace-Closing s = elim (Bool-cases (s.grace || s.finished)) [
  | inl on ↦
      subst Closing (sym (if_true (s.grace || s.finished) s (record s { grace = true }) on))
        (ground (arith, on))
  | inr still ↦
      subst Closing (sym (if_false (s.grace || s.finished) s (record s { grace = true }) still))
        (ground (arith, still))
]

Closing-Awaited : (s : Run) → Closing s → Awaited s
unfolding Closing
Closing-Awaited s h = ground (arith, h)

require_recovery-Closing : (m : Moment) (r : String) (s : Run) → Closing (require_recovery m r s)
unfolding require_recovery
require_recovery-Closing m r s =
    start_grace-Closing (terminate_direct_child m (record_recovery r s))

recover_if-Awaited :
    (b : Bool) (m : Moment) (r : String) (s : Run) → Awaited s → Awaited (recover_if b m r s)
recover_if-Awaited true m r s h = Closing-Awaited _ (require_recovery-Closing m r s)
recover_if-Awaited false m r s h = h

pub finish-finished : (o : Options) (m : Moment) (s : Run) → (finish o m s).finished ≡ true
finish-finished o m s = elim (Bool-cases s.finished) [
  | inl over ↦ ap (λ t. t.finished) (finish-over o m s over) ∙ over
  | inr on ↦
      ap (λ t. t.finished) (finish-first o m s on) ∙ (last_reasons-Kept m (off s)).0.same_finished
]

finished-Awaited : (s : Run) → s.finished ≡ true → Awaited s
finished-Awaited s h = ground (arith, h)

maybe_finish-Awaited :
    (o : Options) (m : Moment) (s : Run)
    → ((s.close_observed && not s.callback_pending) ≡ false → Awaited s)
    → Awaited (maybe_finish o m s)
unfolding maybe_finish
maybe_finish-Awaited o m s h = elim (Bool-cases (s.close_observed && not s.callback_pending)) [
  | inl closed ↦
      subst Awaited
        (sym (if_true (s.close_observed && not s.callback_pending) (finish o m s) s closed))
        (finished-Awaited (finish o m s) (finish-finished o m s))
  | inr waiting ↦
      subst Awaited
        (sym (if_false (s.close_observed && not s.callback_pending) (finish o m s) s waiting))
        (h waiting)
]

save-Awaited :
    (o : Options) (m : Moment) (size : ℕ) (fault : Option ℕ) (s : Run)
    → Awaited s
    → Awaited (save o m size fault s)
unfolding save
save-Awaited o m size none s h = h
save-Awaited o m size (some n) s h =
    if_either Awaited (min size (o.max_output_bytes - s.saved_bytes) == 0) s _ h
      (Closing-Awaited _ (require_recovery-Closing m "EVIDENCE_FAILED" _))

step-Awaited : (o : Options) (m : Moment) (i : Input) (s : Run) → Awaited s → Awaited (step o m i s)
unfolding step on_spawn on_exit on_close on_grace handle_output
step-Awaited o m (output_data chunk fault) s h =
    let s1 = observe_wall_clock m.now s in
    let s2 = save o m (length chunk) fault (record s1 { output = s1.output ++ chunk }) in
    let s3 = recover_if (ltb o.max_output_bytes (length s2.output)) m "OUTPUT_LIMIT_EXCEEDED" s2 in
    let h2 =
      save-Awaited o m (length chunk) fault (record s1 { output = s1.output ++ chunk })
        (observe-Awaited m.now s h) in
    let h3 =
      recover_if-Awaited (ltb o.max_output_bytes (length s2.output)) m "OUTPUT_LIMIT_EXCEEDED" s2
        h2 in
    if_either Awaited s.finished s _ h
      (recover_if-Awaited (rolled_back s3.recovery_reason) m "WALL_CLOCK_ROLLBACK" s3 h3)
step-Awaited o m (spawn pid) s h =
    let s0 = observe_wall_clock m.now s in
    let s1 = record s0 { pid = pid; callback_pending = true } in
    let h1 : Awaited s1 = ground (arith, observe-Awaited m.now s h) in
    recover_if-Awaited (rolled_back s1.recovery_reason) m "WALL_CLOCK_ROLLBACK" s1 h1
step-Awaited o m started s h = maybe_finish-Awaited o m _ (λ waiting. ground (arith, h, waiting))
step-Awaited o m started_failed s h = maybe_finish-Awaited o m _ (λ waiting.
    Closing-Awaited _
      (require_recovery-Closing m "ON_STARTED_FAILED" (record s { callback_pending = false })))
step-Awaited o m error s h =
    Closing-Awaited _
      (start_grace-Closing (record_recovery "SPAWN_FAILED" (observe_wall_clock m.now s)))
step-Awaited o m (exit code signal) s h = Closing-Awaited _ (start_grace-Closing _)
step-Awaited o m (close code signal) s h =
    let s1 = record (observe_wall_clock m.now s) {
      close_observed = true;
      exit_code = code;
      signal = signal;
      grace = false;
    } in
    let closed = (record_when-Kept (not (is_none signal)) "COMMAND_SIGNALED" s1).0.same_close in
    maybe_finish-Awaited o m (record_when (not (is_none signal)) "COMMAND_SIGNALED" s1)
      (λ waiting. ground (arith, closed, waiting))
step-Awaited o m deadline_passed s h =
    if_either Awaited s.deadline _ s
      (Closing-Awaited _
        (require_recovery-Closing m "COMMAND_TIMED_OUT" (record s { deadline = false })))
      h
step-Awaited o m grace_passed s h =
    let t = finish o m (record_when (not s.close_observed) "CHILD_CLOSE_UNOBSERVED" s) in
    if_either Awaited s.grace t s
      (finished-Awaited t
        (finish-finished o m (record_when (not s.close_observed) "CHILD_CLOSE_UNOBSERVED" s)))
      h

steps-Awaited :
    (o : Options) (l : List (Moment × Input)) (s : Run) → Awaited s → Awaited (steps o l s)
unfolding steps
steps-Awaited o [] s h = h
steps-Awaited o ((m, i) ∷ l) s h = steps-Awaited o l (step o m i s) (step-Awaited o m i s h)

Armed : Run → Type 0
Armed s = (s.finished || s.deadline || s.grace) ≡ true

started-Armed : (o : Options) (m : Moment) (s : Run) → Awaited s → Armed (step o m started s)
unfolding step maybe_finish Armed
started-Armed o m s h = elim (Bool-cases s.close_observed) [
  | inl closed ↦
      subst Armed (sym (if_true (s.close_observed && true) _ _ (ground (arith, closed))))
        (ground (arith, finish-finished o m (record s { callback_pending = false })))
  | inr unseen ↦
      subst Armed (sym (if_false (s.close_observed && true) _ _ (ground (arith, unseen))))
        (ground (arith, h, unseen))
]

Armed-rest : (s : Run) → Armed s → s.deadline ≡ false → Closing s
unfolding Armed Closing
Armed-rest s h unset = ground (arith, h, unset)

deadline-Closing :
    (o : Options) (m : Moment) (s : Run) → Armed s → Closing (step o m deadline_passed s)
unfolding step Armed
deadline-Closing o m s h = elim (Bool-cases s.deadline) [
  | inl set ↦
      subst Closing (sym (if_true s.deadline _ s set))
        (require_recovery-Closing m "COMMAND_TIMED_OUT" (record s { deadline = false }))
  | inr unset ↦ subst Closing (sym (if_false s.deadline _ s unset)) (Armed-rest s h unset)
]

grace-finished :
    (o : Options) (m : Moment) (s : Run) → Closing s → (step o m grace_passed s).finished ≡ true
unfolding step on_grace Closing
grace-finished o m s h = elim (Bool-cases s.grace) [
  | inl set ↦ ap (λ t. t.finished) (if_true s.grace _ s set) ∙ finish-finished o m _
  | inr unset ↦ ap (λ t. t.finished) (if_false s.grace _ s unset) ∙ ground (arith, h, unset)
]

-- Whatever callbacks there were, a run comes to its end once the callback for the start has settled,
-- the deadline has passed and then the grace period: nothing else is needed, neither the end of the
-- process nor that of its output.
pub steps-finished :
    (o : Options) (now : ℕ) (l : List (Moment × Input)) (settled late later : Moment)
    → (step o later grace_passed (
        step o late deadline_passed
          (step o settled started (steps o l (spawned_run now))))).finished
      ≡ true
unfolding spawned_run
steps-finished o now l settled late later = grace-finished o later _ (
    deadline-Closing o late _
      (started-Armed o settled _ (steps-Awaited o l (spawned_run now) refl)))
