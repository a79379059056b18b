-- ===== src/Runner/Resolved.antt =====
-- Every callback of a run keeps what the runner promises of its result (core/controller/runner.mjs).
use eoduksini.Controller.Types.{CommandResult}
use eoduksini.Controller.Event.{is_none}
use eoduksini.Runner.Kept.{
  Kept, Kept-refl, observe-Kept, Kept-trans, Good, record_recovery-Kept, record_when-Kept,
}
use eoduksini.Runner.Sound.{
  Held, Held-Kept, recover_if-Kept, require_recovery-Kept, alike, maybe_finish-Held,
  start_grace-Kept, terminate-Kept, finish-Held,
}
use eoduksini.Runner.{
  Options, Moment, Run, observe_wall_clock, spawned_run, record_recovery, record_when,
  terminate_direct_child, finish,
}
use eoduksini.Runner.Steps.{
  handle_output, save, min, recover_if, rolled_back, steps, step, Input, on_spawn, on_exit,
  on_close, on_grace, output_data, spawn, exit, close, started, started_failed, error,
  deadline_passed, grace_passed,
}
use mathlib.Core.Path.{subst}
use eoduksini.Base.{
  [], ◌∷◌, ℕ, String, Bool, true, false, not, Option, some, none, if◌then◌else◌, ltb, List, ◌++◌,
  ◌+◌, ◌-◌, length, ◌≡◌, refl, arith, ◌≤◌, Bool-cases, ◌==◌, inl, sym, if_true, inr, if_false,
  length-append, ◌∙◌, ◌<◌, ◌⊎◌, ap, if_either,
}

-- A chunk is saved as far as there is room, and whether or not writing fails.
save-Kept :
    (o : Options) (m : Moment) (size : ℕ) (fault : Option ℕ) (s : Run)
    → s.saved_bytes ≤ o.max_output_bytes
    → (k : ℕ) × (s.saved_bytes ≤ k)
      × (k ≤ s.saved_bytes + size)
      × (k ≤ o.max_output_bytes)
      × Kept (record s { saved_bytes = k }) (save o m size fault s)
unfolding save min
save-Kept o m size none s h = (
  s.saved_bytes + min size (o.max_output_bytes - s.saved_bytes),
  omega arith,
  ground arith,
  ground arith,
  Kept-refl _,
)
save-Kept o m size (some n) s h =
    elim (Bool-cases (min size (o.max_output_bytes - s.saved_bytes) == 0)) [
      | inl no_room ↦ (
        s.saved_bytes,
        omega arith,
        omega arith,
        h,
        subst (Kept s)
            (sym (if_true (min size (o.max_output_bytes - s.saved_bytes) == 0) s _ no_room))
            (Kept-refl s),
      )
      | inr room ↦ (
        s.saved_bytes + min n (min size (o.max_output_bytes - s.saved_bytes)),
        omega arith,
        ground arith,
        ground arith,
        subst (Kept _)
            (sym (if_false (min size (o.max_output_bytes - s.saved_bytes) == 0) s _ room))
            (require_recovery-Kept m "EVIDENCE_FAILED" _).0,
      )
    ]

lt→ltb : (a b : ℕ) → a < b → ltb a b ≡ true
lt→ltb a b h = ground arith

recover_if-said :
    (b : Bool) (m : Moment) (r : String) (s : Run)
    → b ≡ true
    → is_none (recover_if b m r s).recovery_reason ≡ false
recover_if-said true m r s h = (require_recovery-Kept m r s).1
recover_if-said false m r s h = cc

chunk-Held :
    (o : Options) (m : Moment) (chunk : List ℕ) (fault : Option ℕ) (s : Run)
    → Held o s
    → s.finished ≡ false
    → Held o (handle_output o m chunk fault s)
unfolding handle_output
chunk-Held o m chunk fault s h on =
    let s1 = observe_wall_clock m.now s in
    let grown = record s1 { output = s1.output ++ chunk } in
    let h1 = Held-Kept o s s1 (observe-Kept m.now s) h in
    let s2 = save o m (length chunk) fault grown in
    let (k, more, less, within, kept2) =
      save-Kept o m (length chunk) fault grown h1.within.bounded in
    let s3 = recover_if (ltb o.max_output_bytes (length s2.output)) m "OUTPUT_LIMIT_EXCEEDED" s2 in
    let k3 =
      recover_if-Kept (ltb o.max_output_bytes (length s2.output)) m "OUTPUT_LIMIT_EXCEEDED" s2 in
    let s4 = recover_if (rolled_back s3.recovery_reason) m "WALL_CLOCK_ROLLBACK" s3 in
    let k4 = recover_if-Kept (rolled_back s3.recovery_reason) m "WALL_CLOCK_ROLLBACK" s3 in
    let k34 = Kept-trans s2 s3 s4 k3 k4 in
    let base = record grown { saved_bytes = k } in
    let all = Kept-trans base s2 s4 kept2 k34 in
    subst (Held o) (sym (if_false s.finished s s4 on)) (record {
      within = record {
        part =
            rw (all.same_saved, all.same_output)
              (omega (arith, less, h1.within.part, length-append s1.output chunk));
        bounded = rw all.same_saved within;
        over = λ past. k4.reason_stays (
            recover_if-said _ m "OUTPUT_LIMIT_EXCEEDED" s2 (
              lt→ltb o.max_output_bytes (length s2.output)
                (subst (λ l. o.max_output_bytes < length l) k34.same_output past)));
      };
      resolved = λ r there. h1.resolved r (sym all.same_result ∙ there);
    })

step-Held : (o : Options) (m : Moment) (i : Input) (s : Run) → Held o s → Held o (step o m i s)
unfolding step on_spawn on_exit on_close on_grace handle_output
step-Held o m (output_data chunk fault) s h = elim (Bool-cases s.finished) [
  | inr on ↦ chunk-Held o m chunk fault s h on
  | inl over ↦ subst (Held o) (sym (if_true s.finished s _ over)) h
]
step-Held o m (spawn pid) s h =
    let s1 = record (observe_wall_clock m.now s) { pid = pid; callback_pending = true } in
    let h1 =
      alike o (observe_wall_clock m.now s) s1 refl refl refl refl
        (Held-Kept o s _ (observe-Kept m.now s) h) in
    Held-Kept o s1 _ (recover_if-Kept (rolled_back s1.recovery_reason) m "WALL_CLOCK_ROLLBACK" s1)
      h1
step-Held o m started s h =
    maybe_finish-Held o m _
      (alike o s (record s { callback_pending = false }) refl refl refl refl h)
step-Held o m started_failed s h =
    let s1 = record s { callback_pending = false } in
    maybe_finish-Held o m _ (
      Held-Kept o s1 _ (require_recovery-Kept m "ON_STARTED_FAILED" s1).0
        (alike o s s1 refl refl refl refl h))
step-Held o m error s h =
    let s1 = observe_wall_clock m.now s in
    let s2 = record_recovery "SPAWN_FAILED" s1 in
    Held-Kept o s2 _ (start_grace-Kept s2) (
      Held-Kept o s1 s2 (record_recovery-Kept "SPAWN_FAILED" s1).0
        (Held-Kept o s s1 (observe-Kept m.now s) h))
step-Held o m (exit code signal) s h =
    let s0 = observe_wall_clock m.now s in
    let s1 = record s0 { exit_code = code; signal = signal } in
    let h1 = alike o s0 s1 refl refl refl refl (Held-Kept o s s0 (observe-Kept m.now s) h) in
    let s2 = record_when (not (is_none signal)) "COMMAND_SIGNALED" s1 in
    let h2 =
      Held-Kept o s1 s2 (record_when-Kept (not (is_none signal)) "COMMAND_SIGNALED" s1).0 h1 in
    let s3 = if rolled_back s2.recovery_reason then terminate_direct_child m s2 else s2 in
    let h3 =
      if_either (Held o) (rolled_back s2.recovery_reason) (terminate_direct_child m s2) s2
        (Held-Kept o s2 _ (terminate-Kept m s2) h2) h2 in
    Held-Kept o s3 _ (start_grace-Kept s3) h3
step-Held o m (close code signal) s h =
    let s0 = observe_wall_clock m.now s in
    let s1 = record s0 {
      close_observed = true;
      exit_code = code;
      signal = signal;
      grace = false;
    } in
    let h1 = alike o s0 s1 refl refl refl refl (Held-Kept o s s0 (observe-Kept m.now s) h) in
    maybe_finish-Held o m _
      (Held-Kept o s1 _ (record_when-Kept (not (is_none signal)) "COMMAND_SIGNALED" s1).0 h1)
step-Held o m deadline_passed s h =
    let s1 = record s { deadline = false } in
    if_either (Held o) s.deadline _ s
      (Held-Kept o s1 _ (require_recovery-Kept m "COMMAND_TIMED_OUT" s1).0
        (alike o s s1 refl refl refl refl h))
      h
step-Held o m grace_passed s h =
    let t = record_when (not s.close_observed) "CHILD_CLOSE_UNOBSERVED" s in
    let (kept, said) = record_when-Kept (not s.close_observed) "CHILD_CLOSE_UNOBSERVED" s in
    let why : (t.close_observed ≡ true) ⊎ (is_none t.recovery_reason ≡ false) =
      elim (Bool-cases s.close_observed) [
        | inl closed ↦ inl (kept.same_close ∙ closed)
        | inr unseen ↦ inr (said (ap not unseen))
      ] in
    if_either (Held o) s.grace (finish o m t) s (finish-Held o m t (Held-Kept o s t kept h) why) h

steps-Held : (o : Options) (l : List (Moment × Input)) (s : Run) → Held o s → Held o (steps o l s)
unfolding steps
steps-Held o [] s h = h
steps-Held o ((m, i) ∷ l) s h = steps-Held o l (step o m i s) (step-Held o m i s h)

-- What a run resolves with, after whatever callbacks: its outcome is one that `resultContract` takes
-- (a success has the exit code 0, a failure another one, and either was seen to close without a
-- signal), no more is saved than was written nor than the limit, and a command that wrote more than
-- the limit needs a recovery.
pub steps-Good :
    (o : Options) (now : ℕ) (l : List (Moment × Input)) (r : CommandResult)
    → (steps o l (spawned_run now)).result ≡ some r
    → Good o r
unfolding spawned_run
steps-Good o now l r h =
    (steps-Held o l (spawned_run now) (record {
      within = record {
        part = omega arith;
        bounded = omega arith;
        over = λ more. absurd (omega (arith, more));
      };
      resolved = λ x there. cc;
    })).resolved
      r h
