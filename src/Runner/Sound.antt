-- ===== src/Runner/Sound.antt =====
-- What the runner resolves with (core/controller/runner.mjs) is what `resultContract` of
-- core/controller/contracts.mjs asks of an outcome, within the limit on the output.
use eoduksini.Controller.Event.{is_none}
use eoduksini.Controller.Types.{CommandResult}
use eoduksini.Runner.Steps.{recover_if}
use eoduksini.Runner.Kept.{
  Kept, Within, record_when-Kept, last_reasons-Kept, Good, Kept-refl, record_recovery-Kept,
  result_of-Good, Kept-trans, differ, some-injective,
}
use eoduksini.Runner.{
  require_recovery, start_grace, Run, finish, terminate_direct_child, Moment, maybe_finish, Options,
  last_reasons, result_of, record_recovery,
}
use mathlib.Core.Path.{subst}
use eoduksini.Base.{
  String, Bool, true, false, not, ◌&&◌, ◌||◌, some, length, ◌≡◌, refl, arith, ◌⊎◌, ap, if_true,
  Bool-cases, inr, sym, inl, ◌<◌, if_false, ◌∙◌,
}

-- What holds between two callbacks.
pub record Held (o : Options) (s : Run) : Type 0 where
  pub within : Within o s
  pub resolved : (r : CommandResult) → s.result ≡ some r → Good o r

Within-Kept : (o : Options) (s t : Run) → Kept s t → Within o s → Within o t
Within-Kept o s t k w = record {
  part = rw (k.same_saved, k.same_output) w.part;
  bounded = rw k.same_saved w.bounded;
  over = λ more.
      k.reason_stays (w.over (subst (λ l. o.max_output_bytes < length l) k.same_output more));
}

pub Held-Kept : (o : Options) (s t : Run) → Kept s t → Held o s → Held o t
Held-Kept o s t k h = record {
  within = Within-Kept o s t k h.within;
  resolved = λ r there. h.resolved r (sym k.same_result ∙ there);
}

-- A finished run, with the timers off.
abbrev pub off : Run → Run
off s = record s { finished = true; deadline = false; grace = false }

pub finish-over : (o : Options) (m : Moment) (s : Run) → s.finished ≡ true → finish o m s ≡ s
unfolding finish
finish-over o m s over = if_true s.finished s _ over

pub finish-first :
    (o : Options) (m : Moment) (s : Run)
    → s.finished ≡ false
    → finish o m s
      ≡ record (last_reasons m (off s)) { result = some (result_of o (last_reasons m (off s))) }
unfolding finish
finish-first o m s on = if_false s.finished s _ on

resolved-Held :
    (o : Options) (m : Moment) (s : Run)
    → Held o s
    → (s.close_observed ≡ true) ⊎ (is_none s.recovery_reason ≡ false)
    → Held o
        (record (last_reasons m (off s)) { result = some (result_of o (last_reasons m (off s))) })
resolved-Held o m s h why =
    let t = last_reasons m (off s) in
    let (kept, said) = last_reasons-Kept m (off s) in
    let inside : Within o (off s) = record {
      part = h.within.part;
      bounded = h.within.bounded;
      over = h.within.over;
    } in
    let w = Within-Kept o (off s) t kept inside in
    let good = result_of-Good o t w (λ unsaid.
      let closed : s.close_observed ≡ true = elim why [
        | inl seen ↦ seen
        | inr known ↦ absurd (differ (sym unsaid ∙ kept.reason_stays known))
      ] in
      let (no_signal, coded) = said unsaid in
      (
        kept.same_close ∙ closed,
        ap is_none kept.same_signal ∙ no_signal,
        ap is_none kept.same_exit ∙ coded closed,
      )) in
    record {
      within = record { part = w.part; bounded = w.bounded; over = w.over };
      resolved = λ r there. subst (Good o) (some-injective there) good;
    }

-- `finish` where the close was observed or a reason is there.
pub finish-Held :
    (o : Options) (m : Moment) (s : Run)
    → Held o s
    → (s.close_observed ≡ true) ⊎ (is_none s.recovery_reason ≡ false)
    → Held o (finish o m s)
finish-Held o m s h why = elim (Bool-cases s.finished) [
  | inl over ↦ subst (Held o) (sym (finish-over o m s over)) h
  | inr on ↦ subst (Held o) (sym (finish-first o m s on)) (resolved-Held o m s h why)
]

pub maybe_finish-Held :
    (o : Options) (m : Moment) (s : Run) → Held o s → Held o (maybe_finish o m s)
unfolding maybe_finish
maybe_finish-Held o m s h = elim (Bool-cases (s.close_observed && not s.callback_pending)) [
  | inr open_still ↦
      subst (Held o)
        (sym (if_false (s.close_observed && not s.callback_pending) (finish o m s) s open_still)) h
  | inl closed ↦
      let seen : s.close_observed ≡ true = ground (arith, closed) in
      subst (Held o)
        (sym (if_true (s.close_observed && not s.callback_pending) (finish o m s) s closed))
        (finish-Held o m s h (inl seen))
]

-- The fields that `Held` reads are the same.
pub alike :
    (o : Options) (s t : Run)
    → t.output ≡ s.output
    → t.saved_bytes ≡ s.saved_bytes
    → t.recovery_reason ≡ s.recovery_reason
    → t.result ≡ s.result
    → Held o s
    → Held o t
alike o s t output saved reason result h = record {
  within = record {
    part = rw (saved, output) h.within.part;
    bounded = rw saved h.within.bounded;
    over = λ more.
        ap is_none reason ∙ h.within.over (subst (λ l. o.max_output_bytes < length l) output more);
  };
  resolved = λ r there. h.resolved r (sym result ∙ there);
}

pub start_grace-Kept : (s : Run) → Kept s (start_grace s)
unfolding start_grace
start_grace-Kept s = elim (Bool-cases (s.grace || s.finished)) [
  | inl on ↦
      subst (Kept s) (sym (if_true (s.grace || s.finished) s (record s { grace = true }) on))
        (Kept-refl s)
  | inr off_still ↦
      subst (Kept s)
        (sym (if_false (s.grace || s.finished) s (record s { grace = true }) off_still))
        (record {
          same_output = refl;
          same_saved = refl;
          same_exit = refl;
          same_signal = refl;
          same_close = refl;
          same_result = refl;
          same_finished = refl;
          reason_stays = λ h. h;
        })
]

pub terminate-Kept : (m : Moment) (s : Run) → Kept s (terminate_direct_child m s)
unfolding terminate_direct_child
terminate-Kept m s =
    (record_when-Kept (not s.close_observed && m.kill_throws) "CHILD_TERMINATION_FAILED" s).0

pub require_recovery-Kept :
    (m : Moment) (r : String) (s : Run)
    → Kept s (require_recovery m r s) × (is_none (require_recovery m r s).recovery_reason ≡ false)
unfolding require_recovery
require_recovery-Kept m r s =
    let s1 = record_recovery r s in
    let s2 = terminate_direct_child m s1 in
    let (kept, said) = record_recovery-Kept r s in
    let later = Kept-trans s1 s2 (start_grace s2) (terminate-Kept m s1) (start_grace-Kept s2) in
    (Kept-trans s s1 (start_grace s2) kept later, later.reason_stays said)

pub recover_if-Kept : (b : Bool) (m : Moment) (r : String) (s : Run) → Kept s (recover_if b m r s)
recover_if-Kept true m r s = (require_recovery-Kept m r s).0
recover_if-Kept false m r s = Kept-refl s
