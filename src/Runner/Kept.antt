-- ===== src/Runner/Kept.antt =====
-- What the reasons that the runner finds leave as it was, and the result that is made of them
-- (core/controller/runner.mjs).
use eoduksini.Base.Int.{ℤ, pos, negsuc}
use eoduksini.Base.Result.{ok}
use eoduksini.Controller.Types.{CommandResult, recovery_required, failed}
use eoduksini.Controller.Event.{is_none, outcome_contract, is_zero_exit, is_failure_exit}
use eoduksini.Runner.{
  Run, last_reasons, record_recovery, observe_wall_clock, result_of, Options, record_when, Moment,
  status_of,
}
use mathlib.Core.Path.{subst}
use eoduksini.Base.{
  ℕ, String, Bool, true, false, not, ◌&&◌, Option, some, none, ltb, length, ◌≡◌, refl, arith,
  Bool-cases, ◌∙◌, ◌≤◌, inl, Option-cases, ◌<◌, inr, ap, ◌≢◌, sym, ◌⊎◌, suc, zero, ltb→lt,
}

-- A change of the reason, the clock and the timers only; a reason stays.
pub record Kept (s t : Run) : Type 0 where
  pub same_output : t.output ≡ s.output
  pub same_saved : t.saved_bytes ≡ s.saved_bytes
  pub same_exit : t.exit_code ≡ s.exit_code
  pub same_signal : t.signal ≡ s.signal
  pub same_close : t.close_observed ≡ s.close_observed
  pub same_result : t.result ≡ s.result
  pub same_finished : t.finished ≡ s.finished
  pub reason_stays : is_none s.recovery_reason ≡ false → is_none t.recovery_reason ≡ false

pub Kept-refl : (s : Run) → Kept s s
Kept-refl s = record {
  same_output = refl;
  same_saved = refl;
  same_exit = refl;
  same_signal = refl;
  same_close = refl;
  same_result = refl;
  same_finished = refl;
  reason_stays = λ h. h;
}

pub Kept-trans : (s t u : Run) → Kept s t → Kept t u → Kept s u
Kept-trans s t u h k = record {
  same_output = k.same_output ∙ h.same_output;
  same_saved = k.same_saved ∙ h.same_saved;
  same_exit = k.same_exit ∙ h.same_exit;
  same_signal = k.same_signal ∙ h.same_signal;
  same_close = k.same_close ∙ h.same_close;
  same_result = k.same_result ∙ h.same_result;
  same_finished = k.same_finished ∙ h.same_finished;
  reason_stays = λ r. k.reason_stays (h.reason_stays r);
}

pub record_recovery-Kept :
    (r : String) (s : Run)
    → Kept s (record_recovery r s) × (is_none (record_recovery r s).recovery_reason ≡ false)
unfolding record_recovery is_none
record_recovery-Kept r s = elim (Option-cases s.recovery_reason) [
  | inl missing ↦ rw missing (
    record {
      same_output = refl;
      same_saved = refl;
      same_exit = refl;
      same_signal = refl;
      same_close = refl;
      same_result = refl;
      same_finished = refl;
      reason_stays = λ h. refl;
    },
    refl,
  )
  | inr (x, there) ↦
      let same : record_recovery r s ≡ s = ground (arith, there) in
      subst (λ t. Kept s t × (is_none t.recovery_reason ≡ false)) (sym same)
        (Kept-refl s, ground (arith, there))
]

pub record_when-Kept :
    (b : Bool) (r : String) (s : Run)
    → Kept s (record_when b r s) × (b ≡ true → is_none (record_when b r s).recovery_reason ≡ false)
record_when-Kept true r s = let (kept, there) = record_recovery-Kept r s in (kept, λ _. there)
record_when-Kept false r s = (Kept-refl s, λ h. cc)

pub observe-Kept : (now : ℕ) (s : Run) → Kept s (observe_wall_clock now s)
unfolding observe_wall_clock
observe-Kept now s = elim (Bool-cases (ltb now s.last_wall_clock)) [
  | inl back ↦ rw back (record_recovery-Kept "WALL_CLOCK_ROLLBACK" s).0
  | inr on ↦ rw on (record {
    same_output = refl;
    same_saved = refl;
    same_exit = refl;
    same_signal = refl;
    same_close = refl;
    same_result = refl;
    same_finished = refl;
    reason_stays = λ h. h;
  })
]

pub differ : true ≢ false
differ h = cc

pub all_three : {a b d : Bool} → a ≡ true → b ≡ true → d ≡ true → (a && b && d) ≡ true
all_three h k l = ground (arith, h, k, l)

-- Whatever `finish` finds: a signal, and a close without a code, have a reason.
pub last_reasons-Kept :
    (m : Moment) (s : Run)
    → Kept s (last_reasons m s)
      × (is_none (last_reasons m s).recovery_reason ≡ true
          → (is_none s.signal ≡ true) × (s.close_observed ≡ true → is_none s.exit_code ≡ false))
unfolding last_reasons
last_reasons-Kept m s =
    let s1 = observe_wall_clock m.later s in
    let s2 = record_when m.sync_throws "EVIDENCE_FAILED" s1 in
    let s3 = record_when m.close_throws "EVIDENCE_FAILED" s2 in
    let s4 = record_when (not (is_none s3.signal)) "COMMAND_SIGNALED" s3 in
    let k1 = observe-Kept m.later s in
    let k2 = Kept-trans s s1 s2 k1 (record_when-Kept m.sync_throws "EVIDENCE_FAILED" s1).0 in
    let k3 = Kept-trans s s2 s3 k2 (record_when-Kept m.close_throws "EVIDENCE_FAILED" s2).0 in
    let (kept4, signaled) = record_when-Kept (not (is_none s3.signal)) "COMMAND_SIGNALED" s3 in
    let k4 = Kept-trans s s3 s4 k3 kept4 in
    let (kept5, unknown) =
      record_when-Kept (s4.close_observed && is_none s4.signal && is_none s4.exit_code)
        "UNKNOWN_CLOSE" s4 in
    (
      Kept-trans s s4 _ k4 kept5,
      λ unsaid.
          let no_signal : is_none s.signal ≡ true = elim (Bool-cases (is_none s.signal)) [
            | inl missing ↦ missing
            | inr there ↦
                let known = signaled (ap (λ g. not (is_none g)) k3.same_signal ∙ ap not there) in
                absurd (differ (sym unsaid ∙ kept5.reason_stays known))
          ] in
          (
            no_signal,
            λ closed. elim (Bool-cases (is_none s.exit_code)) [
              | inr there ↦ there
              | inl missing ↦
                  let known = unknown (
                    all_three (k4.same_close ∙ closed) (ap is_none k4.same_signal ∙ no_signal)
                      (ap is_none k4.same_exit ∙ missing)) in
                  absurd (differ (sym unsaid ∙ known))
            ],
          ),
    )

-- A result that `resultContract` takes, as far as its outcome goes.
pub record Good (o : Options) (r : CommandResult) : Type 0 where
  pub outcome_holds : outcome_contract r r.status ≡ ok tt
  pub failed_plain :
      r.status ≡ failed
      → (is_failure_exit r.exit_code ≡ true) × (is_none r.signal ≡ true) × (r.close_observed ≡ true)
  pub saved_of_output : r.saved_bytes ≤ r.output_bytes
  pub saved_within : r.saved_bytes ≤ o.max_output_bytes
  pub over_limit : (r.output_bytes ≤ o.max_output_bytes) ⊎ (r.status ≡ recovery_required)

pub record Within (o : Options) (s : Run) : Type 0 where
  pub part : s.saved_bytes ≤ length s.output
  pub bounded : s.saved_bytes ≤ o.max_output_bytes
  pub over : o.max_output_bytes < length s.output → is_none s.recovery_reason ≡ false

ended :
    (code : Option ℤ)
    → is_none code ≡ false
    → (is_zero_exit code ≡ true) ⊎ ((is_zero_exit code ≡ false) × (is_failure_exit code ≡ true))
unfolding is_none is_zero_exit is_failure_exit
ended none h = cc
ended (some (pos zero)) h = inl refl
ended (some (pos (suc n))) h = inr (refl, refl)
ended (some (negsuc n)) h = inr (refl, refl)

pub result_of-Good :
    (o : Options) (s : Run)
    → Within o s
    → (is_none s.recovery_reason ≡ true
        → (s.close_observed ≡ true) × (is_none s.signal ≡ true) × (is_none s.exit_code ≡ false))
    → Good o (result_of o s)
unfolding result_of status_of is_none outcome_contract is_zero_exit is_failure_exit
result_of-Good o s w h = elim (Option-cases s.recovery_reason) [
  | inr (x, there) ↦ record {
    outcome_holds = ground (arith, there);
    failed_plain = λ h. absurd (ground (arith, there, h));
    saved_of_output = w.part;
    saved_within = w.bounded;
    over_limit = inr (ground (arith, there));
  }
  | inl missing ↦
      let (closed, no_signal, known) = h (ground (arith, missing)) in
      record {
        outcome_holds = elim (ended s.exit_code known) [
          | inl zero_exit ↦ ground (arith, missing, closed, no_signal, zero_exit)
          | inr (other, failing) ↦ ground (arith, missing, closed, no_signal, other, failing)
        ];
        failed_plain = λ h. elim (ended s.exit_code known) [
          | inl zero_exit ↦ absurd (ground (arith, missing, zero_exit, h))
          | inr (other, failing) ↦ (failing, no_signal, closed)
        ];
        saved_of_output = w.part;
        saved_within = w.bounded;
        over_limit = elim (Bool-cases (ltb o.max_output_bytes (length s.output))) [
          | inl more ↦ absurd (
              differ (
                sym (ap is_none missing)
                ∙ w.over (ltb→lt o.max_output_bytes (length s.output) more)))
          | inr within ↦ inl (ground (arith, within))
        ];
      }
]

pub some-injective {ℓ} : {A : Type ℓ} {a b : A} → ◌≡◌ {A = Option A} (some a) (some b) → a ≡ b
some-injective h = cc
