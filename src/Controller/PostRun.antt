-- ===== src/Controller/PostRun.antt =====
-- The post-run events in `reduce` of core/controller/state.mjs: a review, an adoption, a cost or an
-- energy record is attached to the metering of a finished attempt.
pub mod Inversion
use eoduksini.Base.{
  ℕ, String, Bool, true, false, not, ◌&&◌, ◌||◌, Option, none, some, str_eq, leb, includes,
}
use eoduksini.Base.Dict.{lookup}
use eoduksini.Base.Result.{ok, err, check, ◌>>◌, ◌>>=◌}
use eoduksini.Controller.Types.{
  post_run_binding_mismatch, post_run_authority_required, unauthorized_reviewer,
  post_run_time_mismatch, unauthorized_adoption_actor, adoption_gate_not_met,
  invalid_adoption_transition, unauthorized_price_basis, unauthorized_energy_evidence, prepared,
  running, ended, AttemptStatus, Authority, Metering, ReviewEvent, AdoptionEvent, CostEvent,
  EnergyEvent, PostRun, review_recorded, adoption_recorded, cost_recorded, energy_recorded, Attempt,
  State,
}
use eoduksini.Controller.Contracts.{Contracts, Checked}
use eoduksini.Controller.Dispatch.{incomplete, is_succeeded, put_attempt}

abbrev pub event_attempt : PostRun → String
event_attempt (review_recorded e) = e.attempt_id
event_attempt (adoption_recorded e) = e.attempt_id
event_attempt (cost_recorded e) = e.attempt_id
event_attempt (energy_recorded e) = e.attempt_id

abbrev pub event_result : PostRun → String
event_result (review_recorded e) = e.result_digest
event_result (adoption_recorded e) = e.result_digest
event_result (cost_recorded e) = e.result_digest
event_result (energy_recorded e) = e.result_digest

-- a >= b, where a date that does not parse compares false
abbrev pub not_before : Option ℕ → Option ℕ → Bool
not_before none b = false
not_before (some x) none = false
not_before (some x) (some y) = leb y x

unfoldable pub ended_succeeded : AttemptStatus → Bool
unfolding is_succeeded
ended_succeeded prepared = false
ended_succeeded running = false
ended_succeeded (ended o) = is_succeeded o

-- ['ADOPTED','PARTIALLY_ADOPTED'].includes(status)
unfoldable pub is_adopted : String → Bool
is_adopted s = str_eq "ADOPTED" s || str_eq "PARTIALLY_ADOPTED" s

abbrev pub result_is : Option String → String → Bool
result_is none d = false
result_is (some r) d = str_eq r d

abbrev pub with_metering : Attempt → Metering → Attempt
with_metering a m = record a { metering = some m }

module _ (c : Contracts) where
  parse : Option String → Option ℕ
  parse none = none
  parse (some s) = c.parse_date s

  abbrev at_or_after : String → Option ℕ → Bool
  at_or_after s t = not_before (c.parse_date s) t

  unfoldable pub attach_review_event :
      Authority → (finished_at : Option ℕ) → Metering → ReviewEvent → Checked Metering
  attach_review_event authority finished m e = do
    check (includes authority.reviewer_ids e.reviewer_id) unauthorized_reviewer
    check (at_or_after e.reviewed_at finished) post_run_time_mismatch
    c.attach_review m e

  after_last_review : Metering → AdoptionEvent → Bool
  after_last_review m e = elim m.last_reviewed_at [
    | none ↦ true
    | some t ↦ at_or_after e.decided_at (c.parse_date t)
  ]

  unfoldable pub attach_adoption_event :
      Authority → Option ℕ → Attempt → Metering → AdoptionEvent → Checked Metering
  unfolding after_last_review ended_succeeded is_adopted
  attach_adoption_event authority finished a m e = do
    check (includes authority.adoption_actor_ids e.actor_id) unauthorized_adoption_actor
    check (at_or_after e.decided_at finished && after_last_review m e) post_run_time_mismatch
    check
        (not (is_adopted e.decision) || (ended_succeeded a.status && str_eq m.review_status "PASS"))
        adoption_gate_not_met
    check (not (str_eq e.decision "REVERTED") || is_adopted m.adoption_status)
        invalid_adoption_transition
    c.attach_adoption m e

  unfoldable pub attach_cost_event : Authority → Option ℕ → Metering → CostEvent → Checked Metering
  attach_cost_event authority finished m e = do
    check (includes authority.price_basis_ids e.basis_id) unauthorized_price_basis
    check
        (at_or_after e.recorded_at finished
          && at_or_after e.recorded_at (c.parse_date e.retrieved_at)
          && at_or_after e.recorded_at (c.parse_date e.effective_at))
        post_run_time_mismatch
    c.attach_cost m e

  -- tariff_basis_id === null, or the test holds of it
  for_tariff : Option String → (String → Bool) → Bool
  for_tariff none p = true
  for_tariff (some t) p = p t

  unfoldable pub attach_energy_event :
      Authority → Option ℕ → Metering → EnergyEvent → Checked Metering
  unfolding for_tariff parse
  attach_energy_event authority finished m e = do
    check
        (includes authority.energy_source_ids e.source_id
          && for_tariff e.tariff_basis_id (includes authority.tariff_basis_ids))
        unauthorized_energy_evidence
    check
        (at_or_after e.recorded_at (c.parse_date e.interval_finished_at)
          && not_before (parse m.worker_started_at_utc) (c.parse_date e.interval_started_at)
          && at_or_after e.interval_finished_at finished
          && for_tariff e.tariff_basis_id (λ _.
            at_or_after e.recorded_at (c.parse_date e.tariff_effective_at)
            && at_or_after e.recorded_at (c.parse_date e.tariff_retrieved_at)))
        post_run_time_mismatch
    c.attach_energy m e

  attach : Authority → Option ℕ → Attempt → Metering → PostRun → Checked Metering
  unfolding attach_review_event attach_adoption_event attach_cost_event attach_energy_event
  attach authority finished a m (review_recorded e) = attach_review_event authority finished m e
  attach authority finished a m (adoption_recorded e) =
      attach_adoption_event authority finished a m e
  attach authority finished a m (cost_recorded e) = attach_cost_event authority finished m e
  attach authority finished a m (energy_recorded e) = attach_energy_event authority finished m e

  -- The attempt and its metering, if the event is bound to them.
  bound_metering : State → PostRun → Checked (Attempt × Metering)
  bound_metering s e = elim (lookup (event_attempt e) s.attempts) [
    | none ↦ err post_run_binding_mismatch
    | some a ↦ elim a.metering [
      | none ↦ err post_run_binding_mismatch
      | some m ↦
          check (not (incomplete a) && result_is m.result_digest (event_result e))
            post_run_binding_mismatch
          >> ok (a, m)
    ]
  ]

  is_date : Option ℕ → Bool
  is_date none = false
  is_date (some _) = true

  authority_of : State → Checked Authority
  authority_of s = elim s.policy.post_run_authority [
    | none ↦ err post_run_authority_required
    | some authority ↦ ok authority
  ]

  unfoldable pub record_post_run : State → PostRun → Checked State
  unfolding bound_metering is_date authority_of attach parse
  record_post_run s e = do
    (a, m) ← bound_metering s e
    let finished = parse m.worker_finished_at_utc
    check (is_date finished) post_run_binding_mismatch
    authority ← authority_of s
    m' ← attach authority finished a m e
    ok (put_attempt s (event_attempt e) (with_metering a m'))
