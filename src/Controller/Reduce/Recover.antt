-- ===== src/Controller/Reduce/Recover.antt =====
-- A recovery ends the incomplete attempts and keeps the state valid.
use eoduksini.Base.Json.{text_le}
use eoduksini.Base.Sort.{length-sort_by, sort_by}
use eoduksini.Controller.Attempts.{end_attempt-AttemptValid, may_recover, incomplete-ended}
use eoduksini.Controller.Dispatch.{incomplete, finish_attempt_metering, end_attempt, put_attempt}
use eoduksini.Base.Result.{ok, >>=-eq-ok}
use eoduksini.Base.Dict.{Dict, lookup, keep-lookup}
use eoduksini.Controller.Types.{State, Attempt, recovery_required}
use eoduksini.Base.{
  refl, ◌≡◌, String, List, ℕ, length, ◌≢◌, true, ◌∷◌, Option-cases, some, Bool-cases, inl, ◌==◌,
  arith, inr, false, ◌∙◌, length-map, keep, [],
}
use eoduksini.Controller.Contracts.{Contracts}
use eoduksini.Controller.Reduce.{recover, recover_attempts, pending, same_texts}
use eoduksini.Controller.Reduce.Valid.{IsValid, put_attempt-IsValid}

module _ (c : Contracts) where
  -- The state with other attempts.
  abbrev with_attempts : State → Dict Attempt → State
  with_attempts s d = record s { attempts = d }

  recover_attempts-IsValid :
      (reason : String) (ids : List String) (s : State) {d : Dict Attempt}
      → IsValid s
      → recover_attempts c reason ids s.attempts ≡ ok d
      → IsValid (with_attempts s d)
  unfolding recover_attempts
  recover_attempts-IsValid reason [] s {d} v h = let same : d ≡ s.attempts = cc in rw same v
  recover_attempts-IsValid reason (id ∷ ids) s {d} v h =
      elim (Option-cases (lookup id s.attempts)) [
        | inl missing ↦ cc (rw (missing, recover_attempts) at h)
        | inr (a, found) ↦
            let (e, approval, valid) = v.attempts_valid id a found in
            let (m, _, h') =
              >>=-eq-ok (finish_attempt_metering c a recovery_required) _
                (rw (found, recover_attempts) at h) in
            let a' = end_attempt a recovery_required reason m in
            let s' = put_attempt s id a' in
            let v' : IsValid s' =
              put_attempt-IsValid id e a' v approval
                (end_attempt-AttemptValid recovery_required reason m valid (may_recover _ a)) a
                found (λ k. cc (incomplete-ended a' recovery_required refl)) in
            recover_attempts-IsValid reason ids s' v' h'
      ]

  -- Something is pending only if an attempt is incomplete.
  pub pending_attempt :
      (s : State)
      → IsValid s
      → length (pending c s) ≢ 0
      → (id : String) × (a : Attempt) × (lookup id s.attempts ≡ some a) × (incomplete a ≡ true)
  unfolding pending
  pending_attempt s v h =
      keep-lookup (λ (_, a). incomplete a) s.attempts v.unique
        (λ none_kept. h (length-sort_by text_le _ ∙ length-map _ (keep _ s.attempts) ∙ none_kept))

  pub recover_inv :
      (s : State) (epoch : ℕ) (ids : List String) (reason : String) {s' : State}
      → recover c s epoch ids reason ≡ ok s'
      → (d : Dict Attempt) × (recover_attempts c reason (pending c s) s.attempts ≡ ok d)
        × (length (pending c s) ≢ 0)
        × (s' ≡ record s { attempts = d; control_epoch = epoch; recovery_required = true })
  unfolding recover
  recover_inv s epoch ids reason h =
      let go =
        λ (busy : (length (pending c s) == 0) ≡ false)
            (same : same_texts c (sort_by text_le ids) (pending c s) ≡ true).
          >>=-eq-ok (recover_attempts c reason (pending c s) s.attempts) _ (rw (busy, same) at h) in
      elim (Bool-cases (length (pending c s) == 0)) [
        | inl idle ↦ cc (rw idle at h)
        | inr busy ↦ elim (Bool-cases (same_texts c (sort_by text_le ids) (pending c s))) [
          | inl same ↦ let (d, e, k) = go busy same in (d, e, ground arith, cc)
          | inr other ↦ cc (rw (busy, other) at h)
        ]
      ]

  pub recover-IsValid :
      (s : State) (epoch : ℕ) (ids : List String) (reason : String) {s' : State}
      → IsValid s
      → recover c s epoch ids reason ≡ ok s'
      → IsValid s'
  recover-IsValid s epoch ids reason v h =
      let (d, done, busy, same) = recover_inv s epoch ids reason h in
      let w = recover_attempts-IsValid reason (pending c s) s v done in
      let (id, a, found, was) = pending_attempt s v busy in
      rw same (record {
        attempts_valid = w.attempts_valid;
        exclusive = w.exclusive;
        reserved = w.reserved;
        fenced = λ _. v.reserved id a found was;
        unique = w.unique;
      })
