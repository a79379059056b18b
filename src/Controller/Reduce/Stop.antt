-- ===== src/Controller/Reduce/Stop.antt =====
-- A recovery stops execution for good, and leaves no attempt incomplete.
use eoduksini.Controller.Attempts.{incomplete-ended}
use eoduksini.Controller.PostRun.Inversion.{record_post_run_inv}
use eoduksini.Controller.Reduce.History.{pending-live}
use eoduksini.Controller.Reduce.Recover.{recover_inv}
use eoduksini.Controller.Reduce.Inversion.{
  step_inv, record_approval_inv, reduce_inv, prepare_attempt_inv, update_attempt_inv,
  record_assessment_inv, on_attempt_inv,
}
use eoduksini.Controller.Dispatch.{incomplete, approved_entry, finish_attempt_metering, end_attempt}
use eoduksini.Base.Result.{ok, ok-injective, >>=-eq-ok}
use eoduksini.Controller.Reduce.Valid.{IsValid}
use eoduksini.Base.Dict.{Dict, lookup, insert, lookup-insert_cases}
use eoduksini.Controller.Types.{
  State, Event, Payload, Attempt, recovered, attempt_prepared, init, approved, command_prepared,
  semantic_assessed, command_started, post_run, recovery_required, command_finished, finished,
}
use eoduksini.Controller.Reduce.Fence.{executes}
use eoduksini.Base.{
  ◌≡◌, List, String, true, ℕ, some, any, false, ◌∷◌, includes, Option-cases, ◌∙◌, [], inl, inr,
  refl, Bool-cases, arith, eq_iff,
}
use eoduksini.Controller.Contracts.{Contracts}
use eoduksini.Controller.Reduce.{apply, reduce, replay, recover_attempts, pending}

module _ (c : Contracts) where
  -- An event that executes is refused while a recovery is required.
  apply-executes :
      (p : Payload) (s : State) (epoch : ℕ) {s' : State}
      → apply c s epoch p ≡ ok s'
      → s.recovery_required ≡ true
      → executes p ≡ false
  unfolding apply executes
  apply-executes (attempt_prepared id d r m) s epoch h k =
      let (e, found, h') = >>=-eq-ok (approved_entry s id) _ h in
      let (_, running, _, _, _, _) = prepare_attempt_inv c s e id d r m h' in cc
  apply-executes (command_prepared id i) s epoch h k =
      let (e, a, a', _, found, was, running, done, same) = update_attempt_inv c s id _ h in cc
  apply-executes (command_started id i pid m) s epoch h k =
      let (e, a, a', _, found, was, running, done, same) = update_attempt_inv c s id _ h in cc
  apply-executes (command_finished id i result m l) s epoch h k =
      let (e, a, a', _, found, was, running, done, same) = update_attempt_inv c s id _ h in cc
  apply-executes (finished id o reason) s epoch h k =
      let (e, a, _, found, was, _, running, h') = on_attempt_inv c s id _ h in cc
  apply-executes (init _ _ _ _) s epoch h k = refl
  apply-executes _ s epoch h k = refl

  apply-recovery_required :
      (p : Payload) (s : State) (epoch : ℕ) {s' : State}
      → apply c s epoch p ≡ ok s'
      → s.recovery_required ≡ true
      → executes p ≡ false
      → s'.recovery_required ≡ true
  unfolding apply executes
  apply-recovery_required (init _ _ _ _) s epoch h k x = cc
  apply-recovery_required (approved r p a) s epoch h k x =
      (record_approval_inv c s epoch r p a h).4 ∙ k
  apply-recovery_required (semantic_assessed r at a) s epoch h k x =
      (record_assessment_inv c s epoch r at a h).3 ∙ k
  apply-recovery_required (recovered ids reason) s epoch h k x =
      let (d, done, _, same) = recover_inv c s epoch ids reason h in rw same
  apply-recovery_required (post_run e) s epoch h k x =
      let (a, m, found, done, same) = record_post_run_inv c s e h in rw same k
  apply-recovery_required _ s epoch h k x = cc

  -- Once a recovery is required it stays required, and whatever the journal adds, no event of it
  -- prepares, starts or finishes anything.
  pub replay-recovery_required :
      (s : State) (events : List Event) {s' : State}
      → s.recovery_required ≡ true
      → replay c (some s) events ≡ ok (some s')
      → (s'.recovery_required ≡ true) × (any (λ e. executes e.payload) events ≡ false)
  unfolding replay
  replay-recovery_required s [] {s'} k h = let same : s ≡ s' = cc in (rw (← same) k, refl)
  replay-recovery_required s (e ∷ es) {s'} k h =
      let (t, done, h') = >>=-eq-ok (reduce c (some s) e) _ h in
      let (_, applied) = step_inv c s e (reduce_inv c (some s) e done) in
      let idle = apply-executes e.payload s e.control_epoch applied k in
      let kept = apply-recovery_required e.payload s e.control_epoch applied k idle in
      let (stays, none_runs) = replay-recovery_required t es kept h' in (stays, rw idle none_runs)

  -- Behind a recovery of its attempts, what is incomplete was so before and is not among them.
  recover_attempts-left :
      (reason : String) (ids : List String) (d : Dict Attempt) {d' : Dict Attempt} (j : String)
      (b : Attempt)
      → recover_attempts c reason ids d ≡ ok d'
      → lookup j d' ≡ some b
      → incomplete b ≡ true
      → (lookup j d ≡ some b) × (includes ids j ≡ false)
  unfolding recover_attempts
  recover_attempts-left reason [] d j b h found live = (rw (ok-injective h) found, refl)
  recover_attempts-left reason (id ∷ ids) d {d'} j b h found live =
      elim (Option-cases (lookup id d)) [
        | inl missing ↦ cc (rw (missing, recover_attempts) at h)
        | inr (a, there) ↦
            let (m, _, h') =
              >>=-eq-ok (finish_attempt_metering c a recovery_required) _
                (rw (there, recover_attempts) at h) in
            let a' = end_attempt a recovery_required reason m in
            let (before, other) =
              recover_attempts-left reason ids (insert id a' d) j b h' found live in
            elim (lookup-insert_cases id j a' b d before) [
              | inl (_, same) ↦ cc (incomplete-ended a' recovery_required refl)
              | inr (apart, old) ↦ (old, ground (arith, eq_iff id j, eq_iff j id))
            ]
      ]

  -- RECOVERED ends every attempt that was incomplete; no attempt is left that runs.
  pub recovered_complete :
      (s : State) (e : Event) (ids : List String) (reason : String) {s' : State}
      → IsValid s
      → e.payload ≡ recovered ids reason
      → reduce c (some s) e ≡ ok s'
      → (j : String) (b : Attempt) → lookup j s'.attempts ≡ some b
      → incomplete b ≡ false
  unfolding apply
  recovered_complete s e ids reason {s'} v is_recovery h j b found =
      let (_, applied) = step_inv c s e (reduce_inv c (some s) e h) in
      let (d, done, _, same) =
        recover_inv c s e.control_epoch ids reason {s' = s'} (rw is_recovery at applied) in
      elim (Bool-cases (incomplete b)) [
        | inl live ↦
            let (before, other) =
              recover_attempts-left reason (pending c s) s.attempts j b done (rw same at found)
                live in
            cc (pending-live c s j b v before)
        | inr complete ↦ complete
      ]
