-- ===== src/Controller/Reduce/Fence.antt =====
-- The control epoch and the demand for a recovery as fences: what they stop, for how long.
use eoduksini.Controller.PostRun.Inversion.{record_post_run_inv}
use eoduksini.Controller.Reduce.Recover.{recover_inv}
use eoduksini.Controller.Reduce.Inversion.{
  step_inv, reduce_inv, prepare_attempt_inv, record_approval_inv, record_assessment_inv,
  approved_entry_inv, update_attempt_inv, on_attempt_inv, finish_attempt_inv,
}
use eoduksini.Base.Dict.{lookup, lookup-insert_old}
use eoduksini.Controller.Dispatch.{finished_state, approved_entry, end_attempt}
use eoduksini.Base.Result.{ok, >>=-eq-ok}
use eoduksini.Controller.Types.{
  Payload, State, Event, Attempt, Outcome, Entry, attempt_prepared, init, command_prepared,
  succeeded, command_started, approved, failed, command_finished, recovery_required,
  semantic_assessed, finished, recovered, post_run,
}
use eoduksini.Base.{
  ◌≡◌, String, ℕ, Bool, List, some, Option, str_eq, if◌then◌else◌, true, ◌<◌, ◌+◌, false, any, ◌∷◌,
  refl, arith, Bool-cases, eq_iff, inl, inr, [],
}
use eoduksini.Controller.Contracts.{Contracts}
use eoduksini.Controller.Reduce.{apply, reduce, replay, fences}

-- The events by which an attempt is executed.
unfoldable pub executes : Payload → Bool
executes (attempt_prepared _ _ _ _) = true
executes (command_prepared _ _) = true
executes (command_started _ _ _ _) = true
executes (command_finished _ _ _ _ _) = true
executes (finished _ _ _) = true
executes _ = false

-- PREPARED of this attempt.
unfoldable pub prepares : String → Payload → Bool
prepares id (attempt_prepared j _ _ _) = str_eq j id
prepares id (init _ _ _ _) = false
prepares id _ = false

module _ (c : Contracts) where
  finished-epoch :
      (s : State) (id : String) (a : Attempt) (o : Outcome)
      → ((finished_state s id a o).control_epoch ≡ s.control_epoch)
        × ((finished_state s id a o).approvals ≡ s.approvals)
  finished-epoch s id a succeeded = (refl, refl)
  finished-epoch s id a failed = (refl, refl)
  finished-epoch s id a recovery_required = (refl, refl)

  apply-control_epoch :
      (p : Payload) (s : State) (epoch : ℕ) {s' : State}
      → apply c s epoch p ≡ ok s'
      → s'.control_epoch ≡ (if fences p then epoch else s.control_epoch)
  unfolding apply fences
  apply-control_epoch (init _ _ _ _) s epoch h = cc
  apply-control_epoch (approved r p a) s epoch h = (record_approval_inv c s epoch r p a h).5
  apply-control_epoch (semantic_assessed r at a) s epoch h =
      ground (arith, (record_assessment_inv c s epoch r at a h).4)
  apply-control_epoch (recovered ids reason) s epoch h =
      let (d, done, _, same) = recover_inv c s epoch ids reason h in rw same
  apply-control_epoch (post_run e) s epoch h =
      let (a, m, found, done, same) = record_post_run_inv c s e h in rw same
  apply-control_epoch (attempt_prepared id d r m) s epoch h =
      let (e, found, h') = >>=-eq-ok (approved_entry s id) _ h in
      let (_, _, _, _, fresh, same) = prepare_attempt_inv c s e id d r m h' in rw same
  apply-control_epoch (command_prepared id i) s epoch h =
      let (e, a, a', _, found, was, _, done, same) = update_attempt_inv c s id _ h in rw same
  apply-control_epoch (command_started id i pid m) s epoch h =
      let (e, a, a', _, found, was, _, done, same) = update_attempt_inv c s id _ h in rw same
  apply-control_epoch (command_finished id i result m l) s epoch h =
      let (e, a, a', _, found, was, _, done, same) = update_attempt_inv c s id _ h in rw same
  apply-control_epoch (finished id o reason) s epoch h =
      let (e, a, _, found, was, _, _, h') = on_attempt_inv c s id _ h in
      let (m, _, same) = finish_attempt_inv c s id _ a o reason h' in
      rw same (finished-epoch s id (end_attempt a o reason m) o).0

  -- An accepted event names the epoch that it leaves: the next one if it is a recovery or an
  -- assessment that is not clear, and otherwise the one that is.
  pub reduce-control_epoch :
      (s : State) (e : Event) {s' : State}
      → reduce c (some s) e ≡ ok s'
      → (s'.control_epoch ≡ e.control_epoch)
        × (e.control_epoch ≡ (if fences e.payload then s.control_epoch + 1 else s.control_epoch))
  reduce-control_epoch s e h =
      let (named, applied) = step_inv c s e (reduce_inv c (some s) e h) in
      let left = apply-control_epoch e.payload s e.control_epoch applied in
      (ground (arith, left, named), named)

  apply-approvals :
      (p : Payload) (s : State) (epoch : ℕ) (id : String) (e : Entry) {s' : State}
      → apply c s epoch p ≡ ok s'
      → lookup id s.approvals ≡ some e
      → lookup id s'.approvals ≡ some e
  unfolding apply
  apply-approvals (init _ _ _ _) s epoch j b h k = cc
  apply-approvals (approved r p a) s epoch j b h k =
      let (fresh, _, same, _, _, _, _, _, _, _) = record_approval_inv c s epoch r p a h in
      rw same (lookup-insert_old r.attempt_id j _ s.approvals fresh k)
  apply-approvals (semantic_assessed r at a) s epoch j b h k =
      rw (record_assessment_inv c s epoch r at a h).1 k
  apply-approvals (recovered ids reason) s epoch j b h k =
      let (d, done, _, same) = recover_inv c s epoch ids reason h in rw same k
  apply-approvals (post_run e) s epoch j b h k =
      let (a, m, found, done, same) = record_post_run_inv c s e h in rw same k
  apply-approvals (attempt_prepared id d r m) s epoch j b h k =
      let (e, found, h') = >>=-eq-ok (approved_entry s id) _ h in
      let (_, _, _, _, fresh, same) = prepare_attempt_inv c s e id d r m h' in rw same k
  apply-approvals (command_prepared id i) s epoch j b h k =
      let (e, a, a', _, found, was, _, done, same) = update_attempt_inv c s id _ h in rw same k
  apply-approvals (command_started id i pid m) s epoch j b h k =
      let (e, a, a', _, found, was, _, done, same) = update_attempt_inv c s id _ h in rw same k
  apply-approvals (command_finished id i result m l) s epoch j b h k =
      let (e, a, a', _, found, was, _, done, same) = update_attempt_inv c s id _ h in rw same k
  apply-approvals (finished id o reason) s epoch j b h k =
      let (e, a, _, found, was, _, _, h') = on_attempt_inv c s id _ h in
      let (m, _, same) = finish_attempt_inv c s id _ a o reason h' in
      rw (same, (finished-epoch s id (end_attempt a o reason m) o).1) k

  -- PREPARED of an attempt means that its approval is of the current epoch.
  prepared-current :
      (s : State) (epoch : ℕ) (id : String) (b : Entry) (p : Payload) {s' : State}
      → apply c s epoch p ≡ ok s'
      → prepares id p ≡ true
      → lookup id s.approvals ≡ some b
      → b.approval.control_epoch ≡ s.control_epoch
  unfolding apply prepares
  prepared-current s epoch id b (attempt_prepared j d r m) h k found =
      let (e, there, h') = >>=-eq-ok (approved_entry s j) _ h in
      let (_, _, _, current, _, _) = prepare_attempt_inv c s e j d r m h' in
      let same : e ≡ b = ground (arith, approved_entry_inv s j there, eq_iff j id) in
      rw same at current
  prepared-current s epoch id b (init _ _ _ _) h k found = cc
  prepared-current s epoch id b _ h k found = cc

  -- An approval of an earlier epoch is never used: in whatever way the journal goes on, no event of
  -- it prepares that attempt.
  pub replay-stale_approval :
      (s : State) (events : List Event) {state' : Option State} (id : String) (b : Entry)
      → lookup id s.approvals ≡ some b
      → b.approval.control_epoch < s.control_epoch
      → replay c (some s) events ≡ ok state'
      → any (λ e. prepares id e.payload) events ≡ false
  unfolding replay
  replay-stale_approval s [] id b found stale h = refl
  replay-stale_approval s (e ∷ es) id b found stale h =
      let (t, done, h') = >>=-eq-ok (reduce c (some s) e) _ h in
      let (named, applied) = step_inv c s e (reduce_inv c (some s) e done) in
      let (left, grown) = reduce-control_epoch s e done in
      let later : b.approval.control_epoch < t.control_epoch = ground (arith, left, grown) in
      let rest =
        replay-stale_approval t es id b
          (apply-approvals e.payload s e.control_epoch id b applied found) later h' in
      elim (Bool-cases (prepares id e.payload)) [
        | inl used ↦
            let current = prepared-current s e.control_epoch id b e.payload applied used found in
            absurd (omega arith)
        | inr unused ↦ rw unused rest
      ]
