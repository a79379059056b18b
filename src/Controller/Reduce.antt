-- ===== src/Controller/Reduce.antt =====
-- `reduce` of core/controller/state.mjs: one event of the journal takes the state to the next, or is
-- refused. A journal is replayed from no state at all.
pub mod Valid
mod Inversion
mod Recover
mod Preserve
pub mod Replay
pub mod History
pub mod Fence
pub mod Stop
pub mod Phases
pub mod Closed
mod Samples
use eoduksini.Base.{
  ℕ, String, ◌+◌, ◌-◌, Bool, true, false, not, ◌&&◌, Option, none, some, List, [], ◌∷◌, map, str_eq,
  ltb, leb, ◌==◌, any, keep, length, if◌then◌else◌, ◌||◌, includes,
}
use eoduksini.Base.Dict.{Dict, lookup, has, insert}
use eoduksini.Base.Json.{canonical, obj, text_le}
use eoduksini.Base.Result.{ok, err, check, traverse, ◌>>◌, ◌>>=◌}
use eoduksini.Base.Sort.{sort_by}
use eoduksini.Controller.Types.{
  invalid_transition, invalid_event_digest, invalid_init, invalid_epoch,
  duplicate_semantic_assessment, semantic_binding_mismatch, semantic_assessment_mismatch,
  invalid_attempt_id, duplicate_approval, approval_binding_mismatch, recovery_required, Revision,
  Project, Request, Approval, Assessment, Payload, Assessed, init, approved, semantic_assessed,
  attempt_prepared, command_prepared, command_started, command_finished, finished, recovered,
  post_run, Event, Entry, Attempt, State, Peer, contract_violation,
}
use eoduksini.Controller.Contracts.{Contracts, Checked, Done, digest, request_digest}
use eoduksini.Controller.Event.{identifier, is_clear, is_none, event_contract}
use eoduksini.Controller.Dispatch.{
  incomplete, put_attempt, prepare_attempt, prepare_command, start_command, finish_command,
  finish_attempt, finish_attempt_metering, end_attempt, active_attempt, approved_entry,
}
use eoduksini.Controller.PostRun.{record_post_run}

abbrev pub initial_state : Option State
initial_state = none

-- The epoch advances with a recovery and with an assessment that is not clear.
unfoldable pub fences : Payload → Bool
fences (recovered _ _) = true
fences (semantic_assessed _ _ a) = not (is_clear a)
fences _ = false

-- The names of Object.prototype that an identifier may have.
abbrev inherited_names : List String
inherited_names =
    "constructor" ∷ "hasOwnProperty" ∷ "isPrototypeOf" ∷ "propertyIsEnumerable" ∷ "toLocaleString"
    ∷ "toString" ∷ "valueOf" ∷ []

module _ (c : Contracts) where
  -- canonical(left) === canonical(right)
  same_project : Project → Project → Bool
  same_project p q = str_eq (canonical c.printer p.document) (canonical c.printer q.document)

  same_revision : Revision → Revision → Bool
  same_revision p q = str_eq (canonical c.printer p.document) (canonical c.printer q.document)

  same_assessment : Assessment → Assessment → Bool
  same_assessment p q = str_eq (canonical c.printer p.document) (canonical c.printer q.document)

  unfoldable pub start : Event → Checked State
  start e = elim e.payload [
    | init root project policy revision ↦
        check (e.seq == 1 && is_none e.prev_digest && e.control_epoch == 1) invalid_init
        >> ok (record {
          repo_root = root;
          project = project;
          policy = policy;
          harness_revision = revision;
          control_epoch = 1;
          approvals = [];
          attempts = [];
          semantic_assessments = [];
          reservation = none;
          recovery_required = false;
          semantic_review_required = false;
        })
    | _ ↦ err invalid_init
  ]

  -- Live approvals of other attempts that have not been prepared.
  is_peer : State → String → ℕ → String × Entry → Bool
  is_peer s id at (peer, e) =
      not (str_eq peer id) && ltb at e.approval.expires_at && not (has peer s.attempts)

  peer_of : String × Entry → Checked Peer
  peer_of (peer, e) = do
    footprint ← c.request_footprint e.request
    ok (record { attempt_id = peer; footprint = footprint })

  expected_assessment : State → Request → ℕ → Checked Assessment
  unfolding is_peer peer_of
  expected_assessment s r at = do
    peers ← traverse peer_of (keep (is_peer s r.attempt_id at) s.approvals)
    c.assess_admission r peers

  is_bound : State → Request → Bool
  unfolding same_project
  is_bound s r =
      str_eq r.repo_root s.repo_root
      && same_project r.project s.project
      && str_eq r.policy_digest (digest c s.policy.document)

  -- An approval that is there is of this request; a clear assessment needs one.
  assessment_approval : Option Entry → Request → Assessment → Bool
  assessment_approval none r a = not (is_clear a)
  assessment_approval (some e) r a = str_eq (request_digest c e.request) (request_digest c r)

  -- approvals[id] of a name that every object inherits is a function, whose `request` is no request.
  existing_approval : State → Request → Assessment → Done
  unfolding assessment_approval
  existing_approval s r a = do
    check (has r.attempt_id s.approvals || not (includes inherited_names r.attempt_id))
        (contract_violation "INVALID_JSON_INPUT")
    check (assessment_approval (lookup r.attempt_id s.approvals) r a) semantic_binding_mismatch

  check_assessment : State → Request → ℕ → Assessment → Done
  unfolding expected_assessment is_bound existing_approval same_assessment
  check_assessment s r at a = do
    check (not (has r.attempt_id s.semantic_assessments) && not (has r.attempt_id s.attempts))
        duplicate_semantic_assessment
    check (is_bound s r && r.control_epoch == s.control_epoch) semantic_binding_mismatch
    expected ← expected_assessment s r at
    check (same_assessment expected a) semantic_assessment_mismatch
    existing_approval s r a

  unfoldable pub record_assessment : State → ℕ → Request → ℕ → Assessment → Checked State
  unfolding check_assessment
  record_assessment s epoch r at a = do
    check_assessment s r at a
    ok (record s {
      semantic_assessments =
          insert r.attempt_id (record { request_digest = request_digest c r; assessment = a })
            s.semantic_assessments;
      control_epoch = if is_clear a then s.control_epoch else epoch;
      semantic_review_required = if is_clear a then s.semantic_review_required else true;
    })

  revision_bound : Option Revision → Request → Bool
  unfolding same_revision
  revision_bound none r = r.schema_version == 1
  revision_bound (some v) r =
      r.schema_version == 2 && elim r.harness_revision [ none ↦ false | some w ↦ same_revision w v ]

  approval_assessment : State → Request → Approval → Option Assessment → Done
  unfolding expected_assessment same_assessment
  approval_assessment s r p none = ok tt
  approval_assessment s r p (some a) = do
    expected ← expected_assessment s r p.issued_at
    check (same_assessment expected a) semantic_assessment_mismatch

  assessments_with : State → Request → Option Assessment → Dict Assessed
  assessments_with s r none = s.semantic_assessments
  assessments_with s r (some a) =
      insert r.attempt_id (record { request_digest = request_digest c r; assessment = a })
        s.semantic_assessments

  unfoldable pub record_approval :
      State → ℕ → Request → Approval → Option Assessment → Checked State
  unfolding is_bound revision_bound approval_assessment assessments_with
  record_approval s epoch r p a = do
    check (identifier r.attempt_id) invalid_attempt_id
    check
        (not (has r.attempt_id s.approvals)
          && not (has r.attempt_id s.attempts)
          && not (has r.attempt_id s.semantic_assessments)
          && not (any (λ (_, e). str_eq e.approval.approval_id p.approval_id) s.approvals))
        duplicate_approval
    check
        (is_bound s r
          && str_eq p.request_digest (request_digest c r)
          && r.control_epoch == epoch
          && p.control_epoch == epoch)
        approval_binding_mismatch
    check (revision_bound s.harness_revision r) approval_binding_mismatch
    check (leb (p.expires_at - p.issued_at) s.policy.approval_ttl_ms) approval_binding_mismatch
    approval_assessment s r p a
    ok (record s {
      semantic_assessments = assessments_with s r a;
      approvals = insert r.attempt_id (record { request = r; approval = p }) s.approvals;
    })

  -- The incomplete attempts, sorted.
  pub pending : State → List String
  pending s = sort_by text_le (map (λ (id, _). id) (keep (λ (_, a). incomplete a) s.attempts))

  same_texts : List String → List String → Bool
  same_texts [] [] = true
  same_texts (x ∷ xs) (y ∷ ys) = str_eq x y && same_texts xs ys
  same_texts _ _ = false

  pub recover_attempts : String → List String → Dict Attempt → Checked (Dict Attempt)
  recover_attempts reason [] d = ok d
  recover_attempts reason (id ∷ ids) d = elim (lookup id d) [
    | none ↦ err invalid_transition
    | some a ↦ finish_attempt_metering c a recovery_required >>= λ m.
        recover_attempts reason ids (insert id (end_attempt a recovery_required reason m) d)
  ]

  unfoldable pub recover : State → ℕ → List String → String → Checked State
  unfolding pending same_texts recover_attempts
  recover s epoch ids reason = do
    check (not (length (pending s) == 0) && same_texts (sort_by text_le ids) (pending s))
        invalid_transition
    attempts ← recover_attempts reason (pending s) s.attempts
    ok (record s { attempts = attempts; control_epoch = epoch; recovery_required = true })

  -- An event on an attempt that was prepared.
  unfoldable pub on_attempt : State → String → (ℕ → Attempt → Checked State) → Checked State
  on_attempt s id f = do
    e ← approved_entry s id
    a ← active_attempt s id
    f (length e.request.commands) a

  -- An event that changes nothing but the attempt.
  unfoldable pub update_attempt : State → String → (ℕ → Attempt → Checked Attempt) → Checked State
  update_attempt s id f = on_attempt s id λ count a. f count a >>= λ a'. ok (put_attempt s id a')

  unfoldable pub apply : State → ℕ → Payload → Checked State
  apply s epoch (init _ _ _ _) = err invalid_transition
  apply s epoch (approved r p a) = record_approval s epoch r p a
  apply s epoch (semantic_assessed r at a) = record_assessment s epoch r at a
  apply s epoch (recovered ids reason) = recover s epoch ids reason
  apply s epoch (post_run e) = record_post_run c s e
  apply s epoch (attempt_prepared id d r m) = do
    e ← approved_entry s id
    prepare_attempt c s e id d r m
  apply s epoch (command_prepared id i) = update_attempt s id (λ count a. prepare_command count a i)
  apply s epoch (command_started id i pid m) =
      update_attempt s id (λ count a. start_command c a i m)
  apply s epoch (command_finished id i result m l) =
      update_attempt s id (λ count a. finish_command c a i result m l)
  apply s epoch (finished id o reason) =
      on_attempt s id λ count a. finish_attempt c s id count a o reason

  -- The transition of a state that is there.
  unfoldable pub step : State → Event → Checked State
  unfolding apply fences
  step s e = do
    check (e.control_epoch == (if fences e.payload then s.control_epoch + 1 else s.control_epoch))
        invalid_epoch
    apply s e.control_epoch e.payload

  unfoldable pub reduce : Option State → Event → Checked State
  unfolding start step
  reduce state e = do
    event_contract c e
    check (str_eq e.digest (digest c (obj e.body))) invalid_event_digest
    elim state [ none ↦ start e | some s ↦ step s e ]

  -- The state after a journal.
  unfoldable pub replay : Option State → List Event → Checked (Option State)
  unfolding reduce
  replay state [] = ok state
  replay state (e ∷ es) = do s ← reduce state e; replay (some s) es
