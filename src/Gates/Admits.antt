-- ===== src/Gates/Admits.antt =====
-- What `checkDispatch` of core/controller/gates.mjs lets through.
use eoduksini.Governor.Lock.Writer.{Passes, writer_gate-All}
use eoduksini.Base.Lists.{All}
use eoduksini.Governor.Scope.{scope}
use eoduksini.Governor.Scope.{Scope}
use eoduksini.Governor.Lock.{Lock, writer_gate}
use eoduksini.Controller.Dispatch.{
  approved_entry, prepare_attempt, metering_binding, prepared_state, incomplete, new_attempt,
}
use eoduksini.Controller.Reduce.{apply}
use eoduksini.Controller.Contracts.{request_digest}
use eoduksini.Base.Dict.{lookup, insert, Dict}
use eoduksini.Base.Text.{max_safe}
use eoduksini.Base.Result.{ok, traverse, >>=-eq-ok, check}
use eoduksini.Resource.Quota.{Capacity}
use eoduksini.Controller.Types.{Request, Approval, Reservation, Entry, attempt_prepared, Attempt}
use eoduksini.Controller.Event.{is_none}
use eoduksini.Controller.Types.{State}
use eoduksini.Base.{
  ◌≡◌, ℕ, refl, arith, String, false, ◌≤◌, Bool, ◌↔◌, ◌<◌, none, ◌+◌, [], eq_iff, some, eq_refl,
  true, ◌∷◌, ◌≢◌, List, all, leb, ◌&&◌,
}
use eoduksini.Gates.{
  Sources, check_dispatch, check_approval_time, check_reservation, none_pending, pending,
  check_governor, check_resources, reservation_of, owned, only_pending, same_reservation,
  lock_for_platform, scope_for_platform, clock_rollback, rethrow, governor_reason, governor_time,
}

module _ (g : Sources) where
  -- An approval is good from its issue to its expiry, as long as the time limit of one command is left.
  pub check_approval_time-window :
      (r : Request) (a : Approval) (now : ℕ)
      → now ≤ max_safe
      → (check_approval_time g r a now ≡ ok tt)
        ↔ ((a.issued_at ≤ now) × (now < a.expires_at) × (now + g.timeout_ms r ≤ a.expires_at))
  unfolding check_approval_time
  check_approval_time-window r a now h = (λ k. ground arith, λ k. ground arith)

  pub check_dispatch_inv :
      (s : State) (r : Request) (a : Approval) (now : ℕ) (capacity : Capacity) (existing : Bool)
      {out : Reservation × String}
      → check_dispatch g s r a now capacity existing ≡ ok out
      → (s.recovery_required ≡ false)
        × (s.semantic_review_required ≡ false)
        × (a.request_digest ≡ request_digest g.contracts r)
        × (r.control_epoch ≡ s.control_epoch)
        × (a.control_epoch ≡ s.control_epoch)
        × (check_approval_time g r a now ≡ ok tt)
        × (check_governor g s.policy r now ≡ ok tt)
        × (check_reservation s r (request_digest g.contracts r) existing ≡ ok tt)
        × (check_resources g s r existing capacity now ≡ ok tt)
        × (out ≡ (reservation_of r, request_digest g.contracts r))
  unfolding check_dispatch
  check_dispatch_inv s r a now capacity existing h =
      ground (arith, eq_iff a.request_digest (request_digest g.contracts r))

  -- A reservation is made only where no attempt has one, and no attempt of this name was ever.
  check_reservation_inv :
      (s : State) (r : Request) (d : String)
      → check_reservation s r d false ≡ ok tt
      → (lookup r.attempt_id s.attempts ≡ none) × (s.reservation ≡ none) × (pending s.attempts ≡ [])
  unfolding check_reservation none_pending is_none
  check_reservation_inv s r d h = ground arith

  -- What the gate lets through is what the reducer takes: with the recorded request and approval, a
  -- dispatch that passes without a reservation has its attempt prepared by the transition PREPARED
  -- without a metering record, which names the reservation and the digest that the gate returns.
  pub check_dispatch-prepares :
      (s : State) (e : Entry) (now : ℕ) (capacity : Capacity) (epoch : ℕ) {r : Reservation}
      {d : String}
      → lookup e.request.attempt_id s.approvals ≡ some e
      → check_dispatch g s e.request e.approval now capacity false ≡ ok (r, d)
      → apply g.contracts s epoch (attempt_prepared e.request.attempt_id d r none)
        ≡ ok (prepared_state s e.request.attempt_id d r none)
  unfolding apply approved_entry prepare_attempt metering_binding is_none reservation_of
  check_dispatch-prepares s e now capacity epoch found h =
      let (calm, _, named, of_request, of_approval, _, _, free, _, same) =
        check_dispatch_inv s e.request e.approval now capacity false h in
      let (fresh, unreserved, _) =
        check_reservation_inv s e.request (request_digest g.contracts e.request) free in
      ground (
        arith,
        found,
        calm,
        named,
        of_request,
        of_approval,
        fresh,
        unreserved,
        same,
        eq_iff (request_digest g.contracts e.request) e.approval.request_digest,
        eq_refl e.approval.request_digest,
      )

  pending-insert :
      (id : String) (a : Attempt) (d : Dict Attempt)
      → lookup id d ≡ none
      → incomplete a ≡ true
      → pending d ≡ []
      → pending (insert id a d) ≡ (id, a) ∷ []
  unfolding pending lookup insert
  pending-insert id a [] h k done = rw k
  pending-insert id a ((j, b) ∷ d) h k done = ground (arith, pending-insert id a d)

  -- After a dispatch that passes as a new one, in the state with its attempt prepared, the test of the
  -- reservation knows the attempt as its owner, and no request passes as a new one.
  pub check_dispatch-owned :
      (s : State) (e : Entry) (now : ℕ) (capacity : Capacity) {r : Reservation} {d : String}
      → check_dispatch g s e.request e.approval now capacity false ≡ ok (r, d)
      → let s' = prepared_state s e.request.attempt_id d r none in
        (check_reservation s' e.request d true ≡ ok tt)
        × ((q : Request) (p : Approval) (later : ℕ) (room : Capacity) (out : Reservation × String)
            → check_dispatch g s' q p later room false ≢ ok out)
  unfolding check_reservation owned only_pending is_none same_reservation incomplete
  check_dispatch-owned s e now capacity {r} {d} h =
      let (_, _, _, _, _, _, _, free, _, same) =
        check_dispatch_inv s e.request e.approval now capacity false h in
      let (fresh, unreserved, idle) =
        check_reservation_inv s e.request (request_digest g.contracts e.request) free in
      let alone =
        pending-insert e.request.attempt_id (new_attempt d none) s.attempts fresh refl idle in
      (
        ground (arith, same, alone, eq_refl e.request.attempt_id, eq_refl d),
        λ q p later room out k.
            let (_, _, _, _, _, _, _, free', _, _) = check_dispatch_inv _ q p later room false k in
            let (_, occupied, _) =
              check_reservation_inv (prepared_state s e.request.attempt_id d r none) q
                (request_digest g.contracts q) free' in
            cc,
      )

  -- A dispatch passes at a safe time only while its approval is valid and has the time limit of one
  -- command left, and only beside the locks of the policy: with the paths as the platform compares them,
  -- each lock of the project is unlocked or overlaps nothing of the request's scope.
  pub check_dispatch-Passes :
      (s : State) (r : Request) (a : Approval) (now : ℕ) (capacity : Capacity) (existing : Bool)
      {out : Reservation × String}
      → now ≤ max_safe
      → check_dispatch g s r a now capacity existing ≡ ok out
      → (a.issued_at ≤ now)
        × (now + g.timeout_ms r ≤ a.expires_at)
        × ((locks : List Lock) × (wanted : Scope) × (requested : Scope) × (traverse
                (lock_for_platform g)
                (g.governor_locks s.policy)
              ≡ ok locks)
            × (scope_for_platform g (g.request_scope r) ≡ ok wanted)
            × (scope wanted ≡ ok requested)
            × All (Passes r.project.project_id requested (governor_time now)) locks)
  unfolding check_governor
  check_dispatch-Passes s r a now capacity existing safe h =
      let (_, _, _, _, _, on_time, beside, _, _, _) =
        check_dispatch_inv s r a now capacity existing h in
      let (issued, _, lasting) = (check_approval_time-window r a now safe).0 on_time in
      let old : Bool =
        all
          (λ l. leb l.issued_at (governor_time now) && leb l.last_heartbeat_at (governor_time now))
          (g.governor_locks s.policy) in
      let (_, _, h1) = >>=-eq-ok (check old clock_rollback) _ beside in
      let (locks, read, h2) =
        >>=-eq-ok (traverse (lock_for_platform g) (g.governor_locks s.policy)) _ h1 in
      let (wanted, asked, h3) = >>=-eq-ok (scope_for_platform g (g.request_scope r)) _ h2 in
      let ((allowed, blocked), gate, h4) =
        >>=-eq-ok
          (rethrow governor_reason
            (writer_gate locks r.project.project_id wanted (governor_time now)))
          _ h3 in
      let open_gate : writer_gate locks r.project.project_id wanted (governor_time now)
          ≡ ok (true, blocked) =
        ground arith in
      let (requested, normal, free) =
        writer_gate-All locks r.project.project_id wanted (governor_time now) open_gate in
      (issued, lasting, (locks, wanted, requested, read, asked, normal, free))
