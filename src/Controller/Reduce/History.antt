-- ===== src/Controller/Reduce/History.antt =====
-- The journal only adds: no approval is changed or withdrawn, no attempt is forgotten, no result is
-- taken back, and an attempt that ended stays as it ended.
use eoduksini.Controller.PostRun.{event_attempt, with_metering}
use eoduksini.Controller.PostRun.Inversion.{record_post_run_inv}
use eoduksini.Controller.Reduce.Recover.{recover_inv}
use eoduksini.Controller.Reduce.Replay.{step-IsValid}
use eoduksini.Controller.Reduce.Inversion.{
  reduce_inv, step_inv, record_approval_inv, record_assessment_inv, prepare_attempt_inv,
  update_attempt_inv, on_attempt_inv, finish_attempt_inv,
}
use eoduksini.Base.Json.{text_le, Value}
use eoduksini.Base.Keys.{any-sort_by, includes-kept_keys}
use eoduksini.Controller.Reduce.Valid.{IsValid}
use eoduksini.Base.Result.{ok, ok-injective, >>=-eq-ok}
use eoduksini.Controller.Types.{
  Attempt, CommandResult, ended, State, recovery_required, Outcome, Event, Payload, init, approved,
  Measurement, semantic_assessed, recovered, post_run, attempt_prepared, command_prepared,
  command_started, command_finished, finished, succeeded, failed,
}
use eoduksini.Controller.Dispatch.{
  incomplete, finish_attempt_metering, end_attempt, prepare_command, start_command, finish_command,
  finished_state, approved_entry, new_attempt,
}
use eoduksini.Base.Dict.{
  Dict, lookup, insert, lookup-insert_old, lookup-insert, lookup-insert_cases,
}
use mathlib.Core.List.{append-nil, append_assoc}
use eoduksini.Base.{
  ◌≡◌, false, ◌∙◌, [], String, List, sym, ◌++◌, none, some, includes, true, Bool-cases, str_eq, inl,
  arith, eq_iff, inr, ◌∷◌, Option-cases, ap, refl, ℕ, Option,
}
use eoduksini.Controller.Contracts.{Contracts}
use eoduksini.Controller.Reduce.{apply, step, reduce, replay, recover_attempts, pending}

-- `a'` is a later point in the life of `a`.
pub record Extends (a a' : Attempt) : Type 0 where
  pub same_request : a'.request_digest ≡ a.request_digest
  pub more : List CommandResult
  pub results : a'.command_results ≡ a.command_results ++ more
  pub final : incomplete a ≡ false → (a'.status ≡ a.status) × (more ≡ [])

Extends-refl : (a : Attempt) → Extends a a
Extends-refl a = record {
  same_request = refl;
  more = [];
  results = sym (append-nil _);
  final = λ h. (refl, refl);
}

-- A later point that keeps the results; it is of an incomplete attempt or keeps the status.
Extends-of_same :
    (a a' : Attempt)
    → a'.request_digest ≡ a.request_digest
    → a'.command_results ≡ a.command_results
    → (incomplete a ≡ false → a'.status ≡ a.status)
    → Extends a a'
Extends-of_same a a' d r f = record {
  same_request = d;
  more = [];
  results = r ∙ sym (append-nil _);
  final = λ h. (f h, refl);
}

incomplete_of_status : (a b : Attempt) → a.status ≡ b.status → incomplete a ≡ incomplete b
unfolding incomplete
incomplete_of_status a b h = rw h

Extends-trans : {a b d : Attempt} → Extends a b → Extends b d → Extends a d
Extends-trans {a} {b} {d} x y = record {
  same_request = y.same_request ∙ x.same_request;
  more = x.more ++ y.more;
  results = rw (y.results, x.results) (append_assoc a.command_results x.more y.more);
  final = λ h.
      let (s, m) = x.final h in
      let (s', m') = y.final (incomplete_of_status b a s ∙ h) in (s' ∙ s, rw (m, m'));
}

-- The later point of one state's attempts in another's.
abbrev Kept : Dict Attempt → Dict Attempt → Type 0
Kept d d' =
    (j : String) (b : Attempt)
    → lookup j d ≡ some b
    → (b' : Attempt) × (lookup j d' ≡ some b') × Extends b b'

Kept-insert :
    (d : Dict Attempt) (id : String) (a a' : Attempt)
    → lookup id d ≡ some a
    → Extends a a'
    → Kept d (insert id a' d)
Kept-insert d id a a' found x j b h = elim (Bool-cases (str_eq id j)) [
  | inl same ↦ (
    a',
    ground (arith, lookup-insert id j a' d),
    let e : a ≡ b = ground (arith, eq_iff id j) in rw (← e) x,
  )
  | inr other ↦ (b, ground (arith, lookup-insert id j a' d), Extends-refl b)
]

Kept-insert_new :
    (d : Dict Attempt) (id : String) (a' : Attempt) → lookup id d ≡ none → Kept d (insert id a' d)
Kept-insert_new d id a' fresh j b h = (b, lookup-insert_old id j a' d fresh h, Extends-refl b)

Kept-trans : (d d' d'' : Dict Attempt) → Kept d d' → Kept d' d'' → Kept d d''
Kept-trans d d' d'' p q j b h =
    let (b', h', x) = p j b h in let (b'', h'', y) = q j b' h' in (b'', h'', Extends-trans x y)

Kept-of_same : (d d' : Dict Attempt) → d' ≡ d → Kept d d'
Kept-of_same d d' e j b h = (b, rw e h, Extends-refl b)

-- A recovery may end such an attempt.
abbrev Recoverable : Attempt → Type 0
Recoverable a = incomplete a ≡ false → a.status ≡ ended recovery_required

module _ (c : Contracts) where
  recover_attempts-Kept :
      (reason : String) (ids : List String) (d : Dict Attempt) {d' : Dict Attempt}
      → recover_attempts c reason ids d ≡ ok d'
      → ((id : String) (a : Attempt)
          → lookup id d ≡ some a
          → includes ids id ≡ true
          → Recoverable a)
      → Kept d d'
  unfolding recover_attempts
  recover_attempts-Kept reason [] d h live = Kept-of_same d _ (sym (ok-injective h))
  recover_attempts-Kept reason (id ∷ ids) d {d'} h live = elim (Option-cases (lookup id d)) [
    | inl missing ↦ cc (rw (missing, recover_attempts) at h)
    | inr (a, found) ↦
        let (m, _, h') =
          >>=-eq-ok (finish_attempt_metering c a recovery_required) _
            (rw (found, recover_attempts) at h) in
        let a' = end_attempt a recovery_required reason m in
        let x : Extends a a' =
          Extends-of_same a a' refl refl
            (λ done. sym (live id a found (ground (arith, eq_iff id id)) done)) in
        Kept-trans d (insert id a' d) d' (Kept-insert d id a a' found x) (
          recover_attempts-Kept reason ids (insert id a' d) h' (λ j b hb among.
            elim (lookup-insert_cases id j a' b d hb) [
              | inl (_, same) ↦ λ _. sym (ap (λ r. r.status) same)
              | inr (_, old) ↦ live j b old (ground arith)
            ]))
  ]

  pub pending-live :
      (s : State) (id : String) (a : Attempt)
      → IsValid s
      → lookup id s.attempts ≡ some a
      → includes (pending c s) id ≡ incomplete a
  unfolding pending
  pending-live s id a v found =
      any-sort_by (str_eq id) text_le _
      ∙ includes-kept_keys (λ (_, a). incomplete a) id s.attempts a v.unique found

  prepare_command-same :
      (count : ℕ) (a : Attempt) (i : ℕ) {a' : Attempt}
      → prepare_command count a i ≡ ok a'
      → (a'.request_digest ≡ a.request_digest) × (a'.command_results ≡ a.command_results)
  unfolding prepare_command
  prepare_command-same count a i h = ground arith

  start_command-same :
      (a : Attempt) (i : ℕ) (m : Option Measurement) {a' : Attempt}
      → start_command c a i m ≡ ok a'
      → (a'.request_digest ≡ a.request_digest) × (a'.command_results ≡ a.command_results)
  unfolding start_command
  start_command-same a i m h = ground arith

  finish_command-more :
      (a : Attempt) (i : ℕ) (r : CommandResult) (m : Option Measurement) (l : Option (List Value))
      {a' : Attempt}
      → finish_command c a i r m l ≡ ok a'
      → (a'.request_digest ≡ a.request_digest) × (a'.command_results ≡ a.command_results ++ r ∷ [])
  unfolding finish_command
  finish_command-more a i r m l h = ground arith

  finished-Kept :
      (s : State) (id : String) (a a' : Attempt) (o : Outcome)
      → Kept s.attempts (insert id a' s.attempts)
      → Kept s.attempts (finished_state s id a' o).attempts
  finished-Kept s id a a' succeeded k = k
  finished-Kept s id a a' failed k = k
  finished-Kept s id a a' recovery_required k = k

  apply-Kept :
      (p : Payload) (s : State) (epoch : ℕ) {s' : State}
      → IsValid s
      → apply c s epoch p ≡ ok s'
      → Kept s.attempts s'.attempts
  unfolding apply
  apply-Kept (init _ _ _ _) s epoch v h = cc
  apply-Kept (approved r p a) s epoch v h =
      Kept-of_same s.attempts _ (record_approval_inv c s epoch r p a h).1
  apply-Kept (semantic_assessed r at a) s epoch v h =
      Kept-of_same s.attempts _ (record_assessment_inv c s epoch r at a h).0
  apply-Kept (recovered ids reason) s epoch v h =
      let (d, done, _, same) = recover_inv c s epoch ids reason h in
      rw same (
        recover_attempts-Kept reason (pending c s) s.attempts done
          (λ id a found among ended. cc (pending-live s id a v found)))
  apply-Kept (post_run e) s epoch v h =
      let (a, m, found, done, same) = record_post_run_inv c s e h in
      rw same (
        Kept-insert s.attempts (event_attempt e) a (with_metering a m) found
          (Extends-of_same a (with_metering a m) refl refl (λ _. refl)))
  apply-Kept (attempt_prepared id d r m) s epoch v h =
      let (e, found, h') = >>=-eq-ok (approved_entry s id) _ h in
      let (_, _, _, _, fresh, same) = prepare_attempt_inv c s e id d r m h' in
      rw same (Kept-insert_new s.attempts id (new_attempt d m) fresh)
  apply-Kept (command_prepared id i) s epoch v h =
      let (e, a, a', _, found, was, _, done, same) = update_attempt_inv c s id _ h in
      let (d, r) = prepare_command-same _ a i done in
      rw same (Kept-insert s.attempts id a a' found (Extends-of_same a a' d r (λ k. cc)))
  apply-Kept (command_started id i pid m) s epoch v h =
      let (e, a, a', _, found, was, _, done, same) = update_attempt_inv c s id _ h in
      let (d, r) = start_command-same a i m done in
      rw same (Kept-insert s.attempts id a a' found (Extends-of_same a a' d r (λ k. cc)))
  apply-Kept (command_finished id i result m l) s epoch v h =
      let (e, a, a', _, found, was, _, done, same) = update_attempt_inv c s id _ h in
      let (d, r) = finish_command-more a i result m l done in
      rw same (
        Kept-insert s.attempts id a a' found
          (record { same_request = d; more = result ∷ []; results = r; final = λ k. cc }))
  apply-Kept (finished id o reason) s epoch v h =
      let (e, a, _, found, was, _, _, h') = on_attempt_inv c s id _ h in
      let (m, _, same) = finish_attempt_inv c s id _ a o reason h' in
      let a' = end_attempt a o reason m in
      rw same (
        finished-Kept s id a a' o
          (Kept-insert s.attempts id a a' found (Extends-of_same a a' refl refl (λ k. cc))))

  step-Kept :
      (s : State) (e : Event) {s' : State}
      → IsValid s
      → step c s e ≡ ok s'
      → Kept s.attempts s'.attempts
  step-Kept s e v h = apply-Kept e.payload s e.control_epoch v (step_inv c s e h).1

  replayed-Kept :
      (s : State) (events : List Event) {s' : State}
      → IsValid s
      → replay c (some s) events ≡ ok (some s')
      → Kept s.attempts s'.attempts
  unfolding replay
  replayed-Kept s [] v h = Kept-of_same s.attempts _ cc
  replayed-Kept s (e ∷ es) {s'} v h =
      let (t, done, h') = >>=-eq-ok (reduce c (some s) e) _ h in
      let stepped = reduce_inv c (some s) e done in
      Kept-trans s.attempts t.attempts s'.attempts (step-Kept s e v stepped)
        (replayed-Kept t es (step-IsValid c s e v stepped) h')

  -- From a valid state, however the journal goes on: an attempt that is there stays, for the same
  -- request; its results are only added to; once it has ended, its status and results are final.
  pub replay-Extends :
      (s : State) (events : List Event) {s' : State} (id : String) (a : Attempt)
      → IsValid s
      → replay c (some s) events ≡ ok (some s')
      → lookup id s.attempts ≡ some a
      → (a' : Attempt) × (lookup id s'.attempts ≡ some a') × Extends a a'
  replay-Extends s events id a v h found = replayed-Kept s events v h id a found
