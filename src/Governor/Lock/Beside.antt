-- ===== src/Governor/Lock/Beside.antt =====
-- A lock is issued beside the active locks, never over them.
use eoduksini.Base.Result.{ok, >>=-eq-ok}
use eoduksini.Governor.Scope.{Scope, scope_overlap}
use eoduksini.Base.Lists.{All}
use eoduksini.Base.{
  ◌≡◌, String, List, ◌∷◌, ◌≢◌, includes, arith, Bool-cases, true, [], str_eq, eq_iff, inl, inr,
}
use eoduksini.Governor.Lock.{
  Lock, lock_state, Issue, Digests, issue_lock, is_locked, free_of, scope_free, unlocked,
}

-- A lock that a new one may stand beside.
abbrev pub Beside : (lock_id project_id : String) → Scope → Lock → Type 0
Beside id project requested l =
    (l.lock_id ≢ id)
    × ((l.project_id ≡ project) → l.status ≢ unlocked → scope_overlap l.scope requested ≡ ok [])

scope_free-Beside :
    (i : Issue) (requested : Scope) (l : Lock)
    → scope_free i requested l ≡ ok tt
    → l.project_id ≡ i.project_id
    → l.status ≢ unlocked
    → scope_overlap l.scope requested ≡ ok []
unfolding scope_free
scope_free-Beside i requested l h same held = ground (arith, eq_iff l.project_id i.project_id)

free_of-All :
    (i : Issue) (requested : Scope) (ls : List Lock)
    → free_of i requested ls ≡ ok tt
    → All (Beside i.lock_id i.project_id requested) ls
unfolding free_of
free_of-All i requested [] h = tt
free_of-All i requested (l ∷ ls) h = elim (Bool-cases (str_eq l.lock_id i.lock_id)) [
  | inl reused ↦ ground arith
  | inr other ↦
      let (_, here, rest) = >>=-eq-ok (scope_free i requested l) _ (rw other at h) in
      (
        (ground (arith, eq_iff l.lock_id i.lock_id), scope_free-Beside i requested l here),
        free_of-All i requested ls rest,
      )
]

issue_lock_inv :
    (g : Digests) (i : Issue) {l : Lock}
    → issue_lock g i ≡ ok l
    → (free_of i l.scope i.active_locks ≡ ok tt)
      × (l.lock_id ≡ i.lock_id)
      × (l.project_id ≡ i.project_id)
unfolding issue_lock
issue_lock_inv g i h = ground arith

-- A lock is issued only beside locks of other names, and beside the locks of its project that are not
-- unlocked only where no scope overlaps; it is live from the start, for an approved provider.
pub issue_lock-Beside :
    (g : Digests) (i : Issue) {l : Lock}
    → issue_lock g i ≡ ok l
    → All (Beside l.lock_id l.project_id l.scope) i.active_locks
      × (lock_state l i.now ≡ ok is_locked)
      × (includes i.approved_providers l.provider_binding ≡ true)
unfolding issue_lock lock_state
issue_lock-Beside g i {l} h =
    let (free, same_id, same_project) = issue_lock_inv g i h in
    (
      rw (same_id, same_project) (free_of-All i l.scope i.active_locks free),
      ground arith,
      ground arith,
    )
