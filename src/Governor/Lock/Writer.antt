-- ===== src/Governor/Lock/Writer.antt =====
-- A writer that the gate lets through.
use eoduksini.Base.Text.{matches_id}
use eoduksini.Base.{
  ◌≡◌, String, ℕ, List, ◌∷◌, [], true, arith, eq_iff, ◌⊎◌, none, some, Option, refl, ◌&&◌, ◌∙◌, ap,
  leb,
}
use eoduksini.Base.Result.{ok, >>=-eq-ok, ok-injective, check}
use eoduksini.Governor.Scope.{Scope, scope, scope_overlap, invalid_writer_request}
use eoduksini.Governor.Lock.{
  Lock, lock_state, is_unlocked, blocked_by, last_time, blocking, writer_gate, Blocked,
  state_is_unlocked, add,
}
use eoduksini.Base.Lists.{All}

-- A lock that does not stop a writer of this scope.
abbrev pub Passes : (project_id : String) → Scope → (now : ℕ) → Lock → Type 0
Passes project requested now l =
    l.project_id ≡ project
    → (lock_state l now ≡ ok is_unlocked) ⊎ (scope_overlap l.scope requested ≡ ok [])

add-empty : (o : Option Blocked) (l : List Blocked) → add o l ≡ [] → (o ≡ none) × (l ≡ [])
unfolding add
add-empty none l h = (refl, h)
add-empty (some b) l h = cc

blocked_by-Passes :
    (project : String) (requested : Scope) (now : ℕ) (l : Lock)
    → blocked_by project requested now l ≡ ok none
    → Passes project requested now l
unfolding blocked_by state_is_unlocked
blocked_by-Passes project requested now l h same = ground (arith, eq_iff l.project_id project)

blocking-All :
    (project : String) (requested : Scope) (now : ℕ) (ls : List Lock)
    → blocking project requested now ls ≡ ok []
    → All (Passes project requested now) ls
unfolding blocking add
blocking-All project requested now [] h = tt
blocking-All project requested now (l ∷ ls) h =
    let (here, first, h) = >>=-eq-ok (blocked_by project requested now l) _ h in
    let (rest, others, h) = >>=-eq-ok (blocking project requested now ls) _ h in
    let (passes, clear) = add-empty here rest (ok-injective h) in
    (
      blocked_by-Passes project requested now l (first ∙ ap ok passes),
      blocking-All project requested now ls (others ∙ ap ok clear),
    )

-- A writer passes only if each lock of its project is unlocked or overlaps nothing of its scope.
pub writer_gate-All :
    (locks : List Lock) (project : String) (wanted : Scope) (now : ℕ) {blocked : List Blocked}
    → writer_gate locks project wanted now ≡ ok (true, blocked)
    → (requested : Scope) × (scope wanted ≡ ok requested) × All (Passes project requested now) locks
unfolding writer_gate
writer_gate-All locks project wanted now h =
    let (requested, read, h) = >>=-eq-ok (scope wanted) _ h in
    let asked = matches_id project && leb now last_time in
    let (_, _, h) = >>=-eq-ok (check asked invalid_writer_request) _ h in
    let (found, blocking_found, h) = >>=-eq-ok (blocking project requested now locks) _ h in
    let none_found : (found ≡ []) = ground arith in
    (requested, read, blocking-All project requested now locks (blocking_found ∙ ap ok none_found))
