-- ===== src/Store/Valid.antt =====
-- The reducer's invariant in the store: the state that a journal reads as, and the state of a session.
use eoduksini.Store.Append.Roundtrip.{Faithful}
use eoduksini.Store.Append.Accepted.{append_accepted}
use eoduksini.Store.Append.{advance}
use eoduksini.Store.Append.Fence.{stay, Run, accept}
use eoduksini.Controller.Reduce.Replay.{reduce-IsValid}
use eoduksini.Store.Read.Lines.{read_line_inv, read_content_inv}
use eoduksini.Controller.Reduce.Valid.{OptionValid, IsValid}
use eoduksini.Store.Read.{Position, read_line, read_lines, read_content, start_position}
use eoduksini.Store.{Runtime, Meta, Session, Disk}
use eoduksini.Controller.Types.{Payload}
use eoduksini.Controller.Contracts.{Contracts}
use eoduksini.Base.Result.{ok, ok-injective, >>=-eq-ok}
use mathlib.Core.Path.{subst}
use eoduksini.Base.{ℕ, List, some, ◌≡◌, [], ◌∷◌, sym}

module _ (c : Contracts) (rt : Runtime) where
  read_line-Valid :
      (p : Position) (line : List ℕ) {q : Position}
      → OptionValid p.state
      → read_line c rt p line ≡ ok q
      → OptionValid q.state
  read_line-Valid p line v h =
      let (e, s, _, reduced, _, same) = read_line_inv c rt p line h in
      rw same (reduce-IsValid c p.state e v reduced)

  read_lines-Valid :
      (p : Position) (lines : List (List ℕ)) {q : Position}
      → OptionValid p.state
      → read_lines c rt p lines ≡ ok q
      → OptionValid q.state
  unfolding read_lines
  read_lines-Valid p [] v h = subst (λ q. OptionValid q.state) (ok-injective h) v
  read_lines-Valid p (line ∷ lines) v h =
      let (q, first, rest) = >>=-eq-ok (read_line c rt p line) _ h in
      read_lines-Valid q lines (read_line-Valid p line v first) rest

  -- The state that a journal reads as is valid.
  pub read_content-IsValid :
      (text : List ℕ) {m : Meta} → read_content c rt text ≡ ok m → IsValid m.state
  read_content-IsValid text h =
      let (_, _, read) = read_content_inv c rt text h in read_lines-Valid start_position _ tt read

  Run-keeps :
      (ps : List Payload) {s t : Session}
      → IsValid s.meta.state
      → Run c rt s ps t
      → IsValid t.meta.state
  unfolding advance
  Run-keeps [] v stay = v
  Run-keeps (p ∷ ps) {s = s} v (accept seen now fault _ next h rest) =
      let (e, _, _, _, _, _, reduced, _, same) = append_accepted c rt seen now fault s p h in
      let valid = reduce-IsValid c (some s.meta.state) e v reduced in
      Run-keeps ps (subst (λ a. IsValid a.session.meta.state) (sym same) valid) rest

  -- A session whose `meta` is what its journal reads as has a valid state, by the reducer's invariant,
  -- and whatever events it has accepted, its state is valid.
  pub Run-IsValid :
      (ps : List Payload) (disk : Disk) {s t : Session}
      → Faithful c rt disk s
      → Run c rt s ps t
      → IsValid t.meta.state
  Run-IsValid ps disk (file, _, reads) run =
      Run-keeps ps (read_content-IsValid file.content reads) run
