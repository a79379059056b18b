-- ===== src/Store/Append/Roundtrip.antt =====
-- What `append` writes, `readStore` reads (core/controller/store.mjs).
use eoduksini.Store.Read.Lines.{read_content-line}
use eoduksini.Controller.Reduce.{reduce}
use eoduksini.Base.Text.{byte_length}
use eoduksini.Base.Path.{has_code}
use eoduksini.Store.Encode.{make_event, line_of}
use eoduksini.Base.Result.{ok, ok-injective}
use eoduksini.Controller.Event.{max_event_bytes}
use eoduksini.Store.Read.{read_content}
use eoduksini.Controller.Types.{Payload, Event, State}
use eoduksini.Store.{Session, Runtime, Disk, File, max_journal_bytes, newline}
use eoduksini.Controller.Contracts.{Contracts}
use eoduksini.Store.Append.{fits, append, advance, with_content}
use eoduksini.Store.Append.Accepted.{
  text_of, append_accepted, make_event_inv, may_write_inv, line_of-length, text_of-size,
}
use mathlib.Core.Path.{subst}
use eoduksini.Base.{
  ℕ, some, Option, ◌+◌, true, false, ◌≡◌, [], ◌∷◌, refl, arith, ◌≤◌, sym, ◌∙◌, ◌++◌, append_assoc,
}

fits_inv :
    (s : Session) (p : Payload) (size : ℕ)
    → fits s p size ≡ true
    → (size ≤ max_event_bytes) × (s.meta.bytes + size ≤ max_journal_bytes)
unfolding fits
fits_inv s p size h = ground arith

module _ (c : Contracts) (rt : Runtime) where
  -- The journal reads as the session's `meta`.
  abbrev pub Faithful : Disk → Session → Type 0
  Faithful disk s =
      (file : File) × (disk.journal ≡ some file) × (read_content c rt file.content ≡ ok s.meta)

  -- The journal with the event's line reads as the session's next `meta`.
  accepted-reads :
      (s : Session) (file : File) (e : Event) (next : State)
      → read_content c rt file.content ≡ ok s.meta
      → byte_length file.content ≡ s.meta.bytes
      → fits s e.payload (byte_length (text_of c e)) ≡ true
      → e.seq ≡ s.meta.seq + 1
      → e.prev_digest ≡ some s.meta.last_digest
      → rt.parse (line_of c e) ≡ some e
      → has_code newline (line_of c e) ≡ false
      → reduce c (some s.meta.state) e ≡ ok next
      → read_content c rt (file.content ++ text_of c e)
        ≡ ok (advance s e next (byte_length (text_of c e))).meta
  unfolding advance
  accepted-reads s file e next reads size room seq chain parsed clean reduced =
      let (small, whole) = fits_inv s e.payload (byte_length (text_of c e)) room in
      let bytes : byte_length file.content + byte_length (line_of c e) + 1
          ≡ s.meta.bytes + byte_length (text_of c e) =
        omega (arith, size, text_of-size c e) in
      let read =
        read_content-line c rt file.content (line_of c e) e next reads parsed clean
          (line_of-length c e) (omega (arith, small, text_of-size c e))
          (omega (arith, whole, bytes)) seq chain reduced in
      rw (← append_assoc file.content (line_of c e) (newline ∷ []), ← bytes) read

  -- A session whose `meta` is what its journal reads as stays so with every accepted `append`, given
  -- that `JSON.parse` gives back the event that the line was written from, and that the line has no
  -- newline in it: after the call the journal reads as the session's new `meta`, whose state is the
  -- one that the call returned.
  pub append-Faithful :
      (seen now : Disk) (fault : Option ℕ) (s : Session) (p : Payload) (e : Event) {next : State}
      → Faithful now s
      → make_event c rt (some s.meta.state) s.meta.seq (some s.meta.last_digest) p ≡ ok e
      → rt.parse (line_of c e) ≡ some e
      → has_code newline (line_of c e) ≡ false
      → (append c rt seen now fault s p).result ≡ ok next
      → Faithful (append c rt seen now fault s p).disk (append c rt seen now fault s p).session
        × ((append c rt seen now fault s p).session.meta.state ≡ next)
  unfolding advance with_content
  append-Faithful seen now fault s p e {next = next} (file, at, reads) made parsed clean h =
      let (e', file', _, _, made', _, reduced, may, same) =
        append_accepted c rt seen now fault s p h in
      let is_made : e' ≡ e = ok-injective (sym made' ∙ made) in
      let (seq, chain, _, _, _, _) =
        make_event_inv c rt (some s.meta.state) s.meta.seq (some s.meta.last_digest) p made in
      let (at', room, size, _, _) = may_write_inv s now e'.payload (text_of c e') may in
      let is_file : file' ≡ file = cc in
      let read =
        accepted-reads s file e next reads (rw (← is_file) size) (rw (← is_made) room) seq chain
          parsed clean (rw (← is_made) reduced) in
      subst (λ a. Faithful a.disk a.session × (a.session.meta.state ≡ next)) (sym same)
        (
          (
            record file' { content = file'.content ++ text_of c e' },
            refl,
            rw (is_file, is_made) read,
          ),
          refl,
        )
