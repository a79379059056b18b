-- ===== src/Store/Append/Room.antt =====
-- The limits on the journal's size (core/controller/store.mjs).
use eoduksini.Base.Text.{byte_length, byte_length-append}
use eoduksini.Store.Append.Accepted.{
  append_accepted, make_event_inv, may_write_inv, text_of, text_of-size,
}
use eoduksini.Base.Result.{ok}
use eoduksini.Controller.Event.{is_none, max_event_bytes}
use eoduksini.Controller.Types.{Payload, State}
use eoduksini.Store.{Session, Runtime, Disk, max_journal_bytes, headroom, File}
use eoduksini.Controller.Contracts.{Contracts}
use eoduksini.Store.Append.{fits, advance, prepared_attempt, append, with_content}
use eoduksini.Base.{ℕ, some, Option, ◌+◌, true, false, ◌≡◌, arith, ◌≤◌, ◌<◌, ap, List, ◌++◌}

fits-bounds :
    (s : Session) (p : Payload) (size : ℕ)
    → fits s p size ≡ true
    → (size ≤ max_event_bytes)
      × (s.meta.bytes + size ≤ max_journal_bytes)
      × (is_none (prepared_attempt p) ≡ false → s.meta.bytes + size + headroom ≤ max_journal_bytes)
unfolding fits
fits-bounds s p size h = ground arith

fits-small :
    (s : Session) (p : Payload) (size : ℕ)
    → is_none (prepared_attempt p) ≡ true
    → size ≤ headroom
    → s.meta.bytes + headroom ≤ max_journal_bytes
    → fits s p size ≡ true
unfolding fits
fits-small s p size h small room = ground arith

module _ (c : Contracts) (rt : Runtime) where
  -- An accepted event adds to the journal's file a text that is not empty and at most 256 KiB long, and
  -- nothing else; the file then has the length that the session has for it, at most 16 MiB.
  pub append-room :
      (seen now : Disk) (fault : Option ℕ) (s : Session) (p : Payload) {next : State}
      → (append c rt seen now fault s p).result ≡ ok next
      → (file : File) × (text : List ℕ) × (now.journal ≡ some file)
        × ((append c rt seen now fault s p).disk
            ≡ record now { journal = some (record file { content = file.content ++ text }) })
        × (byte_length file.content ≡ s.meta.bytes)
        × (0 < byte_length text)
        × (byte_length text ≤ max_event_bytes)
        × (byte_length (file.content ++ text) ≡ (append c rt seen now fault s p).session.meta.bytes)
        × (byte_length (file.content ++ text) ≤ max_journal_bytes)
        × (fits s p (byte_length text) ≡ true)
  unfolding advance with_content
  append-room seen now fault s p h =
      let (e, file, _, _, made, _, _, may, same) = append_accepted c rt seen now fault s p h in
      let (_, _, payload, _, _, _) =
        make_event_inv c rt (some s.meta.state) s.meta.seq (some s.meta.last_digest) p made in
      let (there, room, known, _, _) = may_write_inv s now e.payload (text_of c e) may in
      let (small, whole, _) = fits-bounds s e.payload (byte_length (text_of c e)) room in
      let grown = ap (λ a. a.session.meta.bytes) same in
      let joined = byte_length-append file.content (text_of c e) in
      (
        file,
        text_of c e,
        there,
        ap (λ a. a.disk) same,
        known,
        omega (arith, text_of-size c e),
        small,
        omega (arith, joined, known, grown),
        omega (arith, joined, known, whole),
        rw (← payload) room,
      )

  -- Behind an accepted PREPARED the session has room: an event of another type whose line is at most
  -- 64 KiB long is within its limits.
  pub prepared-room :
      (seen now : Disk) (fault : Option ℕ) (s : Session) (p q : Payload) (size : ℕ) {next : State}
      → (append c rt seen now fault s p).result ≡ ok next
      → is_none (prepared_attempt p) ≡ false
      → is_none (prepared_attempt q) ≡ true
      → size ≤ headroom
      → fits (append c rt seen now fault s p).session q size ≡ true
  prepared-room seen now fault s p q size h first other short =
      let (file, text, _, _, known, _, _, grown, _, room) = append-room seen now fault s p h in
      let (_, _, spare) = fits-bounds s p (byte_length text) room in
      fits-small (append c rt seen now fault s p).session q size other short
        (omega (arith, grown, spare first, known, byte_length-append file.content text))
