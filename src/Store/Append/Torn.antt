-- ===== src/Store/Append/Torn.antt =====
-- A write that fails in the middle of a line (core/controller/store.mjs): what `readStore` makes of it.
use eoduksini.Store.Append.Accepted.{text_of, next_event_inv}
use eoduksini.Store.Append.{
  append, write_event, may_write, unchanged_journal, with_content, next_event,
}
use eoduksini.Store.Encode.{make_event, line_of}
use eoduksini.Base.Result.{err, ok, Result-cases, ok-injective}
use eoduksini.Controller.Types.{Payload, Event, State}
use eoduksini.Base.Path.{has_code}
use eoduksini.Store.{Runtime, Disk, Session, newline, journal_corrupt, journal_write_failed, File}
use eoduksini.Store.Read.{ends_with_newline, read_content}
use eoduksini.Controller.Contracts.{Contracts}
use eoduksini.Base.{
  ℕ, List, some, Option, false, ◌≡◌, [], ◌∷◌, refl, arith, ◌<◌, ◌≤◌, length, ◌≢◌, take, ◌++◌, suc,
  zero, inl, inr, sym, ◌∙◌, ap,
}

-- A text that goes on behind the last newline does not end with one.
open_end :
    (t l : List ℕ) → length l ≢ 0 → has_code newline l ≡ false → ends_with_newline (t ++ l) ≡ false
unfolding ends_with_newline
open_end [] [] some_text clean = absurd (some_text refl)
open_end [] (a ∷ []) some_text clean = ground (arith, clean)
open_end [] (a ∷ b ∷ l) some_text clean =
    open_end [] (b ∷ l) (λ h. absurd (omega (arith, h))) (ground (arith, clean))
open_end (a ∷ []) [] some_text clean = absurd (some_text refl)
open_end (a ∷ []) (b ∷ l) some_text clean = open_end [] (b ∷ l) some_text clean
open_end (a ∷ b ∷ t) l some_text clean = open_end (b ∷ t) l some_text clean

-- The part of a line without its newline.
take-line :
    (n : ℕ) (line : List ℕ)
    → 0 < n
    → n ≤ length line
    → has_code newline line ≡ false
    → (length (take n (line ++ newline ∷ [])) ≢ 0)
      × (has_code newline (take n (line ++ newline ∷ [])) ≡ false)
take-line zero line pos within clean = absurd (omega (arith, pos))
take-line (suc n) [] pos within clean = absurd (omega (arith, within))
take-line (suc zero) (a ∷ line) pos within clean = ground (arith, clean)
take-line (suc (suc n)) (a ∷ line) pos within clean =
    let (_, bare) =
      take-line (suc n) line (omega arith) (omega (arith, within)) (ground (arith, clean)) in
    ground (arith, clean, bare)

module _ (c : Contracts) (rt : Runtime) where
  pub read_content-torn :
      (t line : List ℕ) (n : ℕ)
      → 0 < n
      → n ≤ length line
      → has_code newline line ≡ false
      → read_content c rt (t ++ take n (line ++ newline ∷ [])) ≡ err journal_corrupt
  unfolding read_content
  read_content-torn t line n pos within clean =
      let (some_text, bare) = take-line n line pos within clean in
      let unclosed : ends_with_newline (t ++ take n (line ++ newline ∷ [])) ≡ false =
        open_end t (take n (line ++ newline ∷ [])) some_text bare in
      ground (arith, unclosed)

  may_write-fault :
      (s : Session) (now : Disk) (p : Payload) (text : List ℕ)
      → may_write s now p text ≢ err journal_write_failed
  unfolding may_write unchanged_journal
  may_write-fault s now p text h = ground arith

  write_event-torn :
      (s : Session) (now : Disk) (n : ℕ) (e : Event) (next : State) (text : List ℕ)
      → (write_event s now (some n) e next text).result ≡ err journal_write_failed
      → (file : File) × ((write_event s now (some n) e next text).disk.journal
          ≡ some (record file { content = file.content ++ take n text }))
        × ((write_event s now (some n) e next text).session.valid ≡ false)
  unfolding write_event with_content
  write_event-torn s now n e next text h = elim (Result-cases (may_write s now e.payload text)) [
    | inl (file, may) ↦ (file, ground (arith, may), ground (arith, may))
    | inr (r, bad) ↦ absurd (may_write-fault s now e.payload text (ground (arith, bad)))
  ]

  next_event-fault :
      (s s' : Session) (p : Payload) → next_event c rt s p ≢ err (s', journal_write_failed)
  unfolding next_event
  next_event-fault s s' p h = ground arith

  -- A failing write was reached.
  append-reached :
      (seen now : Disk) (fault : Option ℕ) (s : Session) (p : Payload)
      → (append c rt seen now fault s p).result ≡ err journal_write_failed
      → (e : Event) × (next : State) × (next_event c rt s p ≡ ok (e, next))
        × (append c rt seen now fault s p ≡ write_event s now fault e next (text_of c e))
  unfolding append
  append-reached seen now fault s p h = elim (Result-cases (next_event c rt s p)) [
    | inl ((e, next), built) ↦ (e, next, built, ground (arith, built))
    | inr ((s', r), refused) ↦ absurd (next_event-fault s s' p (ground (arith, refused)))
  ]

  -- A write that fails behind some characters of the line and before its newline: the call is refused,
  -- the session ends, and the journal that it leaves is JOURNAL_CORRUPT.
  pub append-torn :
      (seen now : Disk) (n : ℕ) (s : Session) (p : Payload) (e : Event)
      → make_event c rt (some s.meta.state) s.meta.seq (some s.meta.last_digest) p ≡ ok e
      → has_code newline (line_of c e) ≡ false
      → 0 < n
      → n ≤ length (line_of c e)
      → (append c rt seen now (some n) s p).result ≡ err journal_write_failed
      → (file : File) × ((append c rt seen now (some n) s p).disk.journal ≡ some file)
        × (read_content c rt file.content ≡ err journal_corrupt)
        × ((append c rt seen now (some n) s p).session.valid ≡ false)
  append-torn seen now n s p e made clean pos within h =
      let (e', next, built, same) = append-reached seen now (some n) s p h in
      let is_made : e' ≡ e = ok-injective (sym (next_event_inv c rt s p built).0 ∙ made) in
      let (file, there, ended) =
        write_event-torn s now n e' next (text_of c e') (ap (λ a. a.result) (sym same) ∙ h) in
      (
        record file { content = file.content ++ take n (text_of c e) },
        rw same (rw (← is_made) there),
        read_content-torn file.content (line_of c e) n pos within clean,
        rw same ended,
      )
