-- ===== src/Store/Read/Lines.antt =====
-- `readStore` of core/controller/store.mjs on a journal with one more line.
use eoduksini.Controller.Reduce.{reduce}
use eoduksini.Controller.Event.{max_event_bytes, event_contract}
use eoduksini.Base.Text.{byte_length, byte_length-append}
use eoduksini.Base.Result.{ok, >>=-eq-ok, check, Result, err, ok-injective}
use eoduksini.Base.Split.{split_on, split_on-append, split_on-clean}
use eoduksini.Controller.Types.{Event, State, Reason}
use eoduksini.Store.{Runtime, newline, Meta, max_journal_bytes, journal_corrupt, from_reason}
use eoduksini.Base.Path.{has_code}
use eoduksini.Controller.Contracts.{Contracts}
use eoduksini.Store.Read.{
  ends_with_newline, drop_last, read_lines, read_content, Position, read_line, meta_at, parse_line,
  start_position, same_digest,
}
use eoduksini.Base.{
  ℕ, String, List, some, Option, ◌+◌, ◌&&◌, not, ◌==◌, leb, ltb, true, false, ◌≡◌, [], ◌∷◌, refl,
  arith, ◌++◌, ap, length, ◌≢◌, ◌≤◌, eq_refl, ◌∙◌, append_assoc, sym,
}

ends_with_newline_inv : (t : List ℕ) → ends_with_newline t ≡ true → t ≡ drop_last t ++ newline ∷ []
unfolding ends_with_newline drop_last
ends_with_newline_inv [] h = cc
ends_with_newline_inv (c ∷ []) h = ground arith
ends_with_newline_inv (c ∷ d ∷ t) h = ap (λ l. c ∷ l) (ends_with_newline_inv (d ∷ t) h)

drop_last-append : (t : List ℕ) (c : ℕ) → drop_last (t ++ c ∷ []) ≡ t
unfolding drop_last
drop_last-append [] c = refl
drop_last-append (a ∷ []) c = refl
drop_last-append (a ∷ b ∷ t) c = ap (λ l. a ∷ l) (drop_last-append (b ∷ t) c)

pub ends_with_newline-append :
    (t : List ℕ) (c : ℕ) → ends_with_newline (t ++ c ∷ []) ≡ (c == newline)
unfolding ends_with_newline
ends_with_newline-append [] c = refl
ends_with_newline-append (a ∷ []) c = refl
ends_with_newline-append (a ∷ b ∷ t) c = ends_with_newline-append (b ∷ t) c

-- The parts of a text and one more line.
split_on-line :
    (t line : List ℕ)
    → ends_with_newline t ≡ true
    → has_code newline line ≡ false
    → split_on newline (drop_last (t ++ line ++ newline ∷ []))
      ≡ split_on newline (drop_last t) ++ line ∷ []
split_on-line t line h clean =
    let whole : t ++ line ≡ drop_last t ++ newline ∷ line =
      ap (λ l. l ++ line) (ends_with_newline_inv t h)
      ∙ append_assoc (drop_last t) (newline ∷ []) line in
    rw
      (
        drop_last-append (t ++ line) newline,
        whole,
        split_on-append newline (drop_last t) line,
        split_on-clean newline line clean,
      )
      refl

from_reason_inv {ℓ} : {A : Type ℓ} {a : A} (r : Result Reason A) → from_reason r ≡ ok a → r ≡ ok a
from_reason_inv (ok a) h = ground arith
from_reason_inv (err r) h = cc

module _ (c : Contracts) (rt : Runtime) where
  read_lines-append :
      (p : Position) (lines : List (List ℕ)) (line : List ℕ) {q r : Position}
      → read_lines c rt p lines ≡ ok q
      → read_line c rt q line ≡ ok r
      → read_lines c rt p (lines ++ line ∷ []) ≡ ok r
  unfolding read_lines
  read_lines-append p [] line h k = ground arith
  read_lines-append p (l ∷ lines) line h k =
      let (q, first, rest) = >>=-eq-ok (read_line c rt p l) _ h in
      rw first (read_lines-append q lines line rest k)

  pub read_content_inv :
      (t : List ℕ) {m : Meta}
      → read_content c rt t ≡ ok m
      → (ends_with_newline t ≡ true)
        × (m.bytes ≡ byte_length t)
        × (read_lines c rt start_position (split_on newline (drop_last t))
            ≡ ok (record { state = some m.state; seq = m.seq; last_digest = some m.last_digest }))
  unfolding read_content meta_at
  read_content_inv t h = ground arith

  parse_line_inv :
      (line : List ℕ) {e : Event} → parse_line c rt line ≡ ok e → rt.parse line ≡ some e
  unfolding parse_line
  parse_line_inv line h = ground arith

  parse_line-some :
      (line : List ℕ) (e : Event) → rt.parse line ≡ some e → parse_line c rt line ≡ ok e
  unfolding parse_line
  parse_line-some line e h = rw (parse_line, h) refl

  reduce-event_contract :
      (state : Option State) (e : Event) {s : State}
      → reduce c state e ≡ ok s
      → event_contract c e ≡ ok tt
  unfolding reduce
  reduce-event_contract state e h = ground arith

  pub read_line_inv :
      (p : Position) (line : List ℕ) {q : Position}
      → read_line c rt p line ≡ ok q
      → (e : Event) × (s : State) × (rt.parse line ≡ some e)
        × (reduce c p.state e ≡ ok s)
        × (e.seq ≡ p.seq + 1)
        × (q ≡ record { state = some s; seq = e.seq; last_digest = some e.digest })
  unfolding read_line
  read_line_inv p line h =
      let (_, _, h1) =
        >>=-eq-ok
          (check (not (length line == 0) && leb (byte_length line + 1) max_event_bytes)
            journal_corrupt)
          _ h in
      let (e, parsed, h2) = >>=-eq-ok (parse_line c rt line) _ h1 in
      let (_, _, h3) = >>=-eq-ok (from_reason (event_contract c e)) _ h2 in
      let (_, chained, h4) =
        >>=-eq-ok
          (check (e.seq == p.seq + 1 && same_digest e.prev_digest p.last_digest) journal_corrupt) _
          h3 in
      let (s, reduced, h5) = >>=-eq-ok (from_reason (reduce c p.state e)) _ h4 in
      (
        e,
        s,
        parse_line_inv line parsed,
        from_reason_inv (reduce c p.state e) reduced,
        ground (arith, chained),
        sym (ok-injective h5),
      )

  -- A line that is the next event of a position.
  pub read_line-event :
      (p : Position) (s : State) (last : String) (line : List ℕ) (e : Event) (next : State)
      → p.state ≡ some s
      → p.last_digest ≡ some last
      → rt.parse line ≡ some e
      → length line ≢ 0
      → byte_length line + 1 ≤ max_event_bytes
      → e.seq ≡ p.seq + 1
      → e.prev_digest ≡ some last
      → reduce c (some s) e ≡ ok next
      → read_line c rt p line
        ≡ ok (record { state = some next; seq = e.seq; last_digest = some e.digest })
  unfolding read_line same_digest
  read_line-event p s last line e next at_state at_digest parsed some_text small seq chain reduced =
      let long : not (length line == 0) ≡ true = ground arith in
      let fits : leb (byte_length line + 1) max_event_bytes ≡ true = ground arith in
      let counted : (e.seq == p.seq + 1) ≡ true = ground arith in
      rw
        (
          long,
          fits,
          parse_line-some line e parsed,
          at_state,
          reduced,
          reduce-event_contract (some s) e reduced,
          counted,
          chain,
          at_digest,
          eq_refl last,
        )
        refl

  -- One more line of a journal that reads.
  pub read_content-line :
      (t line : List ℕ) (e : Event) (next : State) {m : Meta}
      → read_content c rt t ≡ ok m
      → rt.parse line ≡ some e
      → has_code newline line ≡ false
      → length line ≢ 0
      → byte_length line + 1 ≤ max_event_bytes
      → byte_length t + byte_length line + 1 ≤ max_journal_bytes
      → e.seq ≡ m.seq + 1
      → e.prev_digest ≡ some m.last_digest
      → reduce c (some m.state) e ≡ ok next
      → read_content c rt (t ++ line ++ newline ∷ [])
        ≡ ok (record {
          state = next;
          seq = e.seq;
          last_digest = e.digest;
          bytes = byte_length t + byte_length line + 1;
        })
  unfolding read_content meta_at
  read_content-line t line e next {m = m} h parsed clean some_text small room seq chain reduced =
      let (ends, _, read) = read_content_inv t h in
      let p : Position = record {
        state = some m.state;
        seq = m.seq;
        last_digest = some m.last_digest;
      } in
      let last =
        read_line-event p m.state m.last_digest line e next refl refl parsed some_text small seq
          chain reduced in
      let size : byte_length (t ++ line ++ newline ∷ []) ≡ byte_length t + byte_length line + 1 =
        omega (arith, byte_length-append (t ++ line) (newline ∷ []), byte_length-append t line) in
      let some_bytes : ltb 0 (byte_length t + byte_length line + 1) ≡ true = ground arith in
      let bounded : leb (byte_length t + byte_length line + 1) max_journal_bytes ≡ true =
        ground arith in
      let closed : ends_with_newline (t ++ line ++ newline ∷ []) ≡ true =
        ends_with_newline-append (t ++ line) newline in
      rw
        (
          size,
          some_bytes,
          bounded,
          closed,
          split_on-line t line ends clean,
          read_lines-append start_position _ line read last,
        )
        refl
