-- ===== src/Store/Append/Accepted.antt =====
-- What an accepted `append` found and did (core/controller/store.mjs): each guard held, and the line
-- stands in the journal.
use eoduksini.Controller.Reduce.{reduce}
use eoduksini.Base.Text.{byte_length, codes, codes-append, byte_length-append}
use eoduksini.Base.Json.{obj, canonical}
use eoduksini.Base.Result.{ok, Result-cases}
use eoduksini.Store.{Runtime, Session, newline, Disk, File}
use eoduksini.Controller.Types.{Event, State, Payload}
use eoduksini.Store.Encode.{make_event, line_of, next_epoch, event_body}
use eoduksini.Controller.Contracts.{Contracts, digest}
use eoduksini.Store.Append.{
  may_write, unchanged_journal, write_event, append, with_content, fits, is_owned, is_prepared_here,
  advance, continues, next_event, owner_token,
}
use Prim.Native.String.{◌++◌ as append_text}
use eoduksini.Base.{
  ℕ, String, List, some, Option, ◌+◌, true, ◌≡◌, [], ◌∷◌, arith, ◌++◌, length, ◌≢◌, inr, inl, ap,
  sym, ◌∙◌, Option-cases, eq_iff, eq_refl,
}

pub make_event_inv :
    (c : Contracts) (rt : Runtime) (state : Option State) (seq : ℕ) (last : Option String)
    (p : Payload) {e : Event}
    → make_event c rt state seq last p ≡ ok e
    → (e.seq ≡ seq + 1)
      × (e.prev_digest ≡ last)
      × (e.payload ≡ p)
      × (e.digest ≡ digest c (obj e.body))
      × (e.control_epoch ≡ next_epoch state p)
      × (e.body ≡ event_body rt (seq + 1) last (next_epoch state p) p)
unfolding make_event
make_event_inv c rt state seq last p h = ground arith

codes-brace : (s : String) → length (codes (append_text "{" s)) ≢ 0
codes-brace s = rw (codes-append "{" s) λ h. absurd (omega (arith, h))

-- The text of an event's line is not empty.
pub line_of-length : (c : Contracts) (e : Event) → length (line_of c e) ≢ 0
unfolding line_of canonical
line_of-length c e = codes-brace _

abbrev pub text_of : Contracts → Event → List ℕ
text_of c e = line_of c e ++ newline ∷ []

pub text_of-size :
    (c : Contracts) (e : Event) → byte_length (text_of c e) ≡ byte_length (line_of c e) + 1
text_of-size c e = omega (arith, byte_length-append (line_of c e) (newline ∷ []))

pub may_write_inv :
    (s : Session) (now : Disk) (p : Payload) (text : List ℕ) {file : File}
    → may_write s now p text ≡ ok file
    → (now.journal ≡ some file)
      × (fits s p (byte_length text) ≡ true)
      × (byte_length file.content ≡ s.meta.bytes)
      × (file.identity ≡ s.journal_identity)
      × (is_owned now s.token ≡ true)
unfolding may_write unchanged_journal
may_write_inv s now p text h = ground arith

pub is_owned-token :
    (disk : Disk) (a b : String) → is_owned disk a ≡ true → is_owned disk b ≡ true → a ≡ b
unfolding is_owned owner_token
is_owned-token disk a b h k = elim (Option-cases (owner_token disk)) [
  | inl missing ↦ ground (arith, missing)
  | inr (t, there) ↦ ground (arith, there, eq_iff t a, eq_iff t b)
]

pub is_owned-taken :
    (disk : Disk) (token : String)
    → is_owned (record disk { owner = some (some token) }) token ≡ true
unfolding is_owned owner_token
is_owned-taken disk token = eq_refl token

module _ (c : Contracts) (rt : Runtime) where
  pub write_event_inv :
      (s : Session) (now : Disk) (fault : Option ℕ) (e : Event) (next : State) (text : List ℕ)
      {t : State}
      → (write_event s now fault e next text).result ≡ ok t
      → (file : File) × (may_write s now e.payload text ≡ ok file)
        × (t ≡ next)
        × (write_event s now fault e next text ≡ record {
          disk = with_content now file (file.content ++ text);
          session = advance s e next (byte_length text);
          result = ok next;
        })
  unfolding write_event
  write_event_inv s now fault e next text h = ground arith

  pub next_event_inv :
      (s : Session) (p : Payload) {e : Event} {next : State}
      → next_event c rt s p ≡ ok (e, next)
      → (make_event c rt (some s.meta.state) s.meta.seq (some s.meta.last_digest) p ≡ ok e)
        × (is_prepared_here s.prepared_here (continues p) ≡ true)
        × (reduce c (some s.meta.state) e ≡ ok next)
  unfolding next_event
  next_event_inv s p h = ground arith

  pub append_inv :
      (seen now : Disk) (fault : Option ℕ) (s : Session) (p : Payload) {next : State}
      → (append c rt seen now fault s p).result ≡ ok next
      → (e : Event) × (t : State) × (s.valid ≡ true)
        × (is_owned seen s.token ≡ true)
        × (next_event c rt s p ≡ ok (e, t))
        × (append c rt seen now fault s p ≡ write_event s now fault e t (text_of c e))
  unfolding append
  append_inv seen now fault s p h = elim (Result-cases (next_event c rt s p)) [
    | inl ((e, t), made) ↦
        (e, t, ground (arith, made), ground (arith, made), made, ground (arith, made))
    | inr ((s', r), refused) ↦ absurd (ground (arith, refused))
  ]

  -- All that an accepted call says.
  pub append_accepted :
      (seen now : Disk) (fault : Option ℕ) (s : Session) (p : Payload) {next : State}
      → (append c rt seen now fault s p).result ≡ ok next
      → (e : Event) × (file : File) × (s.valid ≡ true)
        × (is_owned seen s.token ≡ true)
        × (make_event c rt (some s.meta.state) s.meta.seq (some s.meta.last_digest) p ≡ ok e)
        × (is_prepared_here s.prepared_here (continues p) ≡ true)
        × (reduce c (some s.meta.state) e ≡ ok next)
        × (may_write s now e.payload (text_of c e) ≡ ok file)
        × (append c rt seen now fault s p ≡ record {
          disk = with_content now file (file.content ++ text_of c e);
          session = advance s e next (byte_length (text_of c e));
          result = ok next;
        })
  append_accepted seen now fault s p {next = next} h =
      let (e, t, valid, owned, built, same) = append_inv seen now fault s p h in
      let (made, prepared, reduced) = next_event_inv s p built in
      let written : (write_event s now fault e t (text_of c e)).result ≡ ok next =
        ap (λ a. a.result) (sym same) ∙ h in
      let (file, may, is_next, done) = write_event_inv s now fault e t (text_of c e) written in
      (
        e,
        file,
        valid,
        owned,
        made,
        prepared,
        reduced ∙ ap ok (sym is_next),
        may,
        same
            ∙ done
            ∙ ap
                (λ u. record {
                  disk = with_content now file (file.content ++ text_of c e);
                  session = advance s e u (byte_length (text_of c e));
                  result = ok u;
                })
                (sym is_next),
      )
