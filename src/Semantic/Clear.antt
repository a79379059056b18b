-- ===== src/Semantic/Clear.antt =====
-- What a clear assessment excludes (core/semantic.mjs).
use eoduksini.Pattern.Sound.{paths_overlap_sound}
use eoduksini.Base.Text.{codes}
use eoduksini.Pattern.{matches}
use eoduksini.Base.Dict.{has}
use eoduksini.Governor.Scope.{values_of}
use eoduksini.Base.Result.{ok, >>=-eq-ok, check, ok-injective, traverse}
use eoduksini.Controller.Types.{non_overlapping}
use eoduksini.Base.Sort.{sort_by, length-sort_by}
use eoduksini.Semantic.Admission.{
  with_peer, Peer, compare_peers, semantic_assessment_contract, assess_semantic_admission,
  PeerConflict, Assessment, request_semantic_footprint, assessment_of, Subject, declared_footprint,
  peer_conflict_text, valid_conflict, normal_lists, consistent,
}
use eoduksini.Semantic.{
  unique_by, Checks, semantic_footprint_contract, Footprint, conflict_fields, Uncertainty, by_text,
  invalid_semantic_footprint, uncertainty_text, footprint_fields, each, check_field,
  uncertainty_contract, same_texts, text, canonical_texts, sorted, invalid_semantic_assessment,
}
use eoduksini.Semantic.Compare.{
  field_conflicts, left_conflicts, status_of, right_conflicts, compare_semantic_footprints,
  Comparison, clash, comparison_of, Conflict, conflict_text,
}
use eoduksini.Base.{
  ℕ, String, Bool, true, false, ◌&&◌, List, [], ◌∷◌, ◌++◌, ◌==◌, ◌≡◌, refl, arith, ap, includes,
  length, Bool-cases, eq_iff, str_eq, sym, inl, inr, ◌∙◌, all, map, some, ◌≢◌, All, All-middle,
}

append-empty {ℓ} : {A : Type ℓ} (xs ys : List A) → xs ++ ys ≡ [] → (xs ≡ []) × (ys ≡ [])
append-empty [] ys h = (refl, h)
append-empty (x ∷ xs) ys h = cc

sort_by-empty {ℓ} : {A : Type ℓ} (le : A → A → Bool) (xs : List A) → sort_by le xs ≡ [] → xs ≡ []
sort_by-empty le [] h = refl
sort_by-empty le (x ∷ xs) h = absurd (omega (arith, length-sort_by le (x ∷ xs), ap length h))

unique_by-empty {ℓ} :
    {A : Type ℓ} (key : A → String) (xs : List A) → unique_by key xs ≡ [] → xs ≡ []
unfolding unique_by
unique_by-empty key [] h = refl
unique_by-empty key (x ∷ xs) h = cc

right_conflicts-empty :
    (f a b : String) (bs : List String)
    → right_conflicts f a bs ≡ []
    → includes bs b ≡ true
    → clash f a b ≡ false
unfolding right_conflicts
right_conflicts-empty f a b [] h k = cc
right_conflicts-empty f a b (x ∷ bs) h k =
    ground (arith, h, k, right_conflicts-empty f a b bs, eq_iff b x)

left_conflicts-empty :
    (f a b : String) (ls bs : List String)
    → left_conflicts f ls bs ≡ []
    → includes ls a ≡ true
    → includes bs b ≡ true
    → clash f a b ≡ false
unfolding left_conflicts
left_conflicts-empty f a b [] bs h i j = cc
left_conflicts-empty f a b (x ∷ ls) bs h i j =
    let (here, there) = append-empty (right_conflicts f x bs) (left_conflicts f ls bs) h in
    elim (Bool-cases (str_eq a x)) [
      | inl same ↦
          let is_x : a ≡ x = ground (arith, same, eq_iff a x) in
          right_conflicts-empty f a b bs (rw is_x here) j
      | inr other ↦ left_conflicts-empty f a b ls bs there (ground (arith, i, other)) j
    ]

field_conflicts-empty :
    (l r : Footprint) (fs : List String) (f a b : String)
    → field_conflicts l r fs ≡ []
    → includes fs f ≡ true
    → includes (values_of f l.facts) a ≡ true
    → includes (values_of f r.facts) b ≡ true
    → clash f a b ≡ false
unfolding field_conflicts
field_conflicts-empty l r [] f a b h k i j = cc
field_conflicts-empty l r (x ∷ fs) f a b h k i j =
    let (here, there) =
      append-empty (left_conflicts x (values_of x l.facts) (values_of x r.facts))
        (field_conflicts l r fs) h in
    elim (Bool-cases (str_eq f x)) [
      | inl same ↦
          let is_x : f ≡ x = ground (arith, same, eq_iff f x) in
          left_conflicts-empty f a b (values_of f l.facts) (values_of f r.facts) (rw is_x here) i j
      | inr other ↦ field_conflicts-empty l r fs f a b there (ground (arith, k, other)) i j
    ]

-- No value of a footprint clashes with a value of another in a field of conflict.
pub Apart : Footprint → Footprint → Type 0
Apart l r =
    (f a b : String)
    → includes conflict_fields f ≡ true
    → includes (values_of f l.facts) a ≡ true
    → includes (values_of f r.facts) b ≡ true
    → clash f a b ≡ false

-- A peer whose footprint is certain, and apart from this one.
pub Peaceful : Footprint → Peer → Type 0
Peaceful v p = (p.semantic_footprint.uncertainty ≡ []) × Apart v p.semantic_footprint

with_peer-empty : (id : String) (cs : List Conflict) → with_peer id cs ≡ [] → cs ≡ []
unfolding with_peer
with_peer-empty id [] h = refl
with_peer-empty id (c ∷ cs) h = cc

status_of-clear {ℓ κ} :
    {A : Type ℓ} {B : Type κ} (us : List A) (cs : List B)
    → status_of us cs ≡ non_overlapping
    → (us ≡ []) × (cs ≡ [])
unfolding status_of
status_of-clear [] [] h = (refl, refl)
status_of-clear [] (c ∷ cs) h = cc
status_of-clear (u ∷ us) cs h = cc

module _ (k : Checks) where
  semantic_footprint_contract_same :
      (v : Footprint) {w : Footprint} → semantic_footprint_contract k v ≡ ok w → w ≡ v
  unfolding semantic_footprint_contract
  semantic_footprint_contract_same v h =
      let (_, _, h1) = >>=-eq-ok (check (k.valid_schema v) invalid_semantic_footprint) _ h in
      let (_, _, h2) =
        >>=-eq-ok
          (check (length v.facts == 12 && all (λ f. has f v.facts) footprint_fields)
            invalid_semantic_footprint)
          _ h1 in
      let (_, _, h3) = >>=-eq-ok (each (check_field k v) footprint_fields) _ h2 in
      let (items, _, h4) = >>=-eq-ok (traverse (uncertainty_contract k) v.uncertainty) _ h3 in
      let (_, _, h5) =
        >>=-eq-ok
          (check
            (same_texts (map (uncertainty_text k) (sort_by (by_text (uncertainty_text k)) items))
              (map (uncertainty_text k) v.uncertainty))
            invalid_semantic_footprint)
          _ h4 in
      sym (ok-injective h5)

  compare_inv :
      (l r : Footprint) {c : Comparison}
      → compare_semantic_footprints k l r ≡ ok c
      → c ≡ comparison_of k l r
  unfolding compare_semantic_footprints
  compare_inv l r h =
      let (l', first, h1) = >>=-eq-ok (semantic_footprint_contract k l) _ h in
      let (r', second, h2) = >>=-eq-ok (semantic_footprint_contract k r) _ h1 in
      sym (ok-injective h2)
      ∙ ap (λ v. comparison_of k v r') (semantic_footprint_contract_same l first)
      ∙ ap (λ v. comparison_of k l v) (semantic_footprint_contract_same r second)

  compare-Apart :
      (l r : Footprint) {c : Comparison}
      → compare_semantic_footprints k l r ≡ ok c
      → c.conflicts ≡ []
      → c.uncertainty ≡ []
      → (r.uncertainty ≡ []) × Apart l r
  unfolding comparison_of Apart
  compare-Apart l r h no_conflict certain =
      let same = compare_inv l r h in
      let found = unique_by-empty (conflict_text k) (field_conflicts l r conflict_fields) (
        sort_by-empty (by_text (conflict_text k)) _
          (ap (λ c. c.conflicts) (sym same) ∙ no_conflict)) in
      let items = unique_by-empty (uncertainty_text k) (l.uncertainty ++ r.uncertainty) (
        sort_by-empty (by_text (uncertainty_text k)) _
          (ap (λ c. c.uncertainty) (sym same) ∙ certain)) in
      (
        (append-empty l.uncertainty r.uncertainty items).1,
        λ f a b. field_conflicts-empty l r conflict_fields f a b found,
      )

  compare_peers-Peaceful :
      (v : Footprint) (peers : List Peer) {cs : List PeerConflict} {us : List Uncertainty}
      → compare_peers k v peers ≡ ok (cs, us)
      → cs ≡ []
      → us ≡ []
      → All (Peaceful v) peers
  unfolding compare_peers Peaceful
  compare_peers-Peaceful v [] h no_conflict certain = tt
  compare_peers-Peaceful v (p ∷ ps) h no_conflict certain =
      let (c, compared, h1) =
        >>=-eq-ok (compare_semantic_footprints k v p.semantic_footprint) _ h in
      let ((cs, us), rest, h2) = >>=-eq-ok (compare_peers k v ps) _ h1 in
      let same = ok-injective h2 in
      let found =
        append-empty (with_peer p.attempt_id c.conflicts) cs (ap (λ x. x.0) same ∙ no_conflict) in
      let items = append-empty c.uncertainty us (ap (λ x. x.1) same ∙ certain) in
      (
        compare-Apart v p.semantic_footprint compared
            (with_peer-empty p.attempt_id c.conflicts found.0) items.0,
        compare_peers-Peaceful v ps rest found.1 items.1,
      )

  assessment_inv :
      (a : Assessment) {x : Assessment} → semantic_assessment_contract k a ≡ ok x → x ≡ a
  unfolding semantic_assessment_contract
  assessment_inv a h =
      let (_, _, h1) =
        >>=-eq-ok
          (check
            (all text a.compared_attempt_ids
              && str_eq (canonical_texts k (sorted a.compared_attempt_ids))
                  (canonical_texts k a.compared_attempt_ids))
            invalid_semantic_assessment)
          _ h in
      let (_, _, h2) =
        >>=-eq-ok (check (all (valid_conflict k) a.conflicts) invalid_semantic_assessment) _ h1 in
      let (items, _, h3) = >>=-eq-ok (traverse (uncertainty_contract k) a.uncertainty) _ h2 in
      let (_, _, h4) =
        >>=-eq-ok (check (normal_lists k a items) invalid_semantic_assessment) _ h3 in
      let (_, _, h5) = >>=-eq-ok (check (consistent k a) invalid_semantic_assessment) _ h4 in
      sym (ok-injective h5)

  -- A clear assessment: the footprint of the request is certain, whether or not there are peers, and so
  -- is that of every peer; no value that the request has in a field of conflict clashes with a value of
  -- a peer in that field.
  pub admission-clear :
      (r : Subject) (peers : List Peer) {x : Assessment}
      → assess_semantic_admission k r peers ≡ ok x
      → x.status ≡ non_overlapping
      → ((declared_footprint r).uncertainty ≡ []) × All (Peaceful (declared_footprint r)) peers
  unfolding assess_semantic_admission request_semantic_footprint assessment_of
  admission-clear r peers h clear =
      let (v, declared, h1) =
        >>=-eq-ok (semantic_footprint_contract k (declared_footprint r)) _ h in
      let ((cs, us), compared, h2) = >>=-eq-ok (compare_peers k v peers) _ h1 in
      let same =
        assessment_inv (assessment_of k (map (λ q. q.attempt_id) peers) cs (v.uncertainty ++ us))
          h2 in
      let is_declared = semantic_footprint_contract_same (declared_footprint r) declared in
      let (no_items, no_found) = status_of-clear _ _ (ap (λ y. y.status) (sym same) ∙ clear) in
      let items = append-empty v.uncertainty us (
        unique_by-empty (uncertainty_text k) (v.uncertainty ++ us)
          (sort_by-empty (by_text (uncertainty_text k)) _ no_items)) in
      let found =
        unique_by-empty (peer_conflict_text k) cs
          (sort_by-empty (by_text (peer_conflict_text k)) _ no_found) in
      rw (← is_declared) (items.0, compare_peers-Peaceful v peers compared found items.1)

  -- Behind a clear assessment no file is written by two: a file that matches a write path of the request
  -- matches no write path of a peer, where the platform compares both paths as they stand (on POSIX all
  -- of them, on Windows those in lower case).
  pub admission-files :
      (fold : List ℕ → List ℕ) (r : Subject) (before after : List Peer) (p : Peer) (file : List ℕ)
      (a b : String) {x : Assessment}
      → assess_semantic_admission k r (before ++ p ∷ after) ≡ ok x
      → x.status ≡ non_overlapping
      → includes (values_of "write_paths" (declared_footprint r).facts) a ≡ true
      → includes (values_of "write_paths" p.semantic_footprint.facts) b ≡ true
      → fold (codes a) ≡ codes a
      → fold (codes b) ≡ codes b
      → matches fold file (codes a) ≡ some true
      → matches fold file (codes b) ≢ some true
  unfolding clash Peaceful Apart
  admission-files fold r before after p file a b h clear mine theirs plain_a plain_b by_a by_b =
      let (_, all_clear) = admission-clear r (before ++ p ∷ after) h clear in
      let (_, apart) = All-middle (Peaceful (declared_footprint r)) before after p all_clear in
      let free = apart "write_paths" a b refl mine theirs in
      let meet = paths_overlap_sound fold file (codes a) (codes b) by_a by_b in
      cc (free, plain_a, plain_b, meet)
