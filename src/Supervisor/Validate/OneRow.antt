-- ===== src/Supervisor/Validate/OneRow.antt =====
-- What the validator accepts of one row at its position.
use fingerprint_full_matcher.Prelude.{
  append_empty, ℕ, suc, ◌/◌, String, Bool, true, false, not, Option, some, List, [], ◌∷◌, ◌≡◌, ◌≢◌,
  ◌↔◌, refl, ap, sym, ◌∙◌, All, get_elem?, length, ◌<◌, zero, arith, Option-cases, Bool-cases, ◌%◌,
  inl, inr, if◌then◌else◌,
}
use fingerprint_full_matcher.Prelude.Result.{
  Result, ok, subscript, ◌>>=◌, bind_returned, ok-injective, Exception,
}
use fingerprint_full_matcher.Supervisor.{
  Release, Kind, same_iff, is_next_subject, Row, get_cell, subject_at,
}
use fingerprint_full_matcher.Supervisor.Order.Accepted.{
  subject_at_lem, next_subject_lem, selected_differs,
}
use fingerprint_full_matcher.Supervisor.Order.{differs, selected_at}
use fingerprint_full_matcher.Supervisor.Paths.{Parts, Disk}
use fingerprint_full_matcher.Supervisor.Validate.{
  messages, get_default, is_lower_sha256, is_other_subject, index_b_of, identity_checks,
  pairing_checks, content_checks, side_checks, self_checks, row_errors, validate_row, self_suffixes,
}
use fingerprint_full_matcher.Supervisor.Validate.Checks.{Pass, messages-nil}
use fingerprint_full_matcher.Supervisor.Validate.Accepted.{
  IsIdentified, IsPaired, HasContent, HasSide, Agree, identity_iff, pairing_iff, content_iff,
  side_iff, self_iff,
}

-- The subject that was selected at a place.
abbrev pub IsChosen : List String → ℕ → Option String → Type 0
IsChosen selected place value =
    (subject : String) × (get_elem? selected place ≡ some subject) × (value ≡ some subject)

-- The place of the second subject.
unfoldable pub place_b : Kind → ℕ → ℕ
place_b kind position = if is_next_subject kind then subject_at position % 50 else position / 10

index_b_lem :
    (kind : Kind) (position : ℕ)
    → index_b_of kind (subject_at position) ≡ suc (place_b kind position)
unfolding index_b_of place_b
index_b_lem kind position = elim (Bool-cases (is_next_subject kind)) [
  | inl next ↦ rw next (next_subject_lem (subject_at position))
  | inr one ↦ rw one (subject_at_lem position)
]

differs-some : (value : Option String) (s : String) → value ≡ some s → differs value s ≡ false
differs-some value s e = ap not ((same_iff value (some s)).1 e)

selected_at-some :
    (selected : List String) (place : ℕ) (s : String)
    → get_elem? selected place ≡ some s
    → selected_at selected (suc place) ≡ ok s
unfolding subscript
selected_at-some selected place s h = ground arith

other_iff :
    (selected : List String) (place : ℕ) (value : Option String)
    → selected ≢ []
    → (is_other_subject selected (suc place) value ≡ ok false) ↔ IsChosen selected place value
unfolding is_other_subject
other_iff [] place value filled = absurd (filled refl)
other_iff (s ∷ selected) place value filled = (
  λ h. selected_differs (s ∷ selected) place value h,
  λ (subject, found, same_id).
      ap (λ (r : Result Exception String). (do expected ← r; ok (differs value expected)))
        (selected_at-some (s ∷ selected) place subject found)
      ∙ ap ok (differs-some value subject same_id),
)

get_elem?-some_lt :
    (selected : List String) (place : ℕ) (s : String)
    → get_elem? selected place ≡ some s
    → place < length selected
get_elem?-some_lt [] place s h = cc
get_elem?-some_lt (x ∷ selected) zero s h = omega arith
get_elem?-some_lt (x ∷ selected) (suc place) s h =
    let rest = get_elem?-some_lt selected place s h in omega arith

pub within :
    (selected : List String) (place : ℕ) (value : Option String) (wrong : Bool)
    → selected ≢ []
    → is_other_subject selected (suc place) value ≡ ok wrong
    → place < length selected
unfolding is_other_subject subscript
within [] place value wrong filled h = absurd (filled refl)
within (s ∷ selected) place value wrong filled h =
    elim (Option-cases (get_elem? (s ∷ selected) place)) [
      | inl missing ↦ absurd (ground arith)
      | inr (subject, found) ↦ get_elem?-some_lt (s ∷ selected) place subject found
    ]

module _ (disk : Disk) (dataset_root : Parts) (release : Release) (kind : Kind)
    (selected : List String) where
  pub record IsRowAt (seen : List (Option String)) (position : ℕ) (row : Row) : Type 0 where
    pub identified : IsIdentified disk dataset_root release kind selected position row
    pub chosen_a : IsChosen selected (position / 10) (get_cell row "subject_id_a")
    pub paired : IsPaired disk dataset_root release kind selected position row
    pub chosen_b : IsChosen selected (place_b kind position) (get_cell row "subject_id_b")
    pub content : HasContent disk dataset_root release kind selected position row seen
    pub digest_a : is_lower_sha256 (get_default row "sha256_a") ≡ ok true
    pub digest_b : is_lower_sha256 (get_default row "sha256_b") ≡ ok true
    pub side_a : HasSide disk dataset_root release kind selected position row "a"
    pub side_b : HasSide disk dataset_root release kind selected position row "b"
    pub agreeing : All (Agree disk dataset_root release kind selected position row) self_suffixes

  -- Which checks gave no message, for what the tests before them found.
  record AreMet (seen : List (Option String)) (position : ℕ) (row : Row)
      (wrong_a wrong_b digest_a digest_b : Bool) : Type 0 where
    pub identity :
        Pass (identity_checks disk dataset_root release kind selected position row wrong_a)
    pub pairing : Pass (pairing_checks disk dataset_root release kind selected position row wrong_b)
    pub content : Pass (content_checks disk dataset_root release kind selected position row seen)
    pub side_a :
        Pass (side_checks disk dataset_root release kind selected position row "a" digest_a)
    pub side_b :
        Pass (side_checks disk dataset_root release kind selected position row "b" digest_b)
    pub agreeing : Pass (self_checks disk dataset_root release kind selected position row)

  row_errors-nil :
      (seen : List (Option String)) (position : ℕ) (row : Row)
      (wrong_a wrong_b digest_a digest_b : Bool)
      → row_errors disk dataset_root release kind selected position seen row wrong_a wrong_b
          digest_a digest_b
        ≡ []
      → AreMet seen position row wrong_a wrong_b digest_a digest_b
  unfolding row_errors
  row_errors-nil seen position row wrong_a wrong_b digest_a digest_b h =
      let identity = identity_checks disk dataset_root release kind selected position row wrong_a in
      let pairing = pairing_checks disk dataset_root release kind selected position row wrong_b in
      let content = content_checks disk dataset_root release kind selected position row seen in
      let side_a = side_checks disk dataset_root release kind selected position row "a" digest_a in
      let side_b = side_checks disk dataset_root release kind selected position row "b" digest_b in
      let agreeing = self_checks disk dataset_root release kind selected position row in
      let (m0, r0) = append_empty (messages identity) _ h in
      let (m1, r1) = append_empty (messages pairing) _ r0 in
      let (m2, r2) = append_empty (messages content) _ r1 in
      let (m3, r3) = append_empty (messages side_a) _ r2 in
      let (m4, m5) = append_empty (messages side_b) _ r3 in
      record {
        identity = (messages-nil identity).0 m0;
        pairing = (messages-nil pairing).0 m1;
        content = (messages-nil content).0 m2;
        side_a = (messages-nil side_a).0 m3;
        side_b = (messages-nil side_b).0 m4;
        agreeing = (messages-nil agreeing).0 m5;
      }

  nil-row_errors :
      (seen : List (Option String)) (position : ℕ) (row : Row)
      (wrong_a wrong_b digest_a digest_b : Bool)
      → AreMet seen position row wrong_a wrong_b digest_a digest_b
      → row_errors disk dataset_root release kind selected position seen row wrong_a wrong_b
          digest_a digest_b
        ≡ []
  unfolding row_errors
  nil-row_errors seen position row wrong_a wrong_b digest_a digest_b met = rw (
    (messages-nil (identity_checks disk dataset_root release kind selected position row wrong_a)).1
        met.identity,
    (messages-nil (pairing_checks disk dataset_root release kind selected position row wrong_b)).1
        met.pairing,
    (messages-nil (content_checks disk dataset_root release kind selected position row seen)).1
        met.content,
    (messages-nil (side_checks disk dataset_root release kind selected position row "a" digest_a)).1
        met.side_a,
    (messages-nil (side_checks disk dataset_root release kind selected position row "b" digest_b)).1
        met.side_b,
    (messages-nil (self_checks disk dataset_root release kind selected position row)).1
        met.agreeing,
  )

  is_other_subject_iff :
      (place : ℕ) (value : Option String)
      → selected ≢ []
      → (is_other_subject selected (suc place) value ≡ ok false) ↔ IsChosen selected place value
  is_other_subject_iff place value filled = other_iff selected place value filled

  -- A row about which the validator has nothing to say, where some subject was selected.
  pub validate_row-IsRowAt :
      (seen : List (Option String)) (position : ℕ) (row : Row)
      → selected ≢ []
      → validate_row disk dataset_root release kind selected position seen row ≡ ok []
      → IsRowAt seen position row
  unfolding validate_row
  validate_row-IsRowAt seen position row filled h =
      let (wrong_a, at_a, h1) =
        bind_returned
          (is_other_subject selected (subject_at position) (get_cell row "subject_id_a")) _ h in
      let (wrong_b, at_b, h2) =
        bind_returned
          (is_other_subject selected (index_b_of kind (subject_at position))
            (get_cell row "subject_id_b"))
          _ h1 in
      let (digest_a, sha_a, h3) =
        bind_returned (is_lower_sha256 (get_default row "sha256_a")) _ h2 in
      let (digest_b, sha_b, h4) =
        bind_returned (is_lower_sha256 (get_default row "sha256_b")) _ h3 in
      let met =
        row_errors-nil seen position row wrong_a wrong_b digest_a digest_b (ok-injective h4) in
      let (identified, right_a) =
        (identity_iff disk dataset_root release kind selected position row wrong_a).0
          met.identity in
      let (paired, right_b) =
        (pairing_iff disk dataset_root release kind selected position row wrong_b).0 met.pairing in
      let (side_a, good_a) =
        (side_iff disk dataset_root release kind selected position row "a" digest_a).0 met.side_a in
      let (side_b, good_b) =
        (side_iff disk dataset_root release kind selected position row "b" digest_b).0 met.side_b in
      record {
        identified = identified;
        chosen_a = (is_other_subject_iff (position / 10) _ filled).0 (
            ap (λ i. is_other_subject selected i (get_cell row "subject_id_a"))
              (sym (subject_at_lem position))
            ∙ at_a
            ∙ ap ok right_a);
        paired = paired;
        chosen_b = (is_other_subject_iff (place_b kind position) _ filled).0 (
            ap (λ i. is_other_subject selected i (get_cell row "subject_id_b"))
              (sym (index_b_lem kind position))
            ∙ at_b
            ∙ ap ok right_b);
        content =
            (content_iff disk dataset_root release kind selected position row seen).0 met.content;
        digest_a = sha_a ∙ ap ok good_a;
        digest_b = sha_b ∙ ap ok good_b;
        side_a = side_a;
        side_b = side_b;
        agreeing = (self_iff disk dataset_root release kind selected position row).0 met.agreeing;
      }

  -- Such a row gets no message.
  pub IsRowAt-validate_row :
      (seen : List (Option String)) (position : ℕ) (row : Row)
      → selected ≢ []
      → IsRowAt seen position row
      → validate_row disk dataset_root release kind selected position seen row ≡ ok []
  unfolding validate_row
  IsRowAt-validate_row seen position row filled r =
      let right_a : is_other_subject selected (subject_at position) (get_cell row "subject_id_a")
          ≡ ok false =
        ap (λ i. is_other_subject selected i (get_cell row "subject_id_a"))
          (subject_at_lem position)
        ∙ (is_other_subject_iff (position / 10) _ filled).1 r.chosen_a in
      let right_b : is_other_subject selected (index_b_of kind (subject_at position))
            (get_cell row "subject_id_b")
          ≡ ok false =
        ap (λ i. is_other_subject selected i (get_cell row "subject_id_b"))
          (index_b_lem kind position)
        ∙ (is_other_subject_iff (place_b kind position) _ filled).1 r.chosen_b in
      let met : AreMet seen position row false false true true = record {
        identity =
            (identity_iff disk dataset_root release kind selected position row false).1
              (r.identified, refl);
        pairing =
            (pairing_iff disk dataset_root release kind selected position row false).1
              (r.paired, refl);
        content =
            (content_iff disk dataset_root release kind selected position row seen).1 r.content;
        side_a =
            (side_iff disk dataset_root release kind selected position row "a" true).1
              (r.side_a, refl);
        side_b =
            (side_iff disk dataset_root release kind selected position row "b" true).1
              (r.side_b, refl);
        agreeing = (self_iff disk dataset_root release kind selected position row).1 r.agreeing;
      } in
      rw (right_a, right_b, r.digest_a, r.digest_b)
        (ap ok (nil-row_errors seen position row false false true true met))
