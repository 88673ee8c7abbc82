-- ===== src/Supervisor/Order/Accepted.antt =====
-- What the order check accepts: the rows go through the subjects in their order and through the ten
-- fingers of each, and an impostor's second subject is the next one, the first after the last.
use fingerprint_full_matcher.Prelude.{
  ℕ, suc, ◌/◌, ◌%◌, String, true, false, not, Option, some, List, [], ◌∷◌, ◌≡◌, ◌≢◌, arith,
  get_elem?, AllFrom, All, refl, Bool, ap, ◌∙◌, Option-cases, false_of_not, str_eq, inl, inr,
}
use fingerprint_full_matcher.Prelude.Text.{apart}
use fingerprint_full_matcher.Prelude.Dict.{lookup}
use fingerprint_full_matcher.Prelude.Result.{
  Result, ok, err, ◌>>=◌, subscript, bind_returned, of_option_iff, require_returned, require_ok,
  ok-injective, key_error, Exception,
}
use fingerprint_full_matcher.Supervisor.{
  Release, plain_roll_genuine, plain_roll_next_subject, Row, item, is_next_subject, same, same_iff,
  number, subject_at, finger_at, next_subject, upper_name, ppi_text, get_cell,
}
use fingerprint_full_matcher.Supervisor.Order.{
  any_of, differs, selected_at, genuine_order, impostor_order, order_of, order_from,
  validate_source_manifest_order, order_differs, cyclic_differs, order_tests, cyclic_tests,
}

-- The row has the text under the key.
abbrev pub Has : Row → String → String → Type 0
Has row key text = lookup key row ≡ some (some text)

-- What both kinds of row say at their position, in the columns of the first subject.
pub record IsPlaced (selected : List String) (release : Release) (index_key id_key : String)
    (subject : String) (position : ℕ) (row : Row) : Type 0 where
  pub index : Has row index_key (number (subject_at position))
  pub chosen : get_elem? selected (position / 10) ≡ some subject
  pub id : Has row id_key subject
  pub finger : Has row "canonical_finger" (number (finger_at position))
  pub dataset : Has row "dataset_release" (upper_name release)
  pub ppi : Has row "nominal_ppi" (ppi_text release)

-- The second subject of an impostor row.
pub record IsPairedNext (selected : List String) (subject next : String) (position : ℕ) (row : Row)
    : Type 0 where
  pub offset : get_cell row "cyclic_offset" ≡ some "1"
  pub index : Has row "roll_subject_index" (number (next_subject (subject_at position)))
  pub chosen : get_elem? selected (subject_at position % 50) ≡ some next
  pub id : Has row "roll_subject_id" next
  pub others : subject ≢ next

abbrev pub IsGenuineAt : List String → Release → ℕ → Row → Type 0
IsGenuineAt selected release position row =
    (subject : String) × IsPlaced selected release "subject_index" "subject_id" subject position row

abbrev pub IsImpostorAt : List String → Release → ℕ → Row → Type 0
IsImpostorAt selected release position row =
    (subject next : String) × IsPlaced selected release "plain_subject_index" "plain_subject_id"
      subject position row
    × IsPairedNext selected subject next position row

differs-eq :
    (value : Option String) (expected : String)
    → differs value expected ≡ false
    → value ≡ some expected
differs-eq value expected h = (same_iff value (some expected)).0 (ground arith)

-- Where `any_of` finds no test that holds, none holds.
any_of-false :
    (tests : List (Result Exception Bool)) → any_of tests ≡ ok false → All (λ t. t ≡ ok false) tests
unfolding any_of
any_of-false [] h = tt
any_of-false (ok true ∷ tests) h = cc
any_of-false (ok false ∷ tests) h = (refl, any_of-false tests h)
any_of-false (err e ∷ tests) h = cc

item-differs :
    (row : Row) (key expected : String)
    → ◌≡◌ {A = Result Exception Bool} (do v ← item row key; ok (differs v expected)) (ok false)
    → Has row key expected
item-differs row key expected h =
    let (value, found, same_text) = bind_returned (item row key) (λ v. ok (differs v expected)) h in
    (of_option_iff (key_error key) (lookup key row) value).0 found
    ∙ ap some (differs-eq value expected (ok-injective same_text))

pub selected_differs :
    (selected : List String) (position : ℕ) (actual : Option String)
    → ◌≡◌ {A = Result Exception Bool}
        (do expected ← selected_at selected (suc position); ok (differs actual expected))
        (ok false)
    → (subject : String) × (get_elem? selected position ≡ some subject) × (actual ≡ some subject)
unfolding subscript
selected_differs selected position actual h = elim (Option-cases (get_elem? selected position)) [
  | inl missing ↦ absurd (ground arith)
  | inr (subject, found) ↦ (subject, found, differs-eq actual subject (ground arith))
]

pub subject_at_lem : (position : ℕ) → subject_at position ≡ suc (position / 10)
unfolding subject_at
subject_at_lem position = omega arith

pub next_subject_lem : (index : ℕ) → next_subject index ≡ suc (index % 50)
unfolding next_subject
next_subject_lem index = omega arith

module _ (selected : List String) (release : Release) (position : ℕ) (row : Row) where
  -- The tests of both kinds, at the columns of the first subject.
  order_differs-IsPlaced :
      (index_key id_key : String) (index_a actual_a : Option String)
      → item row index_key ≡ ok index_a
      → item row id_key ≡ ok actual_a
      → order_differs selected release position row index_a actual_a ≡ ok false
      → (subject : String) × (actual_a ≡ some subject)
        × IsPlaced selected release index_key id_key subject position row
  unfolding order_differs order_tests
  order_differs-IsPlaced index_key id_key index_a actual_a has_index has_id h =
      let (h0, (h1, (h2, (h3, (h4, _))))) =
        any_of-false (order_tests selected release position row index_a actual_a) h in
      let (subject, found, same_id) =
        selected_differs selected (position / 10) actual_a (rw (← subject_at_lem position) h1) in
      (
        subject,
        same_id,
        record {
          index =
              (of_option_iff (key_error index_key) (lookup index_key row) index_a).0 has_index
              ∙ ap some (differs-eq index_a _ (ok-injective h0));
          chosen = found;
          id =
              (of_option_iff (key_error id_key) (lookup id_key row) actual_a).0 has_id
              ∙ ap some same_id;
          finger = item-differs row "canonical_finger" _ h2;
          dataset = item-differs row "dataset_release" _ h3;
          ppi = item-differs row "nominal_ppi" _ h4;
        },
      )

  cyclic_differs-facts :
      (index_b actual_b : Option String)
      → item row "roll_subject_index" ≡ ok index_b
      → item row "roll_subject_id" ≡ ok actual_b
      → cyclic_differs selected release position row index_b actual_b ≡ ok false
      → (get_cell row "cyclic_offset" ≡ some "1")
        × Has row "roll_subject_index" (number (next_subject (subject_at position)))
        × (next : String) × (get_elem? selected (subject_at position % 50) ≡ some next)
        × Has row "roll_subject_id" next
        × (actual_b ≡ some next)
  unfolding cyclic_differs cyclic_tests
  cyclic_differs-facts index_b actual_b has_index has_id h =
      let (h0, (h1, (h2, _))) =
        any_of-false (cyclic_tests selected release position row index_b actual_b) h in
      let (next, found, same_id) =
        selected_differs selected (subject_at position % 50) actual_b
          (rw (← next_subject_lem (subject_at position)) h2) in
      (
        differs-eq _ _ (ok-injective h0),
        (of_option_iff (key_error "roll_subject_index") (lookup "roll_subject_index" row) index_b).0
              has_index
            ∙ ap some (differs-eq index_b _ (ok-injective h1)),
        next,
        found,
        (of_option_iff (key_error "roll_subject_id") (lookup "roll_subject_id" row) actual_b).0
              has_id
            ∙ ap some same_id,
        same_id,
      )

  genuine_order-IsGenuineAt :
      genuine_order selected release plain_roll_genuine position row ≡ ok tt
      → IsGenuineAt selected release position row
  unfolding genuine_order
  genuine_order-IsGenuineAt h =
      let (subject_id, has_id, h1) = bind_returned (item row "subject_id") _ h in
      let (subject_index, has_index, h2) = bind_returned (item row "subject_index") _ h1 in
      let (wrong, tested, h3) =
        bind_returned (order_differs selected release position row subject_index subject_id) _ h2 in
      let right : wrong ≡ false = ground arith in
      let (subject, _, placed) =
        order_differs-IsPlaced "subject_index" "subject_id" subject_index subject_id has_index
          has_id (tested ∙ ap ok right) in
      (subject, placed)

  differ :
      (actual_a actual_b : Option String) (subject next : String)
      → actual_a ≡ some subject
      → actual_b ≡ some next
      → not (same actual_a actual_b) ≡ true
      → str_eq subject next ≡ false
  unfolding same
  differ actual_a actual_b subject next e f h = ground arith

  impostor_order-IsImpostorAt :
      impostor_order selected release plain_roll_next_subject position row ≡ ok tt
      → IsImpostorAt selected release position row
  unfolding impostor_order is_next_subject same
  impostor_order-IsImpostorAt h =
      let (actual_a, has_a, h1) = bind_returned (item row "plain_subject_id") _ h in
      let (actual_b, has_b, h2) = bind_returned (item row "roll_subject_id") _ h1 in
      let (index_a, at_a, h3) = bind_returned (item row "plain_subject_index") _ h2 in
      let (index_b, at_b, h4) = bind_returned (item row "roll_subject_index") _ h3 in
      let (broken, cyclic, h5) =
        bind_returned (cyclic_differs selected release position row index_b actual_b) _ h4 in
      let (whole, h6) = require_returned (not broken) _ _ h5 in
      let (wrong, tested, h7) =
        bind_returned (order_differs selected release position row index_a actual_a) _ h6 in
      let (right, h8) = require_returned (not wrong) _ _ h7 in
      let (subject, is_subject, placed) =
        order_differs-IsPlaced "plain_subject_index" "plain_subject_id" index_a actual_a at_a has_a
          (tested ∙ ap ok (false_of_not wrong right)) in
      let (offset, index, next, chosen, id, is_next) =
        cyclic_differs-facts index_b actual_b at_b has_b
          (cyclic ∙ ap ok (false_of_not broken whole)) in
      (
        subject,
        next,
        placed,
        record {
          offset = offset;
          index = index;
          chosen = chosen;
          id = id;
          others = apart subject next (
              differ actual_a actual_b subject next is_subject is_next
                (require_ok (not (same actual_a actual_b)) _ h8));
        },
      )

module _ (selected : List String) (release : Release) where
  order_from-genuine :
      (position : ℕ) (rows : List Row)
      → order_from selected release plain_roll_genuine position rows ≡ ok tt
      → AllFrom (IsGenuineAt selected release) position rows
  unfolding order_from order_of
  order_from-genuine position [] h = tt
  order_from-genuine position (row ∷ rows) h =
      let (done, first, rest) =
        bind_returned (genuine_order selected release plain_roll_genuine position row) _ h in
      (
        genuine_order-IsGenuineAt selected release position row first,
        order_from-genuine (suc position) rows rest,
      )

  order_from-impostor :
      (position : ℕ) (rows : List Row)
      → order_from selected release plain_roll_next_subject position rows ≡ ok tt
      → AllFrom (IsImpostorAt selected release) position rows
  unfolding order_from order_of
  order_from-impostor position [] h = tt
  order_from-impostor position (row ∷ rows) h =
      let (done, first, rest) =
        bind_returned (impostor_order selected release plain_roll_next_subject position row) _ h in
      (
        impostor_order-IsImpostorAt selected release position row first,
        order_from-impostor (suc position) rows rest,
      )

  -- Where the check accepts the genuine rows, each has at its position the index of the subject, the
  -- subject that was selected under that index, the finger, the release and its resolution.
  pub validate_source_manifest_order-genuine :
      (rows : List Row)
      → validate_source_manifest_order rows selected release plain_roll_genuine ≡ ok tt
      → AllFrom (IsGenuineAt selected release) 0 rows
  unfolding validate_source_manifest_order
  validate_source_manifest_order-genuine rows h = order_from-genuine 0 rows h

  -- Where the check accepts the impostor rows, each has this of its first subject, and its second
  -- subject is another one: the one that was selected next, the first after the fiftieth.
  pub validate_source_manifest_order-impostor :
      (rows : List Row)
      → validate_source_manifest_order rows selected release plain_roll_next_subject ≡ ok tt
      → AllFrom (IsImpostorAt selected release) 0 rows
  unfolding validate_source_manifest_order
  validate_source_manifest_order-impostor rows h = order_from-impostor 0 rows h
