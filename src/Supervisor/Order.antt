-- ===== src/Supervisor/Order.antt =====
-- `_validate_source_manifest_order` of tools/build_supervisor_50x10_v1.py.
pub mod Accepted
use fingerprint_full_matcher.Prelude.{
  ℕ, suc, ◌+◌, ◌-◌, String, ◌<>◌, Bool, true, false, not, ◌&&◌, Option, some, List, [], ◌∷◌,
  if◌then◌else◌,
}
use fingerprint_full_matcher.Prelude.Int.{pos}
use fingerprint_full_matcher.Prelude.Result.{
  Result, ok, ◌>>=◌, ◌>>◌, require, Exception, value_error, subscript,
}
use fingerprint_full_matcher.Supervisor.{
  Release, Kind, plain_roll_genuine, Row, item, get_cell, same, number, subject_at, finger_at,
  next_subject, release_name, upper_name, ppi_text, kind_name, is_next_subject,
}

-- `a or b or …`: the tests after the first that holds are not made, nor those after an exception.
unfoldable pub any_of : List (Result Exception Bool) → Result Exception Bool
any_of [] = ok false
any_of (test ∷ tests) = do b ← test; if b then ok true else any_of tests

-- `value != expected`
abbrev pub differs : Option String → String → Bool
differs value expected = not (same value (some expected))

-- `selected[index - 1]`, for an index from 1.
abbrev pub selected_at : List String → ℕ → Result Exception String
selected_at selected index = subscript selected (pos (index - 1))

module _ (selected : List String) (release : Release) where
  order_message : String → ℕ → Exception
  order_message what position =
      value_error (release_name release <> what <> " at row " <> number (position + 2))

  -- The test of both kinds.
  order_tests : ℕ → Row → Option String → Option String → List (Result Exception Bool)
  order_tests position row index_a actual_a =
      ok (differs index_a (number (subject_at position)))
      ∷ (do expected ← selected_at selected (subject_at position); ok (differs actual_a expected))
      ∷ (do finger ← item row "canonical_finger"; ok (differs finger (number (finger_at position))))
      ∷ (do dataset ← item row "dataset_release"; ok (differs dataset (upper_name release)))
      ∷ (do ppi ← item row "nominal_ppi"; ok (differs ppi (ppi_text release)))
      ∷ []

  order_differs : ℕ → Row → Option String → Option String → Result Exception Bool
  unfolding any_of order_tests
  order_differs position row index_a actual_a = any_of (order_tests position row index_a actual_a)

  cyclic_tests : ℕ → Row → Option String → Option String → List (Result Exception Bool)
  cyclic_tests position row index_b actual_b =
      let expected_b_index = next_subject (subject_at position) in
      ok (differs (get_cell row "cyclic_offset") "1")
      ∷ ok (differs index_b (number expected_b_index))
      ∷ (do expected ← selected_at selected expected_b_index; ok (differs actual_b expected))
      ∷ []

  cyclic_differs : ℕ → Row → Option String → Option String → Result Exception Bool
  unfolding any_of cyclic_tests
  cyclic_differs position row index_b actual_b = any_of (cyclic_tests position row index_b actual_b)

  genuine_order : Kind → ℕ → Row → Result Exception (Unit {0})
  unfolding order_differs order_message
  genuine_order kind position row = do
    subject_id ← item row "subject_id"
    subject_index ← item row "subject_index"
    wrong ← order_differs position row subject_index subject_id
    require (not wrong)
        (order_message (" " <> kind_name kind <> " source order/identity/PPI mismatch") position)
    require (same subject_id subject_id && same subject_index subject_index)
        (order_message " genuine identity mismatch" position)

  impostor_order : Kind → ℕ → Row → Result Exception (Unit {0})
  unfolding order_differs cyclic_differs order_message
  impostor_order kind position row = do
    actual_a ← item row "plain_subject_id"
    actual_b ← item row "roll_subject_id"
    index_a ← item row "plain_subject_index"
    index_b ← item row "roll_subject_index"
    broken ← cyclic_differs position row index_b actual_b
    require (not broken) (order_message " impostor manifest violates cyclic offset 1" position)
    wrong ← order_differs position row index_a actual_a
    require (not wrong)
        (order_message (" " <> kind_name kind <> " source order/identity/PPI mismatch") position)
    require (not (is_next_subject kind && same actual_a actual_b))
        (order_message " impostor identity mismatch" position)

  -- The self manifests have no source of their own, and the code never passes their kinds.
  order_of : Kind → ℕ → Row → Result Exception (Unit {0})
  unfolding genuine_order impostor_order
  order_of plain_roll_genuine position row = genuine_order plain_roll_genuine position row
  order_of kind position row = impostor_order kind position row

  order_from : Kind → ℕ → List Row → Result Exception (Unit {0})
  unfolding order_of
  order_from kind position [] = ok tt
  order_from kind position (row ∷ rows) = do
    order_of kind position row
    order_from kind (suc position) rows

unfoldable pub validate_source_manifest_order :
    List Row → List String → Release → Kind → Result Exception (Unit {0})
unfolding order_from
validate_source_manifest_order rows selected release kind = order_from selected release kind 0 rows
