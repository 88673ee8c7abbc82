-- ===== src/Supervisor/Validate/Rows.antt =====
-- What the validator accepts: a manifest without an error, row by row.
use fingerprint_full_matcher.Prelude.{
  append_empty, ℕ, suc, ◌+◌, ◌/◌, String, Option, List, [], ◌∷◌, ◌≡◌, ◌≢◌, ◌↔◌, refl, ap, sym, ◌∙◌,
  length, ◌*◌, ◌≤◌, arith,
}
use fingerprint_full_matcher.Prelude.Result.{ok, bind_returned, ok-injective}
use fingerprint_full_matcher.Supervisor.{Release, Kind, Row, get_cell, subject_at}
use fingerprint_full_matcher.Supervisor.Order.Accepted.{subject_at_lem}
use fingerprint_full_matcher.Supervisor.Paths.{Parts, Disk}
use fingerprint_full_matcher.Supervisor.Validate.{
  get_default, is_other_subject, validate_row, rows_from, validate_manifest_rows,
}
use fingerprint_full_matcher.Supervisor.Validate.OneRow.{
  within, IsRowAt, validate_row-IsRowAt, IsRowAt-validate_row,
}

module _ (disk : Disk) (dataset_root : Parts) (release : Release) (kind : Kind)
    (selected : List String) where
  -- Each row is right at its position, and no pair's id is one of an earlier row.
  abbrev pub AreRows : ℕ → List (Option String) → List Row → Type 0
  AreRows position seen [] = Unit
  AreRows position seen (row ∷ rows) =
      IsRowAt disk dataset_root release kind selected seen position row
      × AreRows (suc position) (get_default row "pair_id" ∷ seen) rows

  rows_from_iff :
      (position : ℕ) (seen : List (Option String)) (rows : List Row)
      → selected ≢ []
      → (rows_from disk dataset_root release kind selected position seen rows ≡ ok [])
        ↔ AreRows position seen rows
  unfolding rows_from
  rows_from_iff position seen [] filled = (λ h. tt, λ h. refl)
  rows_from_iff position seen (row ∷ rows) filled =
      let later = rows_from_iff (suc position) (get_default row "pair_id" ∷ seen) rows filled in
      (
        λ h.
            let (errors, first, h1) =
              bind_returned (validate_row disk dataset_root release kind selected position seen row)
                _ h in
            let (rest, others, h2) =
              bind_returned
                (rows_from disk dataset_root release kind selected (suc position)
                  (get_default row "pair_id" ∷ seen) rows)
                _ h1 in
            let (none_here, none_later) = append_empty errors rest (ok-injective h2) in
            (
              validate_row-IsRowAt disk dataset_root release kind selected seen position row filled
                  (first ∙ ap ok none_here),
              later.0 (others ∙ ap ok none_later),
            ),
        λ h. rw (
          IsRowAt-validate_row disk dataset_root release kind selected seen position row filled h.0,
          later.1 h.1,
        ),
      )

  -- Where some subject was selected, the validator has no message about the rows of a manifest exactly
  -- if each row is right at its position, and no pair's id is one of an earlier row.
  pub validate_manifest_rows_iff :
      (rows : List Row)
      → selected ≢ []
      → (validate_manifest_rows disk dataset_root release kind selected rows ≡ ok [])
        ↔ AreRows 0 [] rows
  unfolding validate_manifest_rows
  validate_manifest_rows_iff rows filled = rows_from_iff 0 [] rows filled

  rows_from-within :
      (position : ℕ) (seen : List (Option String)) (rows : List Row) (errors : List String)
      → selected ≢ []
      → position ≤ length selected * 10
      → rows_from disk dataset_root release kind selected position seen rows ≡ ok errors
      → position + length rows ≤ length selected * 10
  unfolding rows_from validate_row
  rows_from-within position seen [] errors filled start h = omega arith
  rows_from-within position seen (row ∷ rows) errors filled start h =
      let (first, made, h1) =
        bind_returned (validate_row disk dataset_root release kind selected position seen row) _
          h in
      let (rest, later, _) =
        bind_returned
          (rows_from disk dataset_root release kind selected (suc position)
            (get_default row "pair_id" ∷ seen) rows)
          _ h1 in
      let (wrong, at_a, _) =
        bind_returned
          (is_other_subject selected (subject_at position) (get_cell row "subject_id_a")) _ made in
      let here = within selected (position / 10) _ wrong filled (
        ap (λ i. is_other_subject selected i (get_cell row "subject_id_a"))
          (sym (subject_at_lem position))
        ∙ at_a) in
      let next = rows_from-within (suc position) _ rows rest filled (omega arith) later in
      omega arith

  -- Where some subject was selected, the validator returns errors, and does not raise, only about a
  -- manifest of at most ten rows for each selected subject.
  pub validate_manifest_rows-within :
      (rows : List Row) (errors : List String)
      → selected ≢ []
      → validate_manifest_rows disk dataset_root release kind selected rows ≡ ok errors
      → length rows ≤ length selected * 10
  unfolding validate_manifest_rows
  validate_manifest_rows-within rows errors filled h =
      let bound = rows_from-within 0 [] rows errors filled (omega arith) h in omega arith
