-- ===== src/Supervisor/Across/Alike.antt =====
-- Rows whose sources agree are alike in both releases.
use fingerprint_full_matcher.Prelude.{String, ◌≡◌}
use fingerprint_full_matcher.Supervisor.{
  Release, sd300b, sd300c, Kind, plain_roll_genuine, plain_roll_next_subject, Row, get_cell, cell,
}
use fingerprint_full_matcher.Prelude.Int.{ℤ}
use fingerprint_full_matcher.Supervisor.Paths.{Parts, Disk}
use fingerprint_full_matcher.Supervisor.Columns.{logical_fields}
use fingerprint_full_matcher.Supervisor.Rows.{
  common_row, subject_keys, update, plain, roll, written,
}
use fingerprint_full_matcher.Supervisor.Across.{logical_values}
use fingerprint_full_matcher.Supervisor.Across.Read.{
  common_of, Same, self_made, plain_roll_made, genuine_id, impostor_id,
}

module _ (disk : Disk) (dataset_root : Parts) where
  -- Rows of sources that agree have the same logical structure.
  unfoldable pub Alike : Kind → (Release → Row → ℤ → String → String → Row) → Type 0
  Alike kind made =
      (b c : Row) (finger : ℤ) (p q r s : String)
      → Same kind b c
      → logical_values (written (made sd300b b finger p q))
        ≡ logical_values (written (made sd300c c finger r s))

  pub plain-Alike : Alike plain_roll_genuine (self_made disk dataset_root plain)
  unfolding Alike logical_values written get_cell cell update common_row common_of self_made
      subject_keys logical_fields
  plain-Alike b c finger p q r s
        (
          pair_id,
          (
            index,
            (
              id,
              (cf, (hand, (name, (frgp_a, (frgp_b, (status_a, (status_b, (pair_status, _)))))))),
            ),
          ),
        ) =
      rw (id, index, cf, hand, name, frgp_a, status_a, pair_status, pair_id)

  pub roll-Alike : Alike plain_roll_genuine (self_made disk dataset_root roll)
  unfolding Alike logical_values written get_cell cell update common_row common_of self_made
      subject_keys logical_fields
  roll-Alike b c finger p q r s
        (
          pair_id,
          (
            index,
            (
              id,
              (cf, (hand, (name, (frgp_a, (frgp_b, (status_a, (status_b, (pair_status, _)))))))),
            ),
          ),
        ) =
      rw (id, index, cf, hand, name, frgp_b, status_b, pair_status, pair_id)

  pub genuine-Alike :
      Alike plain_roll_genuine
        (plain_roll_made disk dataset_root plain_roll_genuine (genuine_id disk dataset_root))
  unfolding Alike logical_values written get_cell cell update common_row common_of plain_roll_made
      genuine_id subject_keys logical_fields
  genuine-Alike b c finger p q r s
        (
          pair_id,
          (
            index,
            (
              id,
              (cf, (hand, (name, (frgp_a, (frgp_b, (status_a, (status_b, (pair_status, _)))))))),
            ),
          ),
        ) =
      rw (id, index, cf, hand, name, frgp_a, frgp_b, status_a, status_b, pair_status, pair_id)

  pub impostor-Alike :
      Alike plain_roll_next_subject
        (plain_roll_made disk dataset_root plain_roll_next_subject (impostor_id disk dataset_root))
  unfolding Alike logical_values written get_cell cell update common_row common_of plain_roll_made
      impostor_id subject_keys logical_fields
  impostor-Alike b c finger p q r s
        (
          pair_id,
          (
            index_a,
            (
              id_a,
              (
                index_b,
                (
                  id_b,
                  (
                    offset,
                    (
                      cf,
                      (hand, (name, (frgp_a, (frgp_b, (status_a, (status_b, (pair_status, _))))))),
                    ),
                  ),
                ),
              ),
            ),
          ),
        ) =
      rw (
        id_a, id_b, index_a, index_b, cf, hand, name, frgp_a, frgp_b, status_a, status_b,
        pair_status, pair_id,
      )
