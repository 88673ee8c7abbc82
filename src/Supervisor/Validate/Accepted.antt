-- ===== src/Supervisor/Validate/Accepted.antt =====
-- What the validator's checks of a manifest's row say, group by group.
use fingerprint_full_matcher.Prelude.{
  ℕ, String, ◌<>◌, Bool, true, false, not, Option, none, some, List, [], ◌∷◌, ◌≡◌, ◌≢◌, ◌↔◌, map,
  All, ap,
}
use fingerprint_full_matcher.Prelude.Int.{pos}
use fingerprint_full_matcher.Supervisor.{
  Release, release_name, ppi_text, Kind, kind_name, is_next_subject, Row, get_cell, number,
  subject_at, finger_at, shown,
}
use fingerprint_full_matcher.Supervisor.Paths.{Parts, Disk, validate_dataset_path}
use fingerprint_full_matcher.Supervisor.Validate.{
  get_default, is_falsy, expected_hand_and_name, expected_pair_id, expected_types, is_self, is_seen,
  index_b_of, context_of, identity_checks, pairing_checks, content_checks, side_checks, self_check,
  self_checks, self_suffixes,
}
use fingerprint_full_matcher.Supervisor.Validate.Checks.{
  Pass, fails_iff, differs_iff, both_differ_iff, apart_of, equal_if, equal_of, not_both,
  not_unequal, not_neither, get_default-get_cell, not_png, true_of_not,
}

module _ (disk : Disk) (dataset_root : Parts) (release : Release) (kind : Kind)
    (selected : List String) (position : ℕ) (row : Row) where
  -- The kind, the release, the first subject's index, the finger and its names, at the position.
  pub record IsIdentified : Type 0 where
    pub kind_is : get_cell row "comparison_kind" ≡ some (kind_name kind)
    pub release_is : get_cell row "dataset_release" ≡ some (release_name release)
    pub index_a : get_cell row "subject_index_a" ≡ some (number (subject_at position))
    pub finger : get_cell row "canonical_finger" ≡ some (number (finger_at position))
    pub hand : get_cell row "hand" ≡ some (expected_hand_and_name (finger_at position)).0
    pub finger_name :
        get_cell row "finger_name" ≡ some (expected_hand_and_name (finger_at position)).1

  -- The second subject's index, and the captures of both sides. Self and genuine pairs are of one
  -- subject, and the others of two.
  pub record IsPaired : Type 0 where
    pub others :
        is_next_subject kind ≡ true → get_cell row "subject_id_a" ≢ get_cell row "subject_id_b"
    pub one :
        is_next_subject kind ≡ false → get_cell row "subject_id_a" ≡ get_cell row "subject_id_b"
    pub index_b :
        get_cell row "subject_index_b" ≡ some (number (index_b_of kind (subject_at position)))
    pub type_a : get_cell row "capture_type_a" ≡ some (expected_types kind).0
    pub type_b : get_cell row "capture_type_b" ≡ some (expected_types kind).1

  pub record HasContent (seen : List (Option String)) : Type 0 where
    pub ppi_a : get_cell row "nominal_ppi_a" ≡ some (ppi_text release)
    pub ppi_b : get_cell row "nominal_ppi_b" ≡ some (ppi_text release)
    pub pair_id :
        get_cell row "pair_id"
        ≡ some (
            expected_pair_id kind
              (shown (get_default row "subject_id_a"))
              (shown (get_default row "subject_id_b"))
              (pos (finger_at position)))
    pub fresh : is_seen (get_default row "pair_id") seen ≡ false
    pub source : is_falsy (get_cell row "source_pair_id") ≡ false

  pub record HasSide (side : String) : Type 0 where
    pub status : is_falsy (get_cell row ("image_status_" <> side)) ≡ false
    pub path :
        validate_dataset_path disk dataset_root release
          (get_default row ("relative_path_" <> side))
          (context_of release kind position <> (" side " <> side))
        ≡ none

  pub identity_iff :
      (wrong : Bool)
      → Pass (identity_checks disk dataset_root release kind selected position row wrong)
        ↔ (IsIdentified × (wrong ≡ false))
  unfolding identity_checks
  identity_iff wrong = (
    λ (k0, (k1, (k2, (k3, (k4, (k5, _)))))). (
      record {
        kind_is = (differs_iff _ _ _).0 k0;
        release_is = (differs_iff _ _ _).0 k1;
        index_a = (differs_iff _ _ _).0 k2;
        finger = (differs_iff _ _ _).0 k4;
        hand = ((both_differ_iff _ _ _ _ _).0 k5).0;
        finger_name = ((both_differ_iff _ _ _ _ _).0 k5).1;
      },
      (fails_iff wrong _).0 k3,
    ),
    λ (r, w). (
      (differs_iff _ _ _).1 r.kind_is,
      (
        (differs_iff _ _ _).1 r.release_is,
        (
          (differs_iff _ _ _).1 r.index_a,
          (
            (fails_iff wrong _).1 w,
            (
              (differs_iff _ _ _).1 r.finger,
              ((both_differ_iff _ _ _ _ _).1 (r.hand, r.finger_name), tt),
            ),
          ),
        ),
      ),
    ),
  )

  pub pairing_iff :
      (wrong : Bool)
      → Pass (pairing_checks disk dataset_root release kind selected position row wrong)
        ↔ (IsPaired × (wrong ≡ false))
  unfolding pairing_checks
  pairing_iff wrong = (
    λ (k0, (k1, (k2, (k3, (k4, _))))). (
      record {
        others = λ next e. apart_of (is_next_subject kind) _ _ ((fails_iff _ _).0 k0) next e;
        one = λ next. equal_of (is_next_subject kind) _ _ ((fails_iff _ _).0 k1) next;
        index_b = (differs_iff _ _ _).0 k2;
        type_a = ((both_differ_iff _ _ _ _ _).0 k4).0;
        type_b = ((both_differ_iff _ _ _ _ _).0 k4).1;
      },
      (fails_iff wrong _).0 k3,
    ),
    λ (r, w). (
      (fails_iff _ _).1 (not_both (is_next_subject kind) _ _ r.others),
      (
        (fails_iff _ _).1 (not_neither (is_next_subject kind) _ _ r.one),
        (
          (differs_iff _ _ _).1 r.index_b,
          ((fails_iff wrong _).1 w, ((both_differ_iff _ _ _ _ _).1 (r.type_a, r.type_b), tt)),
        ),
      ),
    ),
  )

  pub content_iff :
      (seen : List (Option String))
      → Pass (content_checks disk dataset_root release kind selected position row seen)
        ↔ HasContent seen
  unfolding content_checks
  content_iff seen =
      let ppis =
        both_differ_iff (get_cell row "nominal_ppi_a") (get_cell row "nominal_ppi_b")
          (ppi_text release) (ppi_text release)
          (context_of release kind position <> ": nominal PPI mismatch") in
      (
        λ (k0, (k1, (k2, (k3, (k4, _))))). record {
          ppi_a = (ppis.0 k0).0;
          ppi_b = (ppis.0 k0).1;
          pair_id = (differs_iff _ _ _).0 k2;
          fresh = (fails_iff _ _).0 k3;
          source = (fails_iff _ _).0 k4;
        },
        λ r. (
          ppis.1 (r.ppi_a, r.ppi_b),
          (
            (fails_iff _ _).1 (
                not_png release _ _ (get_default-get_cell row _ r.ppi_a)
                  (get_default-get_cell row _ r.ppi_b)),
            (
              (differs_iff _ _ _).1 r.pair_id,
              ((fails_iff _ _).1 r.fresh, ((fails_iff _ _).1 r.source, tt)),
            ),
          ),
        ),
      )

  pub side_iff :
      (side : String) (digest : Bool)
      → Pass (side_checks disk dataset_root release kind selected position row side digest)
        ↔ (HasSide side × (digest ≡ true))
  unfolding side_checks
  side_iff side digest = (
    λ (k0, (k1, (k2, _))). (
      record { status = (fails_iff _ _).0 k1; path = k2 },
      true_of_not digest ((fails_iff _ _).0 k0),
    ),
    λ (r, d). ((fails_iff _ _).1 (ap not d), ((fails_iff _ _).1 r.status, (r.path, tt))),
  )

  -- The two sides of a self pair agree under a suffix.
  abbrev pub Agree : String → Type 0
  Agree suffix = is_self kind ≡ true → get_cell row (suffix <> "_a") ≡ get_cell row (suffix <> "_b")

  self_check_iff :
      (suffix : String)
      → (self_check disk dataset_root release kind selected position row suffix ≡ none)
        ↔ Agree suffix
  unfolding self_check
  self_check_iff suffix = (
    λ k s. equal_if (is_self kind) _ _ ((fails_iff _ _).0 k) s,
    λ h. (fails_iff _ _).1 (not_unequal (is_self kind) _ _ h),
  )

  suffixes_iff :
      (suffixes : List String)
      → Pass (map (self_check disk dataset_root release kind selected position row) suffixes)
        ↔ All Agree suffixes
  suffixes_iff [] = (λ h. tt, λ h. tt)
  suffixes_iff (s ∷ ss) = (
    λ h. ((self_check_iff s).0 h.0, (suffixes_iff ss).0 h.1),
    λ h. ((self_check_iff s).1 h.0, (suffixes_iff ss).1 h.1),
  )

  pub self_iff :
      Pass (self_checks disk dataset_root release kind selected position row)
      ↔ All Agree self_suffixes
  unfolding self_checks
  self_iff = suffixes_iff self_suffixes
