-- ===== src/Supervisor/Rows/Fields.antt =====
-- A row with the fields that the builder gives it, read from the written file, is one that the
-- validator accepts.
use fingerprint_full_matcher.Prelude.{
  ℕ, ◌/◌, String, true, false, Option, none, some, List, ◌≡◌, ◌≢◌, refl, ap, sym, get_elem?,
}
use fingerprint_full_matcher.Prelude.Int.{pos}
use fingerprint_full_matcher.Prelude.Result.{ok}
use fingerprint_full_matcher.Supervisor.{
  Release, Kind, plain_self, roll_self, plain_roll_genuine, plain_roll_next_subject,
  is_next_subject, Row, get_cell, cell, number, subject_at, finger_at, shown,
}
use fingerprint_full_matcher.Supervisor.Paths.{Parts, Disk, validate_dataset_path}
use fingerprint_full_matcher.Supervisor.Rows.{Common, common_row, Sides, update, written}
use fingerprint_full_matcher.Supervisor.Validate.{
  get_default, is_falsy, is_lower_sha256, is_seen, is_self, expected_hand_and_name, expected_types,
  expected_pair_id, index_b_of,
}
use fingerprint_full_matcher.Supervisor.Validate.OneRow.{place_b, IsRowAt}

-- The texts that a built row takes from its source, and the images' paths.
pub record Texts : Type 0 where
  pub subject_a : String
  pub subject_b : String
  pub pair_status : String
  pub source_pair_id : String
  pub relative_a : String
  pub relative_b : String
  pub sha256_a : String
  pub sha256_b : String
  pub frgp_a : String
  pub frgp_b : String
  pub status_a : String
  pub status_b : String

module _ (release : Release) (kind : Kind) (position : ℕ) (t : Texts) where
  unfoldable pub common : Common
  common = record {
    subject_index_a = some (number (subject_at position));
    subject_id_a = some t.subject_a;
    subject_index_b = some (number (index_b_of kind (subject_at position)));
    subject_id_b = some t.subject_b;
    canonical_finger = some (number (finger_at position));
    hand = some (expected_hand_and_name (finger_at position)).0;
    finger_name = some (expected_hand_and_name (finger_at position)).1;
    pair_status = some t.pair_status;
    source_pair_id = some t.source_pair_id;
  }

  unfoldable pub sides : Sides
  sides = record {
    pair_id = expected_pair_id kind t.subject_a t.subject_b (pos (finger_at position));
    capture_type_a = (expected_types kind).0;
    capture_type_b = (expected_types kind).1;
    relative_path_a = t.relative_a;
    relative_path_b = t.relative_b;
    sha256_a = some t.sha256_a;
    sha256_b = some t.sha256_b;
    source_frgp_a = some t.frgp_a;
    source_frgp_b = some t.frgp_b;
    image_status_a = some t.status_a;
    image_status_b = some t.status_b;
  }

  unfoldable pub built : Row
  unfolding common sides
  built = update (common_row kind release common) sides

-- The pair's id.
abbrev pub id_at : Kind → ℕ → Texts → String
id_at kind position t = expected_pair_id kind t.subject_a t.subject_b (pos (finger_at position))

pub some_eq : (s t : String) → ◌≡◌ {A = Option String} (some s) (some t) → s ≡ t
some_eq s t e = cc

self_kind : (kind : Kind) (i : ℕ) → is_self kind ≡ true → index_b_of kind i ≡ i
unfolding is_self index_b_of is_next_subject
self_kind plain_self i h = refl
self_kind roll_self i h = refl
self_kind plain_roll_genuine i h = cc
self_kind plain_roll_next_subject i h = cc

self_one : (kind : Kind) → is_self kind ≡ true → is_next_subject kind ≡ false
unfolding is_self is_next_subject
self_one plain_self h = refl
self_one roll_self h = refl
self_one plain_roll_genuine h = refl
self_one plain_roll_next_subject h = cc

module _ (disk : Disk) (dataset_root : Parts) (release : Release) (kind : Kind)
    (selected : List String) where
  -- What must hold of the texts.
  pub record AreFit (position : ℕ) (t : Texts) : Type 0 where
    pub chosen_a : get_elem? selected (position / 10) ≡ some t.subject_a
    pub chosen_b : get_elem? selected (place_b kind position) ≡ some t.subject_b
    pub others : is_next_subject kind ≡ true → t.subject_a ≢ t.subject_b
    pub one : is_next_subject kind ≡ false → t.subject_a ≡ t.subject_b
    pub source : is_falsy (some t.source_pair_id) ≡ false
    pub digest_a : is_lower_sha256 (some t.sha256_a) ≡ ok true
    pub digest_b : is_lower_sha256 (some t.sha256_b) ≡ ok true
    pub status_a : is_falsy (some t.status_a) ≡ false
    pub status_b : is_falsy (some t.status_b) ≡ false
    pub path_a :
        (context : String)
        → validate_dataset_path disk dataset_root release (some t.relative_a) context ≡ none
    pub path_b :
        (context : String)
        → validate_dataset_path disk dataset_root release (some t.relative_b) context ≡ none
    pub alike :
        is_self kind ≡ true
        → (t.relative_a ≡ t.relative_b)
          × (t.sha256_a ≡ t.sha256_b)
          × (t.frgp_a ≡ t.frgp_b)
          × (t.status_a ≡ t.status_b)

  pub built-IsRowAt :
      (seen : List (Option String)) (position : ℕ) (t : Texts)
      → AreFit position t
      → is_seen (some (id_at kind position t)) seen ≡ false
      → IsRowAt disk dataset_root release kind selected seen position
          (written (built release kind position t))
  unfolding get_cell cell shown get_default written built common sides update common_row
  built-IsRowAt seen position t f fresh = record {
    identified = record {
      kind_is = refl;
      release_is = refl;
      index_a = refl;
      finger = refl;
      hand = refl;
      finger_name = refl;
    };
    chosen_a = (t.subject_a, f.chosen_a, refl);
    paired = record {
      others = λ next e. f.others next (some_eq t.subject_a t.subject_b e);
      one = λ next. ap some (f.one next);
      index_b = refl;
      type_a = refl;
      type_b = refl;
    };
    chosen_b = (t.subject_b, f.chosen_b, refl);
    content = record {
      ppi_a = refl;
      ppi_b = refl;
      pair_id = refl;
      fresh = fresh;
      source = f.source;
    };
    digest_a = f.digest_a;
    digest_b = f.digest_b;
    side_a = record { status = f.status_a; path = f.path_a _ };
    side_b = record { status = f.status_b; path = f.path_b _ };
    agreeing = (
      λ self. ap (λ i. some (number i)) (sym (self_kind kind (subject_at position) self)),
      (
        λ self. ap some (f.one (self_one kind self)),
        (
          λ self. ap some (f.alike self).0,
          (
            λ self. ap some (f.alike self).1,
            (λ self. ap some (f.alike self).2, (λ self. ap some (f.alike self).3, tt)),
          ),
        ),
      ),
    );
  }
