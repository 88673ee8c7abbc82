-- ===== src/Supervisor/Build/Accepted.antt =====
-- The manifests that the builder makes of ordered source rows are what the validator wants.
use fingerprint_full_matcher.Prelude.{
  ℕ, suc, ◌/◌, String, true, false, none, some, List, [], ◌∷◌, map, ◌≡◌, ◌≢◌, refl, get_elem?, All,
  AllFrom,
}
use fingerprint_full_matcher.Prelude.Result.{Result, ok, Exception}
use fingerprint_full_matcher.Supervisor.{
  Release, Kind, plain_self, roll_self, plain_roll_genuine, plain_roll_next_subject,
  is_next_subject, Row,
}
use fingerprint_full_matcher.Supervisor.Order.Accepted.{
  IsGenuineAt, IsImpostorAt, validate_source_manifest_order-genuine,
  validate_source_manifest_order-impostor,
}
use fingerprint_full_matcher.Supervisor.Order.{validate_source_manifest_order}
use fingerprint_full_matcher.Supervisor.Paths.{Parts, Disk, relative_to, validate_dataset_path}
use fingerprint_full_matcher.Supervisor.Paths.Images.{IsPlain, image_relative-accepted}
use fingerprint_full_matcher.Supervisor.Rows.{
  genuine_row, impostor_row, self_row, plain, roll, written,
}
use fingerprint_full_matcher.Supervisor.Rows.Fields.{Texts, built, AreFit}
use fingerprint_full_matcher.Supervisor.Rows.Made.{
  HasNames, HasImage, ImageKeys, plain_keys, roll_keys, texts, genuine_row-built, plain_self-built,
  roll_self-built, impostor_row-built,
}
use fingerprint_full_matcher.Supervisor.Validate.{is_self, validate_manifest_rows}
use fingerprint_full_matcher.Supervisor.Validate.OneRow.{place_b}
use fingerprint_full_matcher.Supervisor.Validate.Rows.{AreRows, validate_manifest_rows_iff}
use fingerprint_full_matcher.Supervisor.Build.{Manifests, rows_of, release_manifests}
use fingerprint_full_matcher.Supervisor.Build.Manifest.{IsCohort, collect-AreRows}

-- `resolve` is stable, and below the dataset's root it gives plain names only.
pub record IsTidy (disk : Disk) (dataset_root : Parts) : Type 0 where
  pub stable : (path : Parts) → disk.resolve (disk.resolve path) ≡ disk.resolve path
  pub names :
      (path rest : Parts)
      → relative_to (disk.resolve dataset_root) (disk.resolve path) ≡ some rest
      → All IsPlain rest

module _ (disk : Disk) (dataset_root : Parts) (tidy : IsTidy disk dataset_root) (release : Release)
    (selected : List String) where
  -- A source row with names and images.
  pub record IsComplete (position : ℕ) (source : Row) : Type 0 where
    pub names : HasNames position source
    pub a : HasImage disk dataset_root release plain_keys source
    pub b : HasImage disk dataset_root release roll_keys source

  path_of :
      (keys : ImageKeys) (source : Row) (image : HasImage disk dataset_root release keys source)
      (context : String)
      → validate_dataset_path disk dataset_root release (some image.relative) context ≡ none
  path_of keys source image context =
      (image_relative-accepted disk dataset_root release tidy.stable tidy.names (some image.path)
        image.relative context image.accepted).0

  module _ (kind : Kind) (position : ℕ) (source : Row) (names : HasNames position source)
      {keys_a keys_b : ImageKeys} (a : HasImage disk dataset_root release keys_a source)
      (b : HasImage disk dataset_root release keys_b source) where
    -- The subjects, and for a self pair the equality of its images, are all that depends on the kind.
    fit :
        (s t : String)
        → get_elem? selected (position / 10) ≡ some s
        → get_elem? selected (place_b kind position) ≡ some t
        → (is_next_subject kind ≡ true → s ≢ t)
        → (is_next_subject kind ≡ false → s ≡ t)
        → (is_self kind ≡ true
            → (a.relative ≡ b.relative)
              × (a.sha256 ≡ b.sha256)
              × (a.frgp ≡ b.frgp)
              × (a.status ≡ b.status))
        → AreFit disk dataset_root release kind selected position
            (texts disk dataset_root release position source names s t a b)
    unfolding texts
    fit s t chosen_a chosen_b others one alike = record {
      chosen_a = chosen_a;
      chosen_b = chosen_b;
      others = others;
      one = one;
      source = names.filled;
      digest_a = a.lower;
      digest_b = b.lower;
      status_a = a.filled;
      status_b = b.filled;
      path_a = path_of keys_a source a;
      path_b = path_of keys_b source b;
      alike = alike;
    }

  abbrev pub IsGenuineSource : ℕ → Row → Type 0
  IsGenuineSource p source = IsGenuineAt selected release p source × IsComplete p source

  abbrev pub IsImpostorSource : ℕ → Row → Type 0
  IsImpostorSource p source = IsImpostorAt selected release p source × IsComplete p source

  abbrev Makes : Kind → (Row → Result Exception Row) → ℕ → Row → Type 0
  Makes kind make p source =
      (t : Texts) × (make source ≡ ok (built release kind p t))
      × AreFit disk dataset_root release kind selected p t

  genuine_row-Makes :
      (p : ℕ) (source : Row)
      → IsGenuineSource p source
      → Makes plain_roll_genuine (genuine_row disk dataset_root release) p source
  unfolding place_b is_next_subject is_self
  genuine_row-Makes p source ((subject, placed), c) = (
    texts disk dataset_root release p source c.names subject subject c.a c.b,
    genuine_row-built disk dataset_root release p source c.names selected subject placed c.a c.b,
    fit plain_roll_genuine p source c.names c.a c.b subject subject placed.chosen placed.chosen
        (λ e. cc) (λ e. refl) (λ e. absurd (cc)),
  )

  plain_self-Makes :
      (p : ℕ) (source : Row)
      → IsGenuineSource p source
      → Makes plain_self (λ row. self_row disk dataset_root release row plain) p source
  unfolding place_b is_next_subject
  plain_self-Makes p source ((subject, placed), c) = (
    texts disk dataset_root release p source c.names subject subject c.a c.a,
    plain_self-built disk dataset_root release p source c.names selected subject placed c.a c.b,
    fit plain_self p source c.names c.a c.a subject subject placed.chosen placed.chosen (λ e. cc)
        (λ e. refl) (λ e. (refl, refl, refl, refl)),
  )

  roll_self-Makes :
      (p : ℕ) (source : Row)
      → IsGenuineSource p source
      → Makes roll_self (λ row. self_row disk dataset_root release row roll) p source
  unfolding place_b is_next_subject
  roll_self-Makes p source ((subject, placed), c) = (
    texts disk dataset_root release p source c.names subject subject c.b c.b,
    roll_self-built disk dataset_root release p source c.names selected subject placed c.a c.b,
    fit roll_self p source c.names c.b c.b subject subject placed.chosen placed.chosen (λ e. cc)
        (λ e. refl) (λ e. (refl, refl, refl, refl)),
  )

  impostor_row-Makes :
      (p : ℕ) (source : Row)
      → IsImpostorSource p source
      → Makes plain_roll_next_subject (impostor_row disk dataset_root release) p source
  unfolding place_b is_next_subject is_self
  impostor_row-Makes p source ((subject, next, placed, paired), c) = (
    texts disk dataset_root release p source c.names subject next c.a c.b,
    impostor_row-built disk dataset_root release p source c.names selected subject next placed
        paired c.a c.b,
    fit plain_roll_next_subject p source c.names c.a c.b subject next placed.chosen paired.chosen
        (λ e. paired.others) (λ e. absurd (cc)) (λ e. absurd (cc)),
  )

  both :
      (P Q : ℕ → Row → Type 0) (p : ℕ) (rows : List Row)
      → AllFrom P p rows
      → AllFrom Q p rows
      → AllFrom (λ q row. P q row × Q q row) p rows
  both P Q p [] f g = tt
  both P Q p (row ∷ rows) f g = ((f.0, g.0), both P Q (suc p) rows f.1 g.1)

  module _ (cohort : IsCohort selected) (genuine impostor : List Row) where
    accepted :
        (m : Manifests)
        → AreRows disk dataset_root release plain_self selected 0 [] m.of_plain_self
        → AreRows disk dataset_root release roll_self selected 0 [] m.of_roll_self
        → AreRows disk dataset_root release plain_roll_genuine selected 0 [] m.of_genuine
        → AreRows disk dataset_root release plain_roll_next_subject selected 0 [] m.of_next_subject
        → (kind : Kind)
        → validate_manifest_rows disk dataset_root release kind selected (rows_of m kind) ≡ ok []
    unfolding rows_of
    accepted m p r g i plain_self =
        (validate_manifest_rows_iff disk dataset_root release plain_self selected m.of_plain_self
            cohort.filled).1
          p
    accepted m p r g i roll_self =
        (validate_manifest_rows_iff disk dataset_root release roll_self selected m.of_roll_self
            cohort.filled).1
          r
    accepted m p r g i plain_roll_genuine =
        (validate_manifest_rows_iff disk dataset_root release plain_roll_genuine selected
            m.of_genuine cohort.filled).1
          g
    accepted m p r g i plain_roll_next_subject =
        (validate_manifest_rows_iff disk dataset_root release plain_roll_next_subject selected
            m.of_next_subject cohort.filled).1
          i

    -- For a disk whose paths are tidy and a cohort of different subjects with ids of one length: from
    -- genuine and impostor rows that pass the order check and are complete, the release's four
    -- manifests are made, and the validator has no message about the rows of any of them.
    pub release_manifests-accepted :
        validate_source_manifest_order genuine selected release plain_roll_genuine ≡ ok tt
        → validate_source_manifest_order impostor selected release plain_roll_next_subject ≡ ok tt
        → AllFrom IsComplete 0 genuine
        → AllFrom IsComplete 0 impostor
        → (m : Manifests) × (release_manifests disk dataset_root release genuine impostor ≡ ok m)
          × ((kind : Kind)
              → validate_manifest_rows disk dataset_root release kind selected (rows_of m kind)
                ≡ ok [])
    unfolding release_manifests
    release_manifests-accepted ordered ordered_next complete complete_next =
        let good =
          both (IsGenuineAt selected release) IsComplete 0 genuine
            (validate_source_manifest_order-genuine selected release genuine ordered) complete in
        let good_next =
          both (IsImpostorAt selected release) IsComplete 0 impostor
            (validate_source_manifest_order-impostor selected release impostor ordered_next)
            complete_next in
        let (rows_p, made_p, right_p) =
          collect-AreRows disk dataset_root release plain_self selected cohort _ IsGenuineSource
            plain_self-Makes genuine good in
        let (rows_r, made_r, right_r) =
          collect-AreRows disk dataset_root release roll_self selected cohort _ IsGenuineSource
            roll_self-Makes genuine good in
        let (rows_g, made_g, right_g) =
          collect-AreRows disk dataset_root release plain_roll_genuine selected cohort _
            IsGenuineSource genuine_row-Makes genuine good in
        let (rows_i, made_i, right_i) =
          collect-AreRows disk dataset_root release plain_roll_next_subject selected cohort _
            IsImpostorSource impostor_row-Makes impostor good_next in
        let m : Manifests = record {
          of_plain_self = map written rows_p;
          of_roll_self = map written rows_r;
          of_genuine = map written rows_g;
          of_next_subject = map written rows_i;
        } in
        (m, rw (made_p, made_r, made_g, made_i), accepted m right_p right_r right_g right_i)
