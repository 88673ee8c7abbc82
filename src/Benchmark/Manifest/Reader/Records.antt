-- ===== src/Benchmark/Manifest/Reader/Records.antt =====
-- What every record of a manifest that was read satisfies.
use mathlib.Core.Path.{subst}
use fingerprint_full_matcher.Prelude.{
  ℕ, suc, String, true, false, Option, none, some, List, [], ◌∷◌, ◌==◌, length, ◌≡◌, refl, arith,
  ap, sym, ◌∙◌, ==_iff,
}
use fingerprint_full_matcher.Prelude.Int.{ℤ}
use fingerprint_full_matcher.Prelude.Dict.{Dict, lookup}
use fingerprint_full_matcher.Prelude.Result.{
  Result, ok, err, ◌>>=◌, ◌>>◌, require, Exception, ok-injective, bind_returned, require_returned,
}
use fingerprint_full_matcher.Benchmark.Manifest.{PairRecord}
use fingerprint_full_matcher.Benchmark.Manifest.Paths.{
  Parts, ManifestError, manifest_error, raised, Disk, resolve_dataset_path, is_below,
}
use fingerprint_full_matcher.Benchmark.Manifest.Paths.Inside.{resolve_dataset_path-is_below}
use fingerprint_full_matcher.Benchmark.Manifest.Reader.{
  Allowed, contains, is_ppi, same_ℤ, is_sha256, row_body, expected_ppi, converted, read_rows,
  read_records,
}

module _ (disk : Disk) (dataset_root : Parts) (allowed : Allowed) where
  -- The image of a record is a file of the disk that lies in the dataset.
  abbrev pub IsImage : String → Type 0
  IsImage path =
      (parts : Parts) × (path ≡ disk.path_text parts)
      × (is_below (disk.resolve dataset_root) parts ≡ true)
      × (disk.is_file parts ≡ true)

  pub record IsRecord (seen : List String) (r : PairRecord) : Type 0 where
    pub kind : contains allowed.kinds r.comparison_kind ≡ true
    pub fresh : contains seen r.pair_id ≡ false
    pub ppi : ℤ
    pub dataset : lookup r.dataset_release allowed.datasets ≡ some (ok ppi)
    pub known_ppi : is_ppi r.nominal_ppi_a ≡ true
    pub same_a : same_ℤ r.nominal_ppi_a ppi ≡ true
    pub same_b : same_ℤ r.nominal_ppi_b ppi ≡ true
    pub sha256_a : is_sha256 r.sha256_a ≡ true
    pub sha256_b : is_sha256 r.sha256_b ≡ true
    pub image_a : IsImage r.path_a
    pub image_b : IsImage r.path_b

  IsImage-path_text :
      (relative release : String) (parts : Parts)
      → resolve_dataset_path disk dataset_root relative release ≡ ok parts
      → IsImage (disk.path_text parts)
  IsImage-path_text relative release parts h =
      let (below, file, _, _) =
        resolve_dataset_path-is_below disk dataset_root relative release parts h in
      (parts, refl, below, file)

  module _ (row_index : ℕ) (seen : List String) (row : Dict String) (r : PairRecord)
      (h : row_body disk dataset_root allowed row_index seen row ≡ ok r) where
    known_kind : contains allowed.kinds r.comparison_kind ≡ true
    unfolding row_body
    known_kind = ground arith

    fresh_id : contains seen r.pair_id ≡ false
    unfolding row_body
    fresh_id = ground arith

    same_ppi :
        (ppi : ℤ)
        → lookup r.dataset_release allowed.datasets ≡ some (ok ppi)
        → (is_ppi r.nominal_ppi_a ≡ true)
          × (same_ℤ r.nominal_ppi_a ppi ≡ true)
          × (same_ℤ r.nominal_ppi_b ppi ≡ true)
    unfolding row_body expected_ppi
    same_ppi ppi known = ground arith

    dataset_ppi :
        (found : Option (Result Exception ℤ))
        → lookup r.dataset_release allowed.datasets ≡ found
        → (ppi : ℤ) × (found ≡ some (ok ppi))
    unfolding row_body expected_ppi
    dataset_ppi none e = absurd (ground arith)
    dataset_ppi (some (err exception)) e = absurd (ground arith)
    dataset_ppi (some (ok ppi)) e = (ppi, refl)

    valid_sha256 : (is_sha256 r.sha256_a ≡ true) × (is_sha256 r.sha256_b ≡ true)
    unfolding row_body
    valid_sha256 = ground arith

    IsImage-path_a :
        (resolved : Result ManifestError Parts)
        → resolve_dataset_path disk dataset_root r.relative_path_a r.dataset_release ≡ resolved
        → IsImage r.path_a
    unfolding row_body
    IsImage-path_a (err exception) e = absurd (ground arith)
    IsImage-path_a (ok parts) e =
        let same : r.path_a ≡ disk.path_text parts = ground arith in
        subst IsImage (sym same) (IsImage-path_text r.relative_path_a r.dataset_release parts e)

    IsImage-path_b :
        (resolved : Result ManifestError Parts)
        → resolve_dataset_path disk dataset_root r.relative_path_b r.dataset_release ≡ resolved
        → IsImage r.path_b
    unfolding row_body
    IsImage-path_b (err exception) e = absurd (ground arith)
    IsImage-path_b (ok parts) e =
        let same : r.path_b ≡ disk.path_text parts = ground arith in
        subst IsImage (sym same) (IsImage-path_text r.relative_path_b r.dataset_release parts e)

    row_body-IsRecord : IsRecord seen r
    row_body-IsRecord =
        let (ppi, known) = dataset_ppi (lookup r.dataset_release allowed.datasets) refl in
        let (is_known, a, b) = same_ppi ppi known in
        record {
          kind = known_kind;
          fresh = fresh_id;
          ppi = ppi;
          dataset = known;
          known_ppi = is_known;
          same_a = a;
          same_b = b;
          sha256_a = valid_sha256.0;
          sha256_b = valid_sha256.1;
          image_a = IsImage-path_a _ refl;
          image_b = IsImage-path_b _ refl;
        }

  -- The ids before a record of a list, the last first, on those already seen.
  abbrev pub AreRecords : List String → List PairRecord → Type 0
  AreRecords seen [] = Unit
  AreRecords seen (r ∷ rs) = IsRecord seen r × AreRecords (r.pair_id ∷ seen) rs

  IsRecord-converted :
      (row_index : ℕ) (seen : List String) (row : Dict String) (r : PairRecord)
      (body : Result ManifestError PairRecord)
      → row_body disk dataset_root allowed row_index seen row ≡ body
      → converted disk dataset_root allowed row_index body ≡ ok r
      → IsRecord seen r
  unfolding converted
  IsRecord-converted row_index seen row r (ok r') e h =
      row_body-IsRecord row_index seen row r (e ∙ h)
  IsRecord-converted row_index seen row r (err (manifest_error m)) e h = cc h
  IsRecord-converted row_index seen row r (err (raised x)) e h = cc h

  read_rows-AreRecords :
      (row_index : ℕ) (seen : List String) (rows : List (Dict String)) (rs : List PairRecord)
      → read_rows disk dataset_root allowed row_index seen rows ≡ ok rs
      → AreRecords seen rs × (length rs ≡ length rows)
  unfolding read_rows
  read_rows-AreRecords row_index seen [] rs h =
      subst (λ t. AreRecords seen t × (length t ≡ 0)) (ok-injective h) (tt, refl)
  read_rows-AreRecords row_index seen (row ∷ rows) rs h =
      let (r, er, rest) =
        bind_returned
          (converted disk dataset_root allowed row_index
            (row_body disk dataset_root allowed row_index seen row))
          (λ r. do
            rest ← read_rows disk dataset_root allowed (suc row_index) (r.pair_id ∷ seen) rows
            ok (r ∷ rest))
          h in
      let (rs', ers, last) =
        bind_returned (read_rows disk dataset_root allowed (suc row_index) (r.pair_id ∷ seen) rows)
          (λ rest. ok (r ∷ rest)) rest in
      let (all, same) = read_rows-AreRecords (suc row_index) (r.pair_id ∷ seen) rows rs' ers in
      subst (λ t. AreRecords seen t × (length t ≡ suc (length rows))) (ok-injective last)
        ((IsRecord-converted row_index seen row r _ refl er, all), ap suc same)

  locked_count :
      (row_count : Option ℕ) (n : ℕ)
      → (elim row_count [ none ↦ false | some m ↦ n == m ]) ≡ true
      → row_count ≡ some n
  locked_count none n h = cc h
  locked_count (some m) n h = ap some (sym ((==_iff n m).0 h))

  -- Where the reader returns records, there is one for each row, as many as the lock says. Each has
  -- a known kind and release, an id that none before it has, the release's resolution, which is 1000
  -- or 2000 PPI, for both images, two SHA-256 texts, and two images that are files in the dataset.
  pub read_records-AreRecords :
      (row_count : Option ℕ) (rows : List (Dict String)) (rs : List PairRecord)
      → read_records disk dataset_root allowed row_count rows ≡ ok rs
      → AreRecords [] rs × (length rs ≡ length rows) × (row_count ≡ some (length rs))
  unfolding read_records
  read_records-AreRecords row_count rows rs h =
      let (rs', read, rest) =
        bind_returned (read_rows disk dataset_root allowed 1 [] rows)
          (λ records. do
            require (elim row_count [ none ↦ false | some n ↦ length records == n ])
                (manifest_error "manifest row count differs from protocol lock")
            ok records)
          h in
      let (counted, last) = require_returned _ _ (ok rs') rest in
      let (all, same) = read_rows-AreRecords 1 [] rows rs' read in
      subst (λ t. AreRecords [] t × (length t ≡ length rows) × (row_count ≡ some (length t)))
        (ok-injective last) (all, same, locked_count row_count (length rs') counted)
