-- ===== src/Benchmark/Manifest/Lock/Reading.antt =====
-- The sums that the builder writes, as the reader reads them.
use fingerprint_full_matcher.Prelude.{
  String, ◌<>◌, true, false, not, List, [], ◌∷◌, ◌++◌, ◌≡◌, ◌∙◌, refl, ap, eq_iff, and_true, arith,
  All, All-intro, false_of_not,
}
use fingerprint_full_matcher.Prelude.Dict.{Dict}
use fingerprint_full_matcher.Prelude.Result.{ok}
use fingerprint_full_matcher.Benchmark.Manifest.Reader.{is_sha256}
use fingerprint_full_matcher.Benchmark.Manifest.Lock.{
  split_lines, names, is_entry, sums_entry, read_sums,
}
use fingerprint_full_matcher.Benchmark.Manifest.Lock.Sums.{
  is_line, split_lines-join_lines, partition-digest, is_line-digest, is_empty-digest,
}
use fingerprint_full_matcher.Benchmark.Manifest.Lock.Listed.{is_distinct}
use fingerprint_full_matcher.Benchmark.Manifest.Lock.Readable.{IsReadable}
use fingerprint_full_matcher.Supervisor.Lock.{Content, Readings, join_lines, sums_lines, sums_text}
use fingerprint_full_matcher.Supervisor.Lock.Check.{is_named}

module _ (readings : Readings) where
  -- What the reader makes of the sums of these files.
  abbrev pub digests : Dict Content → Dict String
  digests [] = []
  digests ((name, content) ∷ files) = (name, readings.sha256_file content) ∷ digests files

  pub names-digests : (files : Dict Content) → names (digests files) ≡ names files
  unfolding names
  names-digests [] = refl
  names-digests ((name, content) ∷ files) = ap (λ rest. name ∷ rest) (names-digests files)

split_sums :
    (seen lines : List String)
    → All (λ line. is_line line ≡ true) lines
    → read_sums seen (split_lines (join_lines lines <> "\n")) ≡ read_sums seen (lines ++ ("" ∷ []))
unfolding join_lines split_lines read_sums
split_sums seen [] h = refl
split_sums seen (l ∷ ls) h = ap (read_sums seen) (split_lines-join_lines l ls h)

-- Names that are not among those before them.
abbrev AreNew : List String → Dict Content → Type 0
AreNew seen files = All (λ file. is_named file.0 seen ≡ false) files

AreNew-cons :
    (name : String) (seen : List String) (files : Dict Content)
    → is_named name (names files) ≡ false
    → AreNew seen files
    → AreNew (name ∷ seen) files
unfolding is_named names
AreNew-cons name seen [] h new = tt
AreNew-cons name seen ((other, content) ∷ files) h (here, later) = (
  ground (arith, eq_iff name other, eq_iff other name),
  AreNew-cons name seen files (ground arith) later,
)

module _ (readings : Readings)
    (hashed : (content : Content) → is_sha256 (readings.sha256_file content) ≡ true) where
  sums_lines-is_line :
      (files : Dict Content)
      → All (λ file. IsReadable file.0) files
      → All (λ line. is_line line ≡ true) (sums_lines readings files)
  unfolding sums_lines
  sums_lines-is_line [] h = tt
  sums_lines-is_line ((name, content) ∷ files) (readable, others) = rw (readable.not_sums) (
    is_line-digest (readings.sha256_file content) name (hashed content) readable.one_line,
    sums_lines-is_line files others,
  )

  sums_entry-digest :
      (seen : List String) (name : String) (content : Content)
      → IsReadable name
      → is_named name seen ≡ false
      → sums_entry seen (readings.sha256_file content <> ("  " <> name))
        ≡ ok (name, readings.sha256_file content)
  unfolding sums_entry is_entry
  sums_entry-digest seen name content readable new =
      rw
        (
          partition-digest (readings.sha256_file content) name (hashed content),
          is_entry,
          hashed content,
          readable.full,
          readable.relative,
          readable.no_parent,
          new,
        )
        refl

  read_sums-sums_lines :
      (seen : List String) (files : Dict Content)
      → All (λ file. IsReadable file.0) files
      → is_distinct (names files) ≡ true
      → AreNew seen files
      → read_sums seen (sums_lines readings files ++ ("" ∷ [])) ≡ ok (digests readings files)
  unfolding read_sums sums_lines names is_distinct
  read_sums-sums_lines seen [] h distinct new = refl
  read_sums-sums_lines seen ((name, content) ∷ files) (readable, others) distinct (here, later) =
      let (apart, rest) =
        and_true (not (is_named name (names files))) (is_distinct (names files)) distinct in
      rw
        (
          readable.not_sums,
          is_empty-digest (readings.sha256_file content) name (hashed content),
          sums_entry-digest seen name content readable here,
          read_sums-sums_lines (name ∷ seen) files others rest (
              AreNew-cons name seen files (false_of_not (is_named name (names files)) apart) later),
        )
        refl

  -- The sums of a package whose files have different names that are readable.
  pub read_sums-sums_text :
      (files : Dict Content)
      → All (λ file. IsReadable file.0) files
      → is_distinct (names files) ≡ true
      → read_sums [] (split_lines (sums_text readings files)) ≡ ok (digests readings files)
  unfolding sums_text is_named
  read_sums-sums_text files readable distinct =
      split_sums [] (sums_lines readings files) (sums_lines-is_line files readable)
      ∙ read_sums-sums_lines [] files readable distinct
          (All-intro (λ file. is_named file.0 [] ≡ false) (λ file. refl) files)
