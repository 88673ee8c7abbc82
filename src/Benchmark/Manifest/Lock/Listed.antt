-- ===== src/Benchmark/Manifest/Lock/Listed.antt =====
-- The names of a package's files, before and after a file is written.
use fingerprint_full_matcher.Prelude.{
  ℕ, String, some, Bool, true, false, not, ◌&&◌, ◌||◌, List, [], ◌∷◌, ◌≡◌, ◌∙◌, refl, ap, str_eq,
  eq_iff, arith, if◌then◌else◌, All,
}
use text.Mathlib.TextPositions.{eq_refl}
use fingerprint_full_matcher.Prelude.Text.{codes}
use fingerprint_full_matcher.Prelude.Dict.{Dict, lookup}
use fingerprint_full_matcher.Benchmark.Manifest.Lock.{names, is_sorted}
use fingerprint_full_matcher.Supervisor.Lock.{
  Content, Readings, precedes, write_file, file_record, rows_if_manifest, package_records,
}
use fingerprint_full_matcher.Supervisor.Lock.Check.{is_named, all_in, same_set}

-- No name twice.
unfoldable pub is_distinct : List String → Bool
unfolding is_named
is_distinct [] = true
is_distinct (x ∷ xs) = not (is_named x xs) && is_distinct xs

pub is_named-write_file :
    (x name : String) (content : Content) (files : Dict Content)
    → is_named x (names (write_file name content files))
      ≡ (str_eq x name || is_named x (names files))
unfolding is_named names write_file
is_named-write_file x name content [] = refl
is_named-write_file x name content ((other, old) ∷ files) =
    ground (arith, eq_iff name other, is_named-write_file x name content files)

pub is_distinct-write_file :
    (name : String) (content : Content) (files : Dict Content)
    → is_distinct (names files) ≡ true
    → is_named name (names files) ≡ false
    → is_distinct (names (write_file name content files)) ≡ true
unfolding is_distinct names write_file is_named
is_distinct-write_file name content [] h k = refl
is_distinct-write_file name content ((other, old) ∷ files) h k = ground (
  arith,
  eq_iff name other,
  eq_iff other name,
  is_named-write_file other name content files,
  is_distinct-write_file name content files,
)

precedes_asym : (a b : List ℕ) → precedes a b ≡ true → precedes b a ≡ false
unfolding precedes
precedes_asym [] (d ∷ ds) h = refl
precedes_asym (c ∷ cs) (d ∷ ds) h = ground (arith, precedes_asym cs ds)
precedes_asym a [] h = ground arith

module _ (name : String) (content : Content) where
  pub is_sorted-write_file :
      (files : Dict Content)
      → is_sorted (names files) ≡ true
      → is_sorted (names (write_file name content files)) ≡ true
  unfolding is_sorted names write_file
  is_sorted-write_file [] h = refl
  is_sorted-write_file ((other, old) ∷ []) h =
      ground (arith, eq_iff name other, precedes_asym (codes name) (codes other))
  is_sorted-write_file ((other, old) ∷ (next, newer) ∷ files) h = ground (
    arith,
    eq_iff name other,
    eq_iff name next,
    precedes_asym (codes name) (codes other),
    is_sorted-write_file ((next, newer) ∷ files),
  )

all_in-intro :
    (xs ys : List String)
    → ((x : String) → is_named x xs ≡ true → is_named x ys ≡ true)
    → all_in xs ys ≡ true
unfolding all_in is_named
all_in-intro [] ys h = refl
all_in-intro (x ∷ xs) ys h =
    rw (h x (rw (eq_refl x) refl), all_in-intro xs ys λ y k. h y (ground arith)) refl

pub same_set-write_file :
    (name : String) (content : Content) (files : Dict Content)
    → same_set (names (write_file name content files)) (name ∷ names files) ≡ true
unfolding same_set is_named
same_set-write_file name content files =
    let same = λ (x : String). is_named-write_file x name content files in
    rw (
      all_in-intro (names (write_file name content files)) (name ∷ names files)
          (λ x h. cc (same x, h)),
      all_in-intro (name ∷ names files) (names (write_file name content files)) (λ x h. same x ∙ h),
    )

All-if :
    (P : String × Content → Type 0) (b : Bool) (xs ys : Dict Content)
    → All P xs
    → All P ys
    → All P (if b then xs else ys)
All-if P true xs ys h k = h
All-if P false xs ys h k = k

pub All-write_file :
    (P : String × Content → Type 0) (name : String) (content : Content) (files : Dict Content)
    → P (name, content)
    → All P files
    → All P (write_file name content files)
unfolding write_file
All-write_file P name content [] h hs = (h, tt)
All-write_file P name content ((other, old) ∷ files) h hs =
    All-if P (str_eq name other) _ _ (h, hs.1)
      (All-if P (precedes (codes name) (codes other)) _ _ (h, hs)
        (hs.0, All-write_file P name content files h hs.1))

module _ (readings : Readings) where
  pub names-package_records :
      (files : Dict Content) → names (package_records readings files) ≡ names files
  unfolding names package_records
  names-package_records [] = refl
  names-package_records ((name, content) ∷ files) =
      ap (λ rest. name ∷ rest) (names-package_records files)

  pub lookup-package_records :
      (name : String) (content : Content) (files : Dict Content)
      → lookup name files ≡ some content
      → lookup name (package_records readings files)
        ≡ some (file_record readings content (rows_if_manifest readings name content))
  unfolding package_records
  lookup-package_records name content [] h = ground arith
  lookup-package_records name content ((other, old) ∷ files) h =
      ground (arith, eq_iff name other, lookup-package_records name content files)
