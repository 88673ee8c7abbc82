-- ===== src/Supervisor/Paths/Codes.antt =====
-- The checks of a path's text as the validator makes them, and as the reader makes them on codes.
use mathlib.Core.List.{append-nil, append_assoc}
use text.Mathlib.TextEquality.{Char-path}
use Prim.Native.Char.{code}
use fingerprint_full_matcher.Prelude.{
  ℕ, String, Bool, true, false, ◌||◌, some, List, [], ◌∷◌, ◌++◌, map, ◌==◌, ◌≡◌, ◌∙◌, refl, ap, sym,
  str_eq, eq_iff, ==_iff, Bool-cases, inl, inr, and_true, arith,
}
use fingerprint_full_matcher.Prelude.Text.{codes}
use fingerprint_full_matcher.Benchmark.Manifest.Paths.{
  same_codes, is_below, has_part, pieces, kept, starts_with_slash, lowered, has_colon,
  matches_release,
}
use fingerprint_full_matcher.Supervisor.{Release, sd300b, sd300c, release_name}
use fingerprint_full_matcher.Supervisor.Paths.{
  Parts, prepend, split_slash, relative_to, has_code, starts_with, is_unsafe, is_dotted, any_dotted,
  is_under,
}

same_codes_refl : (cs : List ℕ) → same_codes cs cs ≡ true
unfolding same_codes
same_codes_refl [] = refl
same_codes_refl (c ∷ cs) = rw ((==_iff c c).1 refl) (same_codes_refl cs)

same_codes-injective : (s t : String) → same_codes (codes s) (codes t) ≡ true → s ≡ t
unfolding same_codes
same_codes-injective String.[] String.[] h = refl
same_codes-injective String.[] (String.◌∷◌ d t) h = cc h
same_codes-injective (String.◌∷◌ c s) String.[] h = cc h
same_codes-injective (String.◌∷◌ c s) (String.◌∷◌ d t) h =
    let (here, later) = and_true (code c == code d) (same_codes (codes s) (codes t)) h in
    let head = Char-path c d ((==_iff (code c) (code d)).0 here) in
    let tail = same_codes-injective s t later in cc (head, tail)

-- Texts are compared as their codes are.
same_codes-codes : (s t : String) → same_codes (codes s) (codes t) ≡ str_eq s t
same_codes-codes s t = elim (Bool-cases (str_eq s t)) [
  | inl equal ↦
      let e = (eq_iff s t).0 equal in
      ap (λ u. same_codes (codes s) (codes u)) (sym e) ∙ same_codes_refl (codes s) ∙ sym equal
  | inr apart ↦ elim (Bool-cases (same_codes (codes s) (codes t))) [
    | inr different ↦ different ∙ sym apart
    | inl same ↦ let equal = (eq_iff s t).1 (same_codes-injective s t same) in cc
  ]
]

-- The codes before the first piece.
unfoldable pub ahead : List ℕ → List (List ℕ) → List (List ℕ)
ahead current [] = current ∷ []
ahead current (p ∷ ps) = (current ++ p) ∷ ps

-- A text is split into one piece at least.
pub split_slash_cons : (s : String) → (p : String) × (ps : Parts) × (split_slash s ≡ p ∷ ps)
unfolding split_slash prepend
split_slash_cons String.[] = ("", [], refl)
split_slash_cons (String.◌∷◌ c s) =
    let (p, ps, e) = split_slash_cons s in
    elim (Bool-cases (code c == 47)) [
      | inl slash ↦ ("", split_slash s, rw slash refl)
      | inr other ↦ (String.◌∷◌ c p, ps, rw (other, e) refl)
    ]

pub pieces-split_slash :
    (current : List ℕ) (s : String)
    → pieces current (codes s) ≡ ahead current (map codes (split_slash s))
unfolding pieces split_slash ahead prepend
pieces-split_slash current String.[] = ap (λ cs. cs ∷ []) (sym (append-nil current))
pieces-split_slash current (String.◌∷◌ c s) =
    let (p, ps, e) = split_slash_cons s in
    elim (Bool-cases (code c == 47)) [
      | inl slash ↦
          rw (slash, pieces-split_slash [] s, e)
            (ap (λ cs. cs ∷ codes p ∷ map codes ps) (sym (append-nil current)))
      | inr other ↦
          rw (other, pieces-split_slash (current ++ (code c ∷ [])) s, e)
            (ap (λ cs. cs ∷ map codes ps) (append_assoc current (code c ∷ []) (codes p)))
    ]

pub kept-codes : (ps : Parts) → any_dotted ps ≡ false → kept (map codes ps) ≡ map codes ps
unfolding kept any_dotted is_dotted
kept-codes [] h = refl
kept-codes (p ∷ ps) h =
    let empty = same_codes-codes p "" in
    let dot = same_codes-codes p "." in ground (arith, kept-codes ps)

or_false : (a b : Bool) → a || b ≡ false → (a ≡ false) × (b ≡ false)
or_false a b h = (ground arith, ground arith)

dotted_apart :
    (part p : String) → is_dotted part ≡ true → is_dotted p ≡ false → str_eq part p ≡ false
dotted_apart part p dotted plain = elim (Bool-cases (str_eq part p)) [
  | inr apart ↦ apart
  | inl equal ↦ let e = (eq_iff part p).0 equal in cc
]

pub has_part-codes :
    (part : String) (ps : Parts)
    → (is_dotted part) ≡ true
    → any_dotted ps ≡ false
    → has_part (codes part) (map codes ps) ≡ false
unfolding has_part any_dotted
has_part-codes part [] dotted h = refl
has_part-codes part (p ∷ ps) dotted h =
    let (here, later) = or_false (is_dotted p) (any_dotted ps) h in
    let apart : str_eq part p ≡ false = dotted_apart part p dotted here in
    rw (same_codes-codes part p, apart) (has_part-codes part ps dotted later)

pub starts_with_slash_lem : (cs : List ℕ) → starts_with_slash cs ≡ starts_with 47 cs
unfolding starts_with starts_with_slash
starts_with_slash_lem [] = refl
starts_with_slash_lem (c ∷ cs) = refl

unfoldable pub first_codes : Parts → List ℕ
first_codes [] = []
first_codes (p ∷ ps) = codes p

-- A character that a text lacks, its first piece lacks.
pub has_code-first_codes :
    (n : ℕ) (s : String)
    → has_code n (codes s) ≡ false
    → has_code n (first_codes (split_slash s)) ≡ false
unfolding split_slash prepend has_code first_codes
has_code-first_codes n String.[] h = refl
has_code-first_codes n (String.◌∷◌ c s) h =
    let (p, ps, e) = split_slash_cons s in
    let (here, later) = or_false (code c == n) (has_code n (codes s)) h in
    let before : has_code n (codes p) ≡ false =
      ap (λ qs. has_code n (first_codes qs)) (sym e) ∙ has_code-first_codes n s later in
    elim (Bool-cases (code c == 47)) [
      | inl slash ↦ rw (slash) refl
      | inr other ↦ rw (other, e, here) before
    ]

pub safe_codes :
    (value : String)
    → is_unsafe value ≡ false
    → (has_code 58 (codes value) ≡ false) × (starts_with 47 (codes value) ≡ false)
unfolding is_unsafe
safe_codes value h = (ground arith, ground arith)

has_colon_lem : (cs : List ℕ) → has_colon cs ≡ has_code 58 cs
unfolding has_colon has_code
has_colon_lem [] = refl
has_colon_lem (c ∷ cs) = ap (λ b. c == 58 || b) (has_colon_lem cs)

lowered-release_name :
    (release : Release) → lowered (codes (release_name release)) ≡ codes (release_name release)
unfolding lowered release_name
lowered-release_name sd300b = refl
lowered-release_name sd300c = refl

pub matches_release-is_under :
    (release : Release) (p : String) (ps : Parts)
    → has_code 58 (codes p) ≡ false
    → is_under release (p ∷ ps) ≡ true
    → matches_release (map codes (p ∷ ps)) (release_name release) ≡ true
unfolding matches_release is_under
matches_release-is_under release p ps colon under =
    rw (has_colon_lem (codes p), colon, lowered-release_name release) under

pub is_below-relative_to :
    (root path rest : Parts)
    → relative_to root path ≡ some rest
    → is_below (map codes root) (map codes path) ≡ true
unfolding is_below relative_to
is_below-relative_to [] path rest h = refl
is_below-relative_to (a ∷ root) [] rest h = cc h
is_below-relative_to (a ∷ root) (b ∷ path) rest h =
    let same = same_codes-codes a b in ground (arith, is_below-relative_to root path rest)
