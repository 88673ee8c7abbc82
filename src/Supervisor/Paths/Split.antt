-- ===== src/Supervisor/Paths/Split.antt =====
-- What is split at slashes is what was joined by them.
use text.Mathlib.TextLemmas.{nil-append, cons-append}
use Prim.Native.Char.{Char, code}
use fingerprint_full_matcher.Prelude.{
  ℕ, String, ◌<>◌, false, List, [], ◌∷◌, ◌++◌, ◌≡◌, ◌≢◌, refl, ap, ◌∙◌, All, ◌==◌, arith,
}
use fingerprint_full_matcher.Prelude.Text.{codes}
use fingerprint_full_matcher.Supervisor.Paths.{
  Parts, prepend, split_slash, join_slash, as_posix, has_code,
}

pub codes-append : (s t : String) → codes (s <> t) ≡ codes s ++ codes t
codes-append String.[] t = ap codes (nil-append t)
codes-append (String.◌∷◌ c s) t =
    ap codes (cons-append c s t) ∙ ap (λ u. code c ∷ u) (codes-append s t)

-- A text without the character.
abbrev pub Lacks : ℕ → String → Type 0
Lacks n s = has_code n (codes s) ≡ false

has_code-append :
    (n : ℕ) (cs ds : List ℕ)
    → has_code n cs ≡ false
    → has_code n ds ≡ false
    → has_code n (cs ++ ds) ≡ false
unfolding has_code
has_code-append n [] ds h k = k
has_code-append n (c ∷ cs) ds h k = ground (arith, has_code-append n cs ds)

pub Lacks-append : (n : ℕ) (s t : String) → Lacks n s → Lacks n t → Lacks n (s <> t)
Lacks-append n s t h k = rw (codes-append s t) (has_code-append n (codes s) (codes t) h k)

prepend-split :
    (c : Char) (s : String)
    → code c == 47 ≡ false
    → split_slash (String.◌∷◌ c s) ≡ prepend c (split_slash s)
unfolding split_slash
prepend-split c s h = rw h refl

tail-Lacks :
    (c : Char) (s : String) → Lacks 47 (String.◌∷◌ c s) → (code c == 47 ≡ false) × Lacks 47 s
unfolding has_code
tail-Lacks c s h = (ground arith, ground arith)

split_slash-one : (s : String) → Lacks 47 s → split_slash s ≡ s ∷ []
unfolding split_slash prepend
split_slash-one String.[] h = refl
split_slash-one (String.◌∷◌ c s) h =
    let (other, rest) = tail-Lacks c s h in
    prepend-split c s other ∙ ap (prepend c) (split_slash-one s rest)

split_slash-append :
    (s rest : String) → Lacks 47 s → split_slash (s <> ("/" <> rest)) ≡ s ∷ split_slash rest
unfolding split_slash prepend
split_slash-append String.[] rest h =
    ap split_slash (nil-append ("/" <> rest))
    ∙ ap split_slash (cons-append "/" "" rest)
    ∙ ap (λ t. "" ∷ split_slash t) (nil-append rest)
split_slash-append (String.◌∷◌ c s) rest h =
    let (other, later) = tail-Lacks c s h in
    ap split_slash (cons-append c s ("/" <> rest))
    ∙ prepend-split c (s <> ("/" <> rest)) other
    ∙ ap (prepend c) (split_slash-append s rest later)

-- Parts without a slash are what their joined text is split into.
pub split_slash-as_posix :
    (p : String) (ps : Parts) → All (Lacks 47) (p ∷ ps) → split_slash (as_posix (p ∷ ps)) ≡ p ∷ ps
unfolding as_posix join_slash
split_slash-as_posix p [] h = split_slash-one p h.0
split_slash-as_posix p (q ∷ ps) h =
    split_slash-append p _ h.0 ∙ ap (λ t. p ∷ t) (split_slash-as_posix q ps h.1)

-- A character other than the slash that no part has, the joined text does not have.
pub Lacks-as_posix :
    (n : ℕ) (p : String) (ps : Parts)
    → n ≢ 47
    → All (Lacks n) (p ∷ ps)
    → Lacks n (as_posix (p ∷ ps))
unfolding as_posix join_slash has_code
Lacks-as_posix n p [] other h = h.0
Lacks-as_posix n p (q ∷ ps) other h =
    let slash : Lacks n "/" = ground arith in
    Lacks-append n p _ h.0 (Lacks-append n "/" _ slash (Lacks-as_posix n q ps other h.1))
