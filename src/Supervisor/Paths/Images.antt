-- ===== src/Supervisor/Paths/Images.antt =====
-- The builder's image paths meet the validator's check.
use Prim.Native.Char.{Char}
use text.Mathlib.TextLemmas.{cons-append, cons≢nil}
use fingerprint_full_matcher.Prelude.{
  String, ◌<>◌, Bool, true, false, not, ◌||◌, Option, none, some, [], ◌∷◌, ◌++◌, ◌≡◌, refl, ap, sym,
  ◌∙◌, All, All-map, eq_iff, arith, Bool-cases, inl, inr,
}
use fingerprint_full_matcher.Prelude.Text.{codes, is_empty}
use fingerprint_full_matcher.Prelude.Result.{
  ok, bind_returned, require_returned, of_option_iff, of_option, ok-injective,
}
use fingerprint_full_matcher.Supervisor.{Release, sd300b, sd300c, release_name}
use fingerprint_full_matcher.Benchmark.Manifest.Paths.{lowered, same_codes}
use fingerprint_full_matcher.Supervisor.Paths.{
  Parts, Disk, prepend, split_slash, as_posix, join_slash, has_code, starts_with, relative_to,
  has_parent, is_under, is_unsafe, is_dotted, any_dotted, image_relative, source_path_as_relative,
  validate_dataset_path, relative_image, relative_source, path_message,
}
use fingerprint_full_matcher.Supervisor.Paths.Split.{Lacks, split_slash-as_posix, Lacks-as_posix}

-- A name that neither splits nor escapes.
pub record IsPlain (part : String) : Type 0 where
  pub slash : Lacks 47 part
  pub backslash : Lacks 92 part
  pub colon : Lacks 58 part
  pub dotted : is_dotted part ≡ false

relative_to-append :
    (root path rest : Parts) → relative_to root path ≡ some rest → path ≡ root ++ rest
unfolding relative_to
relative_to-append [] path rest h = cc
relative_to-append (a ∷ root) [] rest h = cc
relative_to-append (a ∷ root) (b ∷ path) rest h =
    ground (arith, eq_iff a b, relative_to-append root path rest)

any_dotted-false : (parts : Parts) → All IsPlain parts → any_dotted parts ≡ false
unfolding any_dotted
any_dotted-false [] h = refl
any_dotted-false (p ∷ ps) h = rw (h.0.dotted) (any_dotted-false ps h.1)

is_empty_iff : (s : String) → is_dotted s ≡ false → is_empty s ≡ false
unfolding is_dotted
is_empty_iff s h = ground arith

as_posix-head :
    (c : Char) (s : String) (ps : Parts)
    → (t : String) × (as_posix ((String.◌∷◌ c s) ∷ ps) ≡ String.◌∷◌ c t)
unfolding as_posix join_slash
as_posix-head c s [] = (s, refl)
as_posix-head c s (q ∷ ps) = (_, cons-append c s ("/" <> join_slash (q ∷ ps)))

is_empty-cons : (c : Char) (t : String) → is_empty (String.◌∷◌ c t) ≡ false
is_empty-cons c t = elim (Bool-cases (is_empty (String.◌∷◌ c t))) [
  | inl empty ↦ absurd (cons≢nil ((eq_iff (String.◌∷◌ c t) "").0 empty))
  | inr other ↦ other
]

head-Lacks :
    (c : Char) (s t : String)
    → Lacks 47 (String.◌∷◌ c s)
    → starts_with 47 (codes (String.◌∷◌ c t)) ≡ false
unfolding has_code starts_with
head-Lacks c s t h = ground arith

-- The text of plain parts is no unsafe path.
is_unsafe-as_posix :
    (p : String) (ps : Parts) → All IsPlain (p ∷ ps) → is_unsafe (as_posix (p ∷ ps)) ≡ false
unfolding is_unsafe is_dotted
is_unsafe-as_posix String.[] ps h = let e : true ≡ false = h.0.dotted in cc e
is_unsafe-as_posix (String.◌∷◌ c s) ps h =
    let p = String.◌∷◌ c s in
    let b =
      Lacks-as_posix 92 p ps (λ e. absurd (omega arith))
        (All-map (λ q k. k.backslash) (p ∷ ps) h) in
    let d =
      Lacks-as_posix 58 p ps (λ e. absurd (omega arith)) (All-map (λ q k. k.colon) (p ∷ ps) h) in
    let (t, e) = as_posix-head c s ps in
    let first : is_empty (as_posix (p ∷ ps)) ≡ false = ap is_empty e ∙ is_empty-cons c t in
    let start : starts_with 47 (codes (as_posix (p ∷ ps))) ≡ false =
      ap (λ u. starts_with 47 (codes u)) e ∙ head-Lacks c s t h.0.slash in
    rw (first, b, d, start)

is_under-dot : (release : Release) → is_under release (split_slash (as_posix [])) ≡ false
unfolding is_under as_posix split_slash prepend lowered same_codes release_name
is_under-dot sd300b = refl
is_under-dot sd300c = refl

right_false : (a b : Bool) → not (a || not b) ≡ true → b ≡ true
right_false a b h = ground arith

module _ (disk : Disk) (dataset_root : Parts) (release : Release)
    (stable : (path : Parts) → disk.resolve (disk.resolve path) ≡ disk.resolve path)
    (plain : (path rest : Parts)
      → relative_to (disk.resolve dataset_root) (disk.resolve path) ≡ some rest
      → All IsPlain rest) where
  -- The text of an image's path leads to the same file.
  same_file :
      (path : Parts) (p : String) (ps : Parts)
      → relative_to (disk.resolve dataset_root) (disk.resolve path) ≡ some (p ∷ ps)
      → disk.resolve (disk.resolve dataset_root ++ split_slash (as_posix (p ∷ ps)))
        ≡ disk.resolve path
  same_file path p ps inside =
      let names = plain path (p ∷ ps) inside in
      let pieces = split_slash-as_posix p ps (All-map (λ q k. k.slash) (p ∷ ps) names) in
      ap (λ t. disk.resolve (disk.resolve dataset_root ++ t)) pieces
      ∙ ap disk.resolve (sym (relative_to-append _ _ (p ∷ ps) inside))
      ∙ stable path

  -- The parts of the text are those of the image's path below the root.
  accepted :
      (path rest : Parts) (context : String)
      → relative_to (disk.resolve dataset_root) (disk.resolve path) ≡ some rest
      → is_under release (split_slash (as_posix rest)) ≡ true
      → disk.is_file (disk.resolve path) ≡ true
      → path_message disk dataset_root release (as_posix rest) context ≡ none
  unfolding path_message
  accepted path [] context inside under here = let e = under in cc (e, is_under-dot release)
  accepted path (p ∷ ps) context inside under here =
      let names = plain path (p ∷ ps) inside in
      let pieces = split_slash-as_posix p ps (All-map (λ q k. k.slash) (p ∷ ps) names) in
      let same_path = same_file path p ps inside in
      let safe = is_unsafe-as_posix p ps names in
      let undotted : any_dotted (split_slash (as_posix (p ∷ ps))) ≡ false =
        ap any_dotted pieces ∙ any_dotted-false (p ∷ ps) names in
      let still_inside = ap (relative_to (disk.resolve dataset_root)) same_path ∙ inside in
      let still_here = ap disk.is_file same_path ∙ here in
      rw (safe, undotted, under, still_inside, still_here)

  relative_image-accepted :
      (source text context : String)
      → relative_image disk dataset_root release source ≡ ok text
      → (path_message disk dataset_root release text context ≡ none)
        × (relative_source disk dataset_root release source ≡ ok text)
  unfolding relative_image relative_source
  relative_image-accepted source text context h =
      let path = disk.parse source in
      let (rest, inside, h1) =
        bind_returned (of_option _ (relative_to (disk.resolve dataset_root) (disk.resolve path))) _
          h in
      let below =
        (of_option_iff _ (relative_to (disk.resolve dataset_root) (disk.resolve path)) rest).0
          inside in
      let (named, h2) =
        require_returned
          (not (has_parent rest || not (is_under release (split_slash (as_posix rest))))) _ _ h1 in
      let (here, h3) = require_returned (disk.is_file (disk.resolve path)) _ _ h2 in
      let under : is_under release (split_slash (as_posix rest)) ≡ true =
        right_false (has_parent rest) _ named in
      let same_text : as_posix rest ≡ text = ok-injective h3 in
      (
        ap (λ t. path_message disk dataset_root release t context) (sym same_text)
            ∙ accepted path rest context below under here,
        rw (below, here, under) (ap ok same_text),
      )

  -- Where `resolve` is stable and the names of resolved paths below the dataset's root are plain, an
  -- image path that the builder accepts is turned into a text about which the validator has no
  -- message, and which is the one that the validator makes of that path.
  pub image_relative-accepted :
      (source : Option String) (text context : String)
      → image_relative disk dataset_root release source ≡ ok text
      → (validate_dataset_path disk dataset_root release (some text) context ≡ none)
        × (source_path_as_relative disk dataset_root release source ≡ ok text)
  unfolding image_relative source_path_as_relative validate_dataset_path
  image_relative-accepted none text context h = cc
  image_relative-accepted (some source) text context h =
      relative_image-accepted source text context h

  same_file_under :
      (path rest : Parts)
      → relative_to (disk.resolve dataset_root) (disk.resolve path) ≡ some rest
      → is_under release (split_slash (as_posix rest)) ≡ true
      → disk.resolve (disk.resolve dataset_root ++ split_slash (as_posix rest)) ≡ disk.resolve path
  same_file_under path [] inside under = let e = under in cc (e, is_under-dot release)
  same_file_under path (p ∷ ps) inside under = same_file path p ps inside

  pub image_relative-same_file :
      (source text : String)
      → image_relative disk dataset_root release (some source) ≡ ok text
      → disk.resolve (disk.resolve dataset_root ++ split_slash text)
        ≡ disk.resolve (disk.parse source)
  unfolding image_relative relative_image
  image_relative-same_file source text h =
      let path = disk.parse source in
      let (rest, inside, h1) =
        bind_returned (of_option _ (relative_to (disk.resolve dataset_root) (disk.resolve path))) _
          h in
      let below =
        (of_option_iff _ (relative_to (disk.resolve dataset_root) (disk.resolve path)) rest).0
          inside in
      let (named, h2) =
        require_returned
          (not (has_parent rest || not (is_under release (split_slash (as_posix rest))))) _ _ h1 in
      let (here, h3) = require_returned (disk.is_file (disk.resolve path)) _ _ h2 in
      let under : is_under release (split_slash (as_posix rest)) ≡ true =
        right_false (has_parent rest) _ named in
      ap (λ t. disk.resolve (disk.resolve dataset_root ++ split_slash t)) (sym (ok-injective h3))
      ∙ same_file_under path rest below under
