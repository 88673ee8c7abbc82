-- ===== src/Benchmark/Manifest/Lock/Sums.antt =====
-- The lines of the sums: joined and split again, and each parted into its digest and its path.
use text.Mathlib.TextLemmas.{nil-append, cons-append, append-nil, append_assoc}
use Prim.Native.Char.{Char, code}
use fingerprint_full_matcher.Prelude.{
  String, ◌<>◌, Bool, true, false, not, ◌&&◌, Option, none, some, List, [], ◌∷◌, ◌++◌, ◌==◌, ◌≡◌,
  ◌∙◌, refl, ap, All, and_true, Bool-cases, inl, inr, eq_iff, false_of_not, sym, length, arith,
}
use fingerprint_full_matcher.Prelude.Text.{codes, is_empty}
use fingerprint_full_matcher.Benchmark.Manifest.Lock.{
  is_break, longer, split_lines, after_space, before, part_at, partition,
}
use fingerprint_full_matcher.Benchmark.Manifest.Reader.{is_sha256, all_hex}
use fingerprint_full_matcher.Supervisor.Lock.{join_lines}

-- A text within one line.
unfoldable pub is_line : String → Bool
unfolding is_break
is_line String.[] = true
is_line (String.◌∷◌ c s) = not (is_break (code c)) && is_line s

split_lines-cons :
    (c : Char) (s : String)
    → is_break (code c) ≡ false
    → split_lines (String.◌∷◌ c s) ≡ longer c (split_lines s)
unfolding split_lines
split_lines-cons c s h = rw h refl

split_lines-break :
    (l t : String) → is_line l ≡ true → split_lines (l <> ("\n" <> t)) ≡ l ∷ split_lines t
unfolding is_line split_lines longer is_break
split_lines-break String.[] t h =
    ap split_lines (nil-append ("\n" <> t))
    ∙ ap split_lines (cons-append "\n" "" t)
    ∙ ap (λ u. "" ∷ split_lines u) (nil-append t)
split_lines-break (String.◌∷◌ c s) t h =
    let (here, later) = and_true (not (is_break (code c))) (is_line s) h in
    ap split_lines (cons-append c s ("\n" <> t))
    ∙ split_lines-cons c (s <> ("\n" <> t)) (false_of_not (is_break (code c)) here)
    ∙ ap (longer c) (split_lines-break s t later)

pub split_lines-join_lines :
    (l : String) (ls : List String)
    → All (λ line. is_line line ≡ true) (l ∷ ls)
    → split_lines (join_lines (l ∷ ls) <> "\n") ≡ (l ∷ ls) ++ ("" ∷ [])
unfolding join_lines split_lines
split_lines-join_lines l [] (h, hs) =
    ap (λ u. split_lines (l <> u)) (sym (append-nil "\n")) ∙ split_lines-break l "" h
split_lines-join_lines l (m ∷ ls) (h, hs) =
    ap split_lines (append_assoc l ("\n" <> join_lines (m ∷ ls)) "\n")
    ∙ ap (λ u. split_lines (l <> u)) (append_assoc "\n" (join_lines (m ∷ ls)) "\n")
    ∙ split_lines-break l (join_lines (m ∷ ls) <> "\n") h
    ∙ ap (λ u. l ∷ u) (split_lines-join_lines m ls hs)

-- A text without spaces.
unfoldable spaceless : String → Bool
spaceless String.[] = true
spaceless (String.◌∷◌ c s) = not (code c == 32) && spaceless s

two_spaces : (rest : String) → "  " <> rest ≡ String.◌∷◌ " " (String.◌∷◌ " " rest)
two_spaces rest =
    cons-append " " " " rest
    ∙ ap (String.◌∷◌ " ") (cons-append " " "" rest)
    ∙ ap (λ u. String.◌∷◌ " " (String.◌∷◌ " " u)) (nil-append rest)

part_at-other :
    (c : Char) (tail : Option String) (later : Option (String × String))
    → code c == 32 ≡ false
    → part_at c tail later ≡ before c later
unfolding part_at
part_at-other c none later h = refl
part_at-other c (some tail) later h = rw h refl

partition-cons :
    (c : Char) (s : String)
    → code c == 32 ≡ false
    → partition (String.◌∷◌ c s) ≡ before c (partition s)
unfolding partition
partition-cons c s h = part_at-other c (after_space s) (partition s) h

partition-spaceless :
    (d rest : String) → spaceless d ≡ true → partition (d <> ("  " <> rest)) ≡ some (d, rest)
unfolding spaceless partition after_space part_at before
partition-spaceless String.[] rest h =
    ap partition (nil-append ("  " <> rest)) ∙ ap partition (two_spaces rest)
partition-spaceless (String.◌∷◌ c s) rest h =
    let (here, later) = and_true (not (code c == 32)) (spaceless s) h in
    ap partition (cons-append c s ("  " <> rest))
    ∙ partition-cons c (s <> ("  " <> rest)) (false_of_not (code c == 32) here)
    ∙ ap (before c) (partition-spaceless s rest later)

spaceless-all_hex : (d : String) → all_hex (codes d) ≡ true → spaceless d ≡ true
unfolding spaceless all_hex
spaceless-all_hex String.[] h = refl
spaceless-all_hex (String.◌∷◌ c s) h = ground (arith, spaceless-all_hex s)

pub partition-digest :
    (d rest : String) → is_sha256 d ≡ true → partition (d <> ("  " <> rest)) ≡ some (d, rest)
unfolding is_sha256
partition-digest d rest h =
    partition-spaceless d rest
      (spaceless-all_hex d (and_true (length (codes d) == 64) (all_hex (codes d)) h).1)

is_line-append : (s t : String) → is_line s ≡ true → is_line t ≡ true → is_line (s <> t) ≡ true
unfolding is_line
is_line-append String.[] t h k = ap is_line (nil-append t) ∙ k
is_line-append (String.◌∷◌ c s) t h k =
    let (here, later) = and_true (not (is_break (code c))) (is_line s) h in
    rw (cons-append c s t, here) (is_line-append s t later k)

is_line-all_hex : (d : String) → all_hex (codes d) ≡ true → is_line d ≡ true
unfolding is_line all_hex is_break
is_line-all_hex String.[] h = refl
is_line-all_hex (String.◌∷◌ c s) h = ground (arith, is_line-all_hex s)

-- A line of the sums.
pub is_line-digest :
    (d name : String)
    → is_sha256 d ≡ true
    → is_line name ≡ true
    → is_line (d <> ("  " <> name)) ≡ true
unfolding is_sha256 is_line is_break
is_line-digest d name h k =
    is_line-append d ("  " <> name)
      (is_line-all_hex d (and_true (length (codes d) == 64) (all_hex (codes d)) h).1)
      (is_line-append "  " name refl k)

pub is_empty-digest :
    (d name : String) → is_sha256 d ≡ true → is_empty (d <> ("  " <> name)) ≡ false
unfolding partition
is_empty-digest d name h = elim (Bool-cases (is_empty (d <> ("  " <> name)))) [
  | inr full ↦ full
  | inl empty ↦
      let e = (eq_iff (d <> ("  " <> name)) "").0 empty in
      let parted = partition-digest d name h in let nothing : partition "" ≡ none = refl in cc
]
