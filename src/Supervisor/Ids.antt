-- ===== src/Supervisor/Ids.antt =====
-- The ids of the pairs of one manifest differ.
use text.Mathlib.TextLemmas.{append_inj, append_cancel_left}
use Prim.Native.String.{count}
use fingerprint_full_matcher.Prelude.{
  ℕ, zero, suc, ◌≤◌, ◌<◌, String, ◌<>◌, Bool, true, not, ◌&&◌, ◌||◌, ◌==◌, ◌≡◌, refl, str_eq,
  eq_iff, arith,
}
use fingerprint_full_matcher.Prelude.Int.{pos}
use fingerprint_full_matcher.Prelude.Digits.{int_text}
use fingerprint_full_matcher.Supervisor.{
  two_digits, Kind, plain_self, roll_self, plain_roll_genuine, plain_roll_next_subject,
}
use fingerprint_full_matcher.Supervisor.Validate.{expected_pair_id}

-- The fingers' texts, compared with one another.
differ_from : ℕ → ℕ → Bool
differ_from a zero = true
differ_from a (suc b) =
    (a == b || not (str_eq (two_digits (pos a)) (two_digits (pos b)))) && differ_from a b

differ_below : ℕ → Bool
differ_below zero = true
differ_below (suc a) = differ_from a 11 && differ_below a

fingers_table : differ_below 11 ≡ true
unfolding differ_below differ_from two_digits int_text
fingers_table = refl

differ_from_sound :
    (a n b : ℕ) → differ_from a n ≡ true → b < n → two_digits (pos a) ≡ two_digits (pos b) → a ≡ b
unfolding differ_from
differ_from_sound a zero b h less e = absurd (omega arith)
differ_from_sound a (suc n) b h less e =
    ground (arith, differ_from_sound a n b, eq_iff (two_digits (pos a)) (two_digits (pos b)))

differ_below_sound : (n a : ℕ) → differ_below n ≡ true → a < n → differ_from a 11 ≡ true
unfolding differ_below
differ_below_sound zero a h less = absurd (omega arith)
differ_below_sound (suc n) a h less = ground (arith, differ_below_sound n a)

-- The texts of two fingers up to ten tell which finger it is.
pub two_digits-injective :
    (a b : ℕ) → a ≤ 10 → b ≤ 10 → two_digits (pos a) ≡ two_digits (pos b) → a ≡ b
two_digits-injective a b ha hb e =
    differ_from_sound a 11 b (differ_below_sound 11 a fingers_table (omega arith)) (omega arith) e

module _ (a b c d : String) (f g : ℕ) (hf : f ≤ 10) (hg : g ≤ 10) (first : count a ≡ count c)
    (second : count b ≡ count d) where
  one_subject :
      (prefix : String)
      → prefix <> (a <> ("_F" <> two_digits (pos f)))
        ≡ prefix <> (c <> ("_F" <> two_digits (pos g)))
      → (a ≡ c) × (f ≡ g)
  one_subject prefix e =
      let (same_a, rest) = append_inj (append_cancel_left prefix _ _ e) first in
      (same_a, two_digits-injective f g hf hg (append_cancel_left "_F" _ _ rest))

  two_subjects :
      "IMP_" <> (a <> ("_" <> (b <> ("_F" <> two_digits (pos f)))))
        ≡ "IMP_" <> (c <> ("_" <> (d <> ("_F" <> two_digits (pos g)))))
      → (a ≡ c) × (f ≡ g)
  two_subjects e =
      let (same_a, rest) = append_inj (append_cancel_left "IMP_" _ _ e) first in
      let (same_b, last) = append_inj (append_cancel_left "_" _ _ rest) second in
      (same_a, two_digits-injective f g hf hg (append_cancel_left "_F" _ _ last))

-- Where all subjects' ids are of one length, a pair's id tells its first subject and its finger.
pub expected_pair_id-injective :
    (kind : Kind) (a b c d : String) (f g : ℕ)
    → f ≤ 10
    → g ≤ 10
    → count a ≡ count c
    → count b ≡ count d
    → expected_pair_id kind a b (pos f) ≡ expected_pair_id kind c d (pos g)
    → (a ≡ c) × (f ≡ g)
unfolding expected_pair_id
expected_pair_id-injective plain_self a b c d f g hf hg p q e =
    one_subject a b c d f g hf hg p q "PSELF_" e
expected_pair_id-injective roll_self a b c d f g hf hg p q e =
    one_subject a b c d f g hf hg p q "RSELF_" e
expected_pair_id-injective plain_roll_genuine a b c d f g hf hg p q e =
    one_subject a b c d f g hf hg p q "GEN_" e
expected_pair_id-injective plain_roll_next_subject a b c d f g hf hg p q e =
    two_subjects a b c d f g hf hg p q e
