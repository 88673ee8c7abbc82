-- ===== src/Supervisor/Build/Manifest.antt =====
-- A manifest whose rows are fit is one about which the validator has nothing to say.
use Prim.Native.String.{count}
use fingerprint_full_matcher.Prelude.{
  ℕ, suc, ◌/◌, ◌≤◌, ◌<◌, String, false, Option, some, List, [], ◌∷◌, map, ◌≡◌, ◌≢◌, refl, ap, sym,
  ◌∙◌, get_elem?, All, All-map, AllFrom, arith, Bool-cases, inl, inr,
}
use fingerprint_full_matcher.Prelude.Result.{Result, ok, collect, Exception}
use fingerprint_full_matcher.Supervisor.{Release, Kind, Row, get_cell, same, same_iff, finger_at}
use fingerprint_full_matcher.Supervisor.Ids.{expected_pair_id-injective}
use fingerprint_full_matcher.Supervisor.Paths.{Parts, Disk}
use fingerprint_full_matcher.Supervisor.Rows.{written, update, common_row}
use fingerprint_full_matcher.Supervisor.Rows.Fields.{
  Texts, built, common, sides, id_at, AreFit, built-IsRowAt, some_eq,
}
use fingerprint_full_matcher.Supervisor.Validate.{is_seen, get_default}
use fingerprint_full_matcher.Supervisor.Validate.Rows.{AreRows}

-- The frozen cohort: some subject was selected and none twice, and all ids are of one length.
pub record IsCohort (selected : List String) : Type 0 where
  pub width : ℕ
  pub filled : selected ≢ []
  pub distinct :
      (i j : ℕ) (s : String) → get_elem? selected i ≡ some s → get_elem? selected j ≡ some s → i ≡ j
  pub wide : (i : ℕ) (s : String) → get_elem? selected i ≡ some s → count s ≡ width

place-eq : (p q : ℕ) → p / 10 ≡ q / 10 → finger_at p ≡ finger_at q → p ≡ q
unfolding finger_at
place-eq p q h k = omega arith

finger_at-le : (p : ℕ) → finger_at p ≤ 10
unfolding finger_at
finger_at-le p = omega arith

pair_id-built :
    (release : Release) (kind : Kind) (p : ℕ) (t : Texts)
    → get_default (written (built release kind p t)) "pair_id" ≡ some (id_at kind p t)
unfolding get_default get_cell written built common sides update common_row
pair_id-built release kind p t = refl

module _ (disk : Disk) (dataset_root : Parts) (release : Release) (kind : Kind)
    (selected : List String) (cohort : IsCohort selected) where
  abbrev IsFit : ℕ → Texts → Type 0
  IsFit = AreFit disk dataset_root release kind selected

  id_at-injective :
      (p q : ℕ) (t u : Texts) → IsFit p t → IsFit q u → id_at kind p t ≡ id_at kind q u → p ≡ q
  id_at-injective p q t u f g e =
      let (same_subject, same_finger) =
        expected_pair_id-injective kind t.subject_a t.subject_b u.subject_a u.subject_b
          (finger_at p) (finger_at q) (finger_at-le p) (finger_at-le q)
          (cohort.wide _ _ f.chosen_a ∙ sym (cohort.wide _ _ g.chosen_a))
          (cohort.wide _ _ f.chosen_b ∙ sym (cohort.wide _ _ g.chosen_b)) e in
      place-eq p q
        (cohort.distinct (p / 10) (q / 10) t.subject_a f.chosen_a
          (g.chosen_a ∙ ap some (sym same_subject)))
        same_finger

  -- An id of a row before the position.
  abbrev IsEarlier : ℕ → Option String → Type 0
  IsEarlier p seen_id =
      (q : ℕ) × (u : Texts) × (q < p) × IsFit q u × (seen_id ≡ some (id_at kind q u))

  is_seen-false :
      (p : ℕ) (t : Texts) (seen : List (Option String))
      → IsFit p t
      → All (IsEarlier p) seen
      → is_seen (some (id_at kind p t)) seen ≡ false
  unfolding is_seen
  is_seen-false p t [] f earlier = refl
  is_seen-false p t (other ∷ seen) f earlier =
      let (q, u, less, g, is_id) = earlier.0 in
      elim (Bool-cases (same (some (id_at kind p t)) other)) [
        | inl equal ↦
            let e = some_eq _ _ ((same_iff (some (id_at kind p t)) other).0 equal ∙ is_id) in
            let same_place = id_at-injective p q t u f g e in absurd (omega arith)
        | inr new ↦ rw new (is_seen-false p t seen f earlier.1)
      ]

  -- The rows that are made of the texts, read from the written file.
  built_rows : ℕ → List Texts → List Row
  built_rows p [] = []
  built_rows p (t ∷ ts) = written (built release kind p t) ∷ built_rows (suc p) ts

  built_rows-AreRows :
      (p : ℕ) (seen : List (Option String)) (ts : List Texts)
      → AllFrom IsFit p ts
      → All (IsEarlier p) seen
      → AreRows disk dataset_root release kind selected p seen (built_rows p ts)
  unfolding built_rows
  built_rows-AreRows p seen [] f earlier = tt
  built_rows-AreRows p seen (t ∷ ts) (f, later) earlier = (
    built-IsRowAt disk dataset_root release kind selected seen p t f
        (is_seen-false p t seen f earlier),
    built_rows-AreRows (suc p) (get_default (written (built release kind p t)) "pair_id" ∷ seen) ts
        later
        (
          (p, t, omega arith, f, pair_id-built release kind p t),
          All-map (λ s (q, u, less, g, is_id). (q, u, omega arith, g, is_id)) seen earlier,
        ),
  )

  module _ (make : Row → Result Exception Row) (Good : ℕ → Row → Type 0)
      (made : (p : ℕ) (source : Row)
        → Good p source
        → (t : Texts) × (make source ≡ ok (built release kind p t)) × IsFit p t) where
    collect-built_rows :
        (p : ℕ) (sources : List Row)
        → AllFrom Good p sources
        → (ts : List Texts) × (rows : List Row) × (collect make sources ≡ ok rows)
          × (map written rows ≡ built_rows p ts)
          × AllFrom IsFit p ts
    unfolding built_rows
    collect-built_rows p [] good = ([], [], refl, refl, tt)
    collect-built_rows p (source ∷ sources) (here, later) =
        let (t, is_made, fit) = made p source here in
        let (ts, rows, collected, same_rows, fits) = collect-built_rows (suc p) sources later in
        (
          t ∷ ts,
          built release kind p t ∷ rows,
          rw (is_made, collected),
          ap (λ rest. written (built release kind p t) ∷ rest) same_rows,
          (fit, fits),
        )

    -- Where each source row is made into a fit row, the manifest is made and accepted.
    pub collect-AreRows :
        (sources : List Row)
        → AllFrom Good 0 sources
        → (rows : List Row) × (collect make sources ≡ ok rows)
          × AreRows disk dataset_root release kind selected 0 [] (map written rows)
    collect-AreRows sources good =
        let (ts, rows, collected, same_rows, fits) = collect-built_rows 0 sources good in
        (rows, collected, rw same_rows (built_rows-AreRows 0 [] ts fits tt))
