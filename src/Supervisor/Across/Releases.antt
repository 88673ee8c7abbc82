-- ===== src/Supervisor/Across/Releases.antt =====
-- Manifests that were built have one logical structure in both releases.
use fingerprint_full_matcher.Prelude.{
  ℕ, suc, String, true, List, [], ◌∷◌, map, ◌≡◌, refl, ap, sym, ◌∙◌, length, length-map, ◌==◌,
  ==_iff,
}
use fingerprint_full_matcher.Prelude.Int.{ℤ}
use fingerprint_full_matcher.Prelude.Result.{
  Result, ok, bind_returned, ok-injective, collect, collect-cons, Exception,
}
use fingerprint_full_matcher.Supervisor.{
  Release, sd300b, sd300c, Kind, plain_self, roll_self, plain_roll_genuine, plain_roll_next_subject,
  Row, get_cell, int_of_cell,
}
use fingerprint_full_matcher.Supervisor.Columns.{logical_fields}
use fingerprint_full_matcher.Supervisor.Paths.{Parts, Disk}
use fingerprint_full_matcher.Supervisor.Rows.{
  genuine_row, impostor_row, self_row, plain, roll, written,
}
use fingerprint_full_matcher.Supervisor.Build.{
  Manifests, rows_of, same_values, release_manifests, require_same_structure, checked_source,
  build_manifests,
}
use fingerprint_full_matcher.Supervisor.Across.Read.{
  Same, Reads, genuine_row-Reads, impostor_row-Reads, self_row-Reads,
}
use fingerprint_full_matcher.Supervisor.Across.Alike.{
  Alike, plain-Alike, roll-Alike, genuine-Alike, impostor-Alike,
}
use fingerprint_full_matcher.Supervisor.Across.{
  cross_errors, rows_or_none, logical_values, structure_errors, kind_errors,
  validate_cross_release_structure, found,
}
use fingerprint_full_matcher.Supervisor.Across.Projections.{
  AgreeBy, same_values_refl, require_same_structure-AgreeBy,
}

module _ (disk : Disk) (dataset_root : Parts) (kind : Kind)
    (make : Release → Row → Result Exception Row) (made : Release → Row → ℤ → String → String → Row)
    (finger : (b c : Row)
      → Same kind b c
      → get_cell b "canonical_finger" ≡ get_cell c "canonical_finger")
    (reads : Reads disk dataset_root make made) (alike : Alike disk dataset_root kind made) where
  row-alike :
      (b c x y : Row)
      → Same kind b c
      → make sd300b b ≡ ok x
      → make sd300c c ≡ ok y
      → logical_values (written x) ≡ logical_values (written y)
  unfolding Reads Alike
  row-alike b c x y s at_b at_c =
      let (finger_b, p, q, is_b, row_b) = reads sd300b b x at_b in
      let (finger_c, r, t, is_c, row_c) = reads sd300c c y at_c in
      let same_finger : finger_b ≡ finger_c =
        ok-injective (sym is_b ∙ ap int_of_cell (finger b c s) ∙ is_c) in
      ap (λ row. logical_values (written row)) (sym row_b)
      ∙ ap (λ f. logical_values (written (made sd300b b f p q))) same_finger
      ∙ alike b c finger_c p q r t s
      ∙ ap (λ row. logical_values (written row)) row_c

  rows-alike :
      (out : Kind) (index : ℕ) (left right xs ys : List Row)
      → AgreeBy (Same kind) left right
      → collect (make sd300b) left ≡ ok xs
      → collect (make sd300c) right ≡ ok ys
      → (structure_errors out index (map written xs) (map written ys) ≡ [])
        × (length xs ≡ length ys)
  unfolding AgreeBy structure_errors
  rows-alike out index [] [] xs ys s h k = rw (← ok-injective h, ← ok-injective k) (refl, refl)
  rows-alike out index [] (c ∷ right) xs ys s h k = absurd s
  rows-alike out index (b ∷ left) [] xs ys s h k = absurd s
  rows-alike out index (b ∷ left) (c ∷ right) xs ys s h k =
      let (x, xs', is_x, are_xs, e) = collect-cons (make sd300b) b left xs h in
      let (y, ys', is_y, are_ys, f) = collect-cons (make sd300c) c right ys k in
      let (rest, same_length) = rows-alike out (suc index) left right xs' ys' s.1 are_xs are_ys in
      let first : same_values (logical_values (written x)) (logical_values (written y)) ≡ true =
        ap (λ v. same_values v (logical_values (written y))) (row-alike b c x y s.0 is_x is_y)
        ∙ same_values_refl (logical_values (written y)) in
      rw (← e, ← f, first) (rest, ap suc same_length)

  -- The manifests that are made of sources that agree.
  kind_errors-nil :
      (out : Kind) (left right xs ys : List Row)
      → AgreeBy (Same kind) left right
      → collect (make sd300b) left ≡ ok xs
      → collect (make sd300c) right ≡ ok ys
      → kind_errors out (map written xs) (map written ys) ≡ []
  unfolding kind_errors
  kind_errors-nil out left right xs ys s h k =
      let (none_found, same_length) = rows-alike out 2 left right xs ys s h k in
      let counted : (length (map written xs) == length (map written ys)) ≡ true =
        (==_iff (length (map written xs)) (length (map written ys))).1
          (length-map written xs ∙ same_length ∙ sym (length-map written ys)) in
      rw counted none_found

genuine_finger :
    (b c : Row)
    → Same plain_roll_genuine b c
    → get_cell b "canonical_finger" ≡ get_cell c "canonical_finger"
unfolding logical_fields
genuine_finger b c s = s.1.1.1.0

impostor_finger :
    (b c : Row)
    → Same plain_roll_next_subject b c
    → get_cell b "canonical_finger" ≡ get_cell c "canonical_finger"
unfolding logical_fields
impostor_finger b c s = s.1.1.1.1.1.1.0

module _ (disk : Disk) (dataset_root : Parts) where
  record Collected (release : Release) (genuine impostor : List Row) (m : Manifests) : Type 0 where
    pub plain_rows : List Row
    pub roll_rows : List Row
    pub genuine_rows : List Row
    pub impostor_rows : List Row
    pub of_plain :
        collect (λ row. self_row disk dataset_root release row plain) genuine ≡ ok plain_rows
    pub of_roll :
        collect (λ row. self_row disk dataset_root release row roll) genuine ≡ ok roll_rows
    pub of_genuine : collect (genuine_row disk dataset_root release) genuine ≡ ok genuine_rows
    pub of_impostor : collect (impostor_row disk dataset_root release) impostor ≡ ok impostor_rows
    pub together : m ≡ record {
      of_plain_self = map written plain_rows;
      of_roll_self = map written roll_rows;
      of_genuine = map written genuine_rows;
      of_next_subject = map written impostor_rows;
    }

  release_manifests-Collected :
      (release : Release) (genuine impostor : List Row) (m : Manifests)
      → release_manifests disk dataset_root release genuine impostor ≡ ok m
      → Collected release genuine impostor m
  unfolding release_manifests
  release_manifests-Collected release genuine impostor m h =
      let (plain_rows, p, h1) =
        bind_returned (collect (λ row. self_row disk dataset_root release row plain) genuine) _ h in
      let (roll_rows, r, h2) =
        bind_returned (collect (λ row. self_row disk dataset_root release row roll) genuine) _ h1 in
      let (genuine_rows, g, h3) =
        bind_returned (collect (genuine_row disk dataset_root release) genuine) _ h2 in
      let (impostor_rows, i, h4) =
        bind_returned (collect (impostor_row disk dataset_root release) impostor) _ h3 in
      record {
        plain_rows = plain_rows;
        roll_rows = roll_rows;
        genuine_rows = genuine_rows;
        impostor_rows = impostor_rows;
        of_plain = p;
        of_roll = r;
        of_genuine = g;
        of_impostor = i;
        together = sym (ok-injective h4);
      }

  structure-nil :
      (genuine_b genuine_c impostor_b impostor_c : List Row) (b c : Manifests)
      → AgreeBy (Same plain_roll_genuine) genuine_b genuine_c
      → AgreeBy (Same plain_roll_next_subject) impostor_b impostor_c
      → Collected sd300b genuine_b impostor_b b
      → Collected sd300c genuine_c impostor_c c
      → validate_cross_release_structure (found b c) ≡ []
  unfolding validate_cross_release_structure found rows_of rows_or_none cross_errors
  structure-nil genuine_b genuine_c impostor_b impostor_c b c g i x y = rw (
    x.together,
    y.together,
    kind_errors-nil disk dataset_root plain_roll_genuine
        (λ release row. self_row disk dataset_root release row plain) _ genuine_finger
        (self_row-Reads disk dataset_root plain) (plain-Alike disk dataset_root) plain_self
        genuine_b genuine_c x.plain_rows y.plain_rows g x.of_plain y.of_plain,
    kind_errors-nil disk dataset_root plain_roll_genuine
        (λ release row. self_row disk dataset_root release row roll) _ genuine_finger
        (self_row-Reads disk dataset_root roll) (roll-Alike disk dataset_root) roll_self genuine_b
        genuine_c x.roll_rows y.roll_rows g x.of_roll y.of_roll,
    kind_errors-nil disk dataset_root plain_roll_genuine (genuine_row disk dataset_root) _
        genuine_finger (genuine_row-Reads disk dataset_root) (genuine-Alike disk dataset_root)
        plain_roll_genuine genuine_b genuine_c x.genuine_rows y.genuine_rows g x.of_genuine
        y.of_genuine,
    kind_errors-nil disk dataset_root plain_roll_next_subject (impostor_row disk dataset_root) _
        impostor_finger (impostor_row-Reads disk dataset_root) (impostor-Alike disk dataset_root)
        plain_roll_next_subject impostor_b impostor_c x.impostor_rows y.impostor_rows i
        x.of_impostor y.of_impostor,
  )

  -- Whatever the source manifests hold: where `_build_manifests` returns, the validator finds the same
  -- logical structure in the manifests of both releases.
  pub build_manifests-same_structure :
      (read_source : Release → Kind → Result Exception (List Row)) (selected : List String)
      (b c : Manifests)
      → build_manifests disk dataset_root read_source selected ≡ ok (b, c)
      → validate_cross_release_structure (found b c) ≡ []
  unfolding build_manifests
  build_manifests-same_structure read_source selected b c h =
      let source = checked_source disk dataset_root read_source selected in
      let (genuine_b, _, h1) = bind_returned (source sd300b plain_roll_genuine) _ h in
      let (genuine_c, _, h2) = bind_returned (source sd300c plain_roll_genuine) _ h1 in
      let (impostor_b, _, h3) = bind_returned (source sd300b plain_roll_next_subject) _ h2 in
      let (impostor_c, _, h4) = bind_returned (source sd300c plain_roll_next_subject) _ h3 in
      let (_, genuine, h5) =
        bind_returned (require_same_structure plain_roll_genuine genuine_b genuine_c) _ h4 in
      let (_, impostor, h6) =
        bind_returned (require_same_structure plain_roll_next_subject impostor_b impostor_c) _ h5 in
      let (m, of_b, h7) =
        bind_returned (release_manifests disk dataset_root sd300b genuine_b impostor_b) _ h6 in
      let (n, of_c, h8) =
        bind_returned (release_manifests disk dataset_root sd300c genuine_c impostor_c) _ h7 in
      let pair = ok-injective h8 in
      ap (λ (p : Manifests × Manifests). validate_cross_release_structure (found p.0 p.1))
        (sym pair)
      ∙ structure-nil genuine_b genuine_c impostor_b impostor_c m n
          (require_same_structure-AgreeBy plain_roll_genuine genuine_b genuine_c genuine)
          (require_same_structure-AgreeBy plain_roll_next_subject impostor_b impostor_c impostor)
          (release_manifests-Collected sd300b genuine_b impostor_b m of_b)
          (release_manifests-Collected sd300c genuine_c impostor_c n of_c)
