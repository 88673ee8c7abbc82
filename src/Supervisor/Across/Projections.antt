-- ===== src/Supervisor/Across/Projections.antt =====
-- Source rows whose projections are equal agree on the cells that the projections read.
use fingerprint_full_matcher.Prelude.{
  String, true, Option, List, [], ◌∷◌, map, ◌≡◌, refl, ap, sym, ◌∙◌, All, and_true,
}
use fingerprint_full_matcher.Prelude.Result.{
  ok, bind_returned, require_ok, ok-injective, collect, collect-cons,
}
use fingerprint_full_matcher.Supervisor.{Kind, Row, get_cell, same, same_iff}
use fingerprint_full_matcher.Supervisor.Columns.{items, logical_fields, logical_source_projection}
use fingerprint_full_matcher.Supervisor.Build.{
  same_values, same_projections, require_same_structure,
}
use fingerprint_full_matcher.Supervisor.Across.Read.{item_bind, Same}

-- The rows of two lists agree one by one.
unfoldable pub AgreeBy : (Row → Row → Type 0) → List Row → List Row → Type 0
AgreeBy R [] [] = Unit
AgreeBy R (b ∷ left) (c ∷ right) = R b c × AgreeBy R left right
AgreeBy R _ _ = ⊥

same_values-eq : (s t : List (Option String)) → same_values s t ≡ true → s ≡ t
unfolding same_values
same_values-eq [] [] h = refl
same_values-eq [] (b ∷ t) h = cc
same_values-eq (a ∷ s) [] h = cc
same_values-eq (a ∷ s) (b ∷ t) h =
    let (first, rest) = and_true (same a b) (same_values s t) h in
    let e = (same_iff a b).0 first in let f = same_values-eq s t rest in cc

pub same_values_refl : (s : List (Option String)) → same_values s s ≡ true
unfolding same_values
same_values_refl [] = refl
same_values_refl (a ∷ s) = rw ((same_iff a a).1 refl) (same_values_refl s)

items-read :
    (row : Row) (fields : List String) (values : List (Option String))
    → items row fields ≡ ok values
    → map (get_cell row) fields ≡ values
unfolding items
items-read row [] values h = ok-injective h
items-read row (field ∷ fields) values h =
    let h1 = item_bind row field _ h in
    let (rest, is_rest, last) = bind_returned (items row fields) _ h1 in
    ap (λ t. get_cell row field ∷ t) (items-read row fields rest is_rest) ∙ ok-injective last

map-All :
    (b c : Row) (fields : List String)
    → map (get_cell b) fields ≡ map (get_cell c) fields
    → All (λ key. get_cell b key ≡ get_cell c key) fields
map-All b c [] h = tt
map-All b c (f ∷ fs) h = (cc, map-All b c fs (cc))

-- `logical_source_projection`, where every item is there.
projection : Kind → Row → List (Option String)
projection kind row = map (get_cell row) (logical_fields kind)

collect-read :
    (kind : Kind) (rows : List Row) (values : List (List (Option String)))
    → collect (λ row. logical_source_projection row kind) rows ≡ ok values
    → map (projection kind) rows ≡ values
unfolding logical_source_projection projection
collect-read kind [] values h = ok-injective h
collect-read kind (row ∷ rows) values h =
    let (value, rest, here, later, last) =
      collect-cons (λ row. logical_source_projection row kind) row rows values h in
    let e = items-read row (logical_fields kind) value here in
    let f = collect-read kind rows rest later in
    ap (λ t. t ∷ map (projection kind) rows) e ∙ ap (λ t. value ∷ t) f ∙ last

same_projections-eq : (s t : List (List (Option String))) → same_projections s t ≡ true → s ≡ t
unfolding same_projections
same_projections-eq [] [] h = refl
same_projections-eq [] (b ∷ t) h = cc
same_projections-eq (a ∷ s) [] h = cc
same_projections-eq (a ∷ s) (b ∷ t) h =
    let (first, rest) = and_true (same_values a b) (same_projections s t) h in
    let e = same_values-eq a b first in let f = same_projections-eq s t rest in cc

projections-AgreeBy :
    (kind : Kind) (rows_b rows_c : List Row)
    → map (projection kind) rows_b ≡ map (projection kind) rows_c
    → AgreeBy (Same kind) rows_b rows_c
unfolding AgreeBy projection
projections-AgreeBy kind [] [] h = tt
projections-AgreeBy kind [] (c ∷ rows_c) h = cc
projections-AgreeBy kind (b ∷ rows_b) [] h = cc
projections-AgreeBy kind (b ∷ rows_b) (c ∷ rows_c) h =
    (map-All b c (logical_fields kind) (cc), projections-AgreeBy kind rows_b rows_c (cc))

pub require_same_structure-AgreeBy :
    (kind : Kind) (rows_b rows_c : List Row) {u : Unit {0}}
    → require_same_structure kind rows_b rows_c ≡ ok u
    → AgreeBy (Same kind) rows_b rows_c
unfolding require_same_structure
require_same_structure-AgreeBy kind rows_b rows_c h =
    let (left, is_left, h1) =
      bind_returned (collect (λ row. logical_source_projection row kind) rows_b) _ h in
    let (right, is_right, h2) =
      bind_returned (collect (λ row. logical_source_projection row kind) rows_c) _ h1 in
    let equal = same_projections-eq left right (require_ok (same_projections left right) _ h2) in
    projections-AgreeBy kind rows_b rows_c (
      collect-read kind rows_b left is_left ∙ equal ∙ sym (collect-read kind rows_c right is_right))
