-- ===== src/Prelude/Sorting.antt =====
-- Sorting texts by the order of their bytes gives permuted lists one result.
use Prim.Native.Nat.{Ordering, compare as compare_ℕ}
use Prim.Native.Char.{Char, code}
use Prim.Native.String.compare
use Prim.Native.String.{String, [] as empty, ◌∷◌ as ◌∷ₛ◌, compare, then as next}
use mathlib.Core.Path.{◌≡◌, refl, ◌∙◌, ap}
use mathlib.Core.Logic.{inl, inr}
use mathlib.Core.Bool.{Bool, true, false, ◌&&◌, ◌||◌}
use mathlib.Core.List.{List, [], ◌∷◌, map, Permᴰ}
use native.Mathlib.Omega.{arith}
use text.Mathlib.TextEquality.{codes_equal}
use octopus_permissions_cont.Prelude.Tests.{ltb, nat_beq, Bool-cases}
use octopus_permissions_cont.Prelude.Text.{str_leb, insert_sorted, sort_by, sort}

-- One character after another.
abbrev not_gt : Ordering → Bool
not_gt Ordering.gt = false
not_gt _ = true

not_gt-next :
    (o r : Ordering)
    → not_gt (next o r) ≡ (
        (elim o [ Ordering.lt ↦ true | _ ↦ false ])
        || ((elim o [ Ordering.eq ↦ true | _ ↦ false ]) && not_gt r))
not_gt-next Ordering.lt r = refl
not_gt-next Ordering.eq r = refl
not_gt-next Ordering.gt r = refl

is_eq-true : (o : Ordering) → (elim o [ Ordering.eq ↦ true | _ ↦ false ]) ≡ true → o ≡ Ordering.eq
is_eq-true Ordering.lt h = ground arith
is_eq-true Ordering.eq h = refl
is_eq-true Ordering.gt h = ground arith

str_leb-cons :
    (c d : Char) (s t : String)
    → str_leb (c ∷ₛ s) (d ∷ₛ t)
      ≡ (ltb (code c) (code d) || (nat_beq (code c) (code d) && str_leb s t))
str_leb-cons c d s t =
    ap not_gt (compare.cons-cons c d s t) ∙ not_gt-next (compare_ℕ (code c) (code d)) (compare s t)

str_leb-nil : (t : String) → str_leb empty t ≡ true
str_leb-nil empty = ap not_gt compare.nil-nil
str_leb-nil (d ∷ₛ t) = ap not_gt (compare.nil-cons d t)

str_leb-cons_nil : (c : Char) (s : String) → str_leb (c ∷ₛ s) empty ≡ false
str_leb-cons_nil c s = ap not_gt (compare.cons-nil c s)

pub str_leb_total : (s t : String) → (str_leb s t || str_leb t s) ≡ true
str_leb_total empty t = ground (arith, str_leb-nil t)
str_leb_total (c ∷ₛ s) empty = ground (arith, str_leb-nil (c ∷ₛ s))
str_leb_total (c ∷ₛ s) (d ∷ₛ t) =
    ground (arith, str_leb-cons c d s t, str_leb-cons d c t s, str_leb_total s t)

pub str_leb_antisymm : (s t : String) → str_leb s t ≡ true → str_leb t s ≡ true → s ≡ t
str_leb_antisymm empty empty h g = refl
str_leb_antisymm empty (d ∷ₛ t) h g = ground (arith, str_leb-cons_nil d t)
str_leb_antisymm (c ∷ₛ s) empty h g = ground (arith, str_leb-cons_nil c s)
str_leb_antisymm (c ∷ₛ s) (d ∷ₛ t) h g = λ i.
    codes_equal c d (is_eq-true (compare_ℕ (code c) (code d)) both.0) i
    ∷ₛ str_leb_antisymm s t both.1 both.2 i
  where
    both : (nat_beq (code c) (code d) ≡ true) × (str_leb s t ≡ true) × (str_leb t s ≡ true)
    both = ground (arith, str_leb-cons c d s t, str_leb-cons d c t s)

pub str_leb_trans : (s t u : String) → str_leb s t ≡ true → str_leb t u ≡ true → str_leb s u ≡ true
str_leb_trans empty t u h g = str_leb-nil u
str_leb_trans (c ∷ₛ s) empty u h g = ground (arith, str_leb-cons_nil c s)
str_leb_trans (c ∷ₛ s) (d ∷ₛ t) empty h g = ground (arith, str_leb-cons_nil d t)
str_leb_trans (c ∷ₛ s) (d ∷ₛ t) (e ∷ₛ u) h g =
    ground
      (arith, str_leb-cons c d s t, str_leb-cons d e t u, str_leb-cons c e s u, str_leb_trans s t u)

abbrev inserted : String → List String → List String
inserted = insert_sorted (λ x. x)

inserted-inserted :
    (a b : String) (xs : List String) → inserted a (inserted b xs) ≡ inserted b (inserted a xs)
unfolding insert_sorted
inserted-inserted a b [] = ground (arith, str_leb_total a b, str_leb_antisymm a b)
inserted-inserted a b (c ∷ xs) = ground (
  arith,
  inserted-inserted a b xs,
  str_leb_total a b,
  str_leb_total a c,
  str_leb_total b c,
  str_leb_antisymm a b,
  str_leb_trans a b c,
  str_leb_trans b a c,
  str_leb_trans a c b,
  str_leb_trans b c a,
)

pub sort-perm : {xs ys : List String} → Permᴰ xs ys → sort xs ≡ sort ys
unfolding sort sort_by
sort-perm Permᴰ.nil = refl
sort-perm (Permᴰ.cons p r) = λ i. inserted (p i) (sort-perm r i)
sort-perm (Permᴰ.swap {a' = a'} {b' = b'} {l} p q) =
    (λ i. inserted (p i) (inserted (q i) (sort l))) ∙ inserted-inserted b' a' (sort l)
sort-perm (Permᴰ.trans r s) = sort-perm r ∙ sort-perm s

-- Sorting items by their texts, seen through the texts.
pub map-sort_by :
    {A : Type 0} (text : A → String) (xs : List A) → map text (sort_by text xs) ≡ sort (map text xs)
unfolding sort sort_by insert_sorted
map-sort_by text [] = refl
map-sort_by {A} text (x ∷ xs) =
    map-insert_sorted x (sort_by text xs) ∙ ap (inserted (text x)) (map-sort_by text xs)
  where
    map-insert_sorted :
        (a : A) (bs : List A) → map text (insert_sorted text a bs) ≡ inserted (text a) (map text bs)
    map-insert_sorted a [] = refl
    map-insert_sorted a (b ∷ bs) = elim (Bool-cases (str_leb (text a) (text b))) [
      | inl h ↦ rw h refl
      | inr h ↦ rw h (ap (λ r. text b ∷ r) (map-insert_sorted a bs))
    ]
