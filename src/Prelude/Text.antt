-- ===== src/Prelude/Text.antt =====
-- Texts: Go's `strings.Join`, and sorting by the order of the bytes.
use Prim.Native.Nat.{ℕ, zero, suc, ◌+◌, ◌/◌, ◌%◌, Ordering}
use mathlib.Core.Path.{◌≡◌, refl}
use Prim.Native.String.{String, compare, slice, ◌++◌ as ◌<>◌}
use mathlib.Core.Bool.{Bool, true, false}
use mathlib.Core.List.{List, [], ◌∷◌}
use octopus_permissions_cont.Prelude.Tests.{ltb, if◌then◌else◌}

unfoldable pub join : String → List String → String
join separator [] = ""
join separator (x ∷ []) = x
join separator (x ∷ y ∷ xs) = x <> separator <> join separator (y ∷ xs)

abbrev pub str_leb : String → String → Bool
str_leb a b = elim (compare a b) [ Ordering.gt ↦ false | _ ↦ true ]

-- `slices.SortFunc` by the order of the texts that stand for the items, and `slices.Sort`.
module _ {ℓ} {A : Type ℓ} (text : A → String) where
  unfoldable pub insert_sorted : A → List A → List A
  insert_sorted a [] = a ∷ []
  insert_sorted a (b ∷ bs) =
      if str_leb (text a) (text b) then a ∷ b ∷ bs else b ∷ insert_sorted a bs

  unfoldable pub sort_by : List A → List A
  unfolding insert_sorted
  sort_by [] = []
  sort_by (a ∷ rest) = insert_sorted a (sort_by rest)

unfoldable pub sort : List String → List String
unfolding sort_by
sort xs = sort_by (λ x. x) xs

-- `%d`. The fuel is the number itself, which has fewer digits.
decimal_from : ℕ → ℕ → String
decimal_from zero n = slice "0123456789" n (n + 1)
decimal_from (suc fuel) n =
    let longer = decimal_from fuel (n / 10) <> slice "0123456789" (n % 10) (n % 10 + 1) in
    if ltb n 10 then slice "0123456789" n (n + 1) else longer

unfoldable pub decimal : ℕ → String
unfolding decimal_from
decimal n = decimal_from n n

decimal_example : decimal 1204 ≡ "1204"
unfolding decimal
decimal_example = refl
