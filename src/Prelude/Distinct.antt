-- ===== src/Prelude/Distinct.antt =====
-- Lists without duplicates: two with the same items are permutations of one another.
use mathlib.Core.Path.{◌≡◌, refl, sym, ◌∙◌, ap, subst₂}
use mathlib.Core.Logic.{inl, inr}
use mathlib.Core.Bool.{true, false, not, ◌&&◌}
use mathlib.Core.List.{List, [], ◌∷◌, map, Memᴰ, Permᴰ}
use mathlib.Core.List.Permᴰ.{refl as Permᴰ-refl, symm as Permᴰ-symm}
use native.Mathlib.Omega.{arith}
use octopus_permissions_cont.Prelude.Tests.{Eq, ◌==◌, if◌then◌else◌, Bool-cases, ==_refl}
use octopus_permissions_cont.Prelude.Sets.{Set, contains, insert}
use octopus_permissions_cont.Prelude.Maps.{Map, has_key, UniqueKeys}
use octopus_permissions_cont.Prelude.Order.{any_of_perm}

module _ {A : Type 0} ⦃e : Eq A⦄ where
  -- No item stands twice.
  abbrev pub Unique : List A → Type 0
  Unique [] = Unit {0}
  Unique (x ∷ xs) = (contains xs x ≡ false) × Unique xs

  pub insert-Unique : (a : A) (s : Set A) → Unique s → Unique (insert a s)
  unfolding insert
  insert-Unique a s u = elim (Bool-cases (contains s a)) [ inl h ↦ rw h u | inr h ↦ rw h (h, u) ]

  Unique-swap : (a b : A) (l : List A) → Unique (b ∷ a ∷ l) → Unique (a ∷ b ∷ l)
  Unique-swap a b l u = ground (arith, e.equal_iff a b, e.equal_iff b a)

  pub Unique-of_perm : {xs ys : List A} → Permᴰ xs ys → Unique ys → Unique xs
  Unique-of_perm Permᴰ.nil u = tt
  Unique-of_perm (Permᴰ.cons {b} p r) u =
      rw p (any_of_perm (λ x. x == b) r ∙ u.0, Unique-of_perm r u.1)
  Unique-of_perm (Permᴰ.swap {a' = a'} {b' = b'} {l} p q) u =
      subst₂ (λ x y. Unique (x ∷ y ∷ l)) (sym p) (sym q) (Unique-swap b' a' l u)
  Unique-of_perm (Permᴰ.trans r s) u = Unique-of_perm r (Unique-of_perm s u)

  abbrev without : A → List A → List A
  without x [] = []
  without x (y ∷ ys) = let rest = without x ys in if y == x then ys else y ∷ rest

  without-perm : (x : A) (ys : List A) → contains ys x ≡ true → Permᴰ ys (x ∷ without x ys)
  without-perm x [] h = ground arith
  without-perm x (y ∷ ys) h = elim (Bool-cases (y == x)) [
    | inl same ↦ rw same (Permᴰ.cons ((e.equal_iff y x).0 same) (Permᴰ-refl ys))
    | inr other ↦
        rw other
          (Permᴰ.trans (Permᴰ.cons refl (without-perm x ys (ground arith))) (Permᴰ.swap refl refl))
  ]

  contains-without :
      (x b : A) (ys : List A)
      → Unique ys
      → contains (without x ys) b ≡ (contains ys b && not (x == b))
  contains-without x b [] u = refl
  contains-without x b (y ∷ ys) u = ground (
    arith,
    contains-without x b ys u.1,
    e.equal_iff y x,
    e.equal_iff y b,
    e.equal_iff x b,
    λ (h : y ≡ b). ap (contains ys) h,
    u,
  )

  without-Unique : (x : A) (ys : List A) → Unique ys → Unique (without x ys)
  without-Unique x [] u = tt
  without-Unique x (y ∷ ys) u = elim (Bool-cases (y == x)) [
    | inl same ↦ rw same (u.1)
    | inr other ↦ rw other (ground (arith, contains-without x y ys u.1, u), without-Unique x ys u.1)
  ]

  pub perm_of_contains :
      (xs ys : List A)
      → Unique xs
      → Unique ys
      → ((a : A) → contains xs a ≡ contains ys a)
      → Permᴰ xs ys
  perm_of_contains [] [] u v h = Permᴰ.nil
  perm_of_contains [] (y ∷ ys) u v h = ground (arith, h y, ==_refl y)
  perm_of_contains (x ∷ xs) ys u v h =
      Permᴰ.trans
        (Permᴰ.cons refl (
          perm_of_contains xs (without x ys) u.1 (without-Unique x ys v)
            λ a. ground (arith, h a, contains-without x a ys v, e.equal_iff x a, u)))
        (Permᴰ-symm (without-perm x ys (ground (arith, h x, ==_refl x))))

-- The keys of a map.
abbrev pub keys : {A B : Type 0} → Map A B → List A
keys m = map (λ kv. kv.0) m

module _ {A B : Type 0} ⦃e : Eq A⦄ where
  pub contains-keys : (m : Map A B) (a : A) → contains (keys m) a ≡ has_key m a
  contains-keys [] a = refl
  contains-keys (kv ∷ m) a = ground (arith, contains-keys m a)

  pub keys-Unique : (m : Map A B) → UniqueKeys m → Unique (keys m)
  keys-Unique [] u = tt
  keys-Unique (kv ∷ m) u = (contains-keys m kv.0 ∙ u.0, keys-Unique m u.1)

pub map_perm :
    {A B : Type 0} (f : A → B) {xs ys : List A} → Permᴰ xs ys → Permᴰ (map f xs) (map f ys)
map_perm f Permᴰ.nil = Permᴰ.nil
map_perm f (Permᴰ.cons p r) = Permᴰ.cons (ap f p) (map_perm f r)
map_perm f (Permᴰ.swap p q) = Permᴰ.swap (ap f p) (ap f q)
map_perm f (Permᴰ.trans r s) = Permᴰ.trans (map_perm f r) (map_perm f s)

pub mem_of_perm : {A : Type 0} {a : A} {xs ys : List A} → Permᴰ xs ys → Memᴰ a xs → Memᴰ a ys
mem_of_perm Permᴰ.nil m = m
mem_of_perm (Permᴰ.cons p r) (Memᴰ.head e) = Memᴰ.head (e ∙ p)
mem_of_perm (Permᴰ.cons p r) (Memᴰ.tail m) = Memᴰ.tail (mem_of_perm r m)
mem_of_perm (Permᴰ.swap p q) (Memᴰ.head e) = Memᴰ.tail (Memᴰ.head (e ∙ p))
mem_of_perm (Permᴰ.swap p q) (Memᴰ.tail (Memᴰ.head e)) = Memᴰ.head (e ∙ q)
mem_of_perm (Permᴰ.swap p q) (Memᴰ.tail (Memᴰ.tail m)) = Memᴰ.tail (Memᴰ.tail m)
mem_of_perm (Permᴰ.trans r s) m = mem_of_perm s (mem_of_perm r m)
