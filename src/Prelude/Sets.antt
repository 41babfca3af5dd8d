-- ===== src/Prelude/Sets.antt =====
-- Finite sets as lists without order: a set is used through `contains`.
use mathlib.Core.Path.{◌≡◌, refl}
use mathlib.Core.Bool.{Bool, true, ◌||◌}
use mathlib.Core.List.{List, [], ◌∷◌, Memᴰ}
use native.Mathlib.Omega.{arith}
use octopus_permissions_cont.Prelude.Tests.{
  Eq, ◌==◌, any, if◌then◌else◌, any_of_mem, mem_of_any, ==_refl, Bool-eq_of_iff,
}

-- go-set's `Set`, by its items.
abbrev pub Set {ℓ} : Type ℓ → Type ℓ
Set A = List A

module _ {ℓ} {A : Type ℓ} ⦃e : Eq A⦄ where
  abbrev pub contains : Set A → A → Bool
  contains s a = any (λ x. x == a) s

  unfoldable pub insert : A → Set A → Set A
  insert a s = if contains s a then s else a ∷ s

  pub contains-insert : (a b : A) (s : Set A) → contains (insert a s) b ≡ (a == b || contains s b)
  unfolding insert
  contains-insert a b s = ground (arith, e.equal_iff a b, λ (h : a ≡ b). substituted h)
    where
      substituted : a ≡ b → contains s a ≡ contains s b
      substituted h i = contains s (h i)

  -- `Insert` of one value after another.
  unfoldable pub insert_all : List A → Set A → Set A
  insert_all [] s = s
  insert_all (x ∷ xs) s = insert_all xs (insert x s)

  pub contains-insert_all :
      (xs : List A) (s : Set A) (b : A)
      → contains (insert_all xs s) b ≡ (contains xs b || contains s b)
  unfolding insert_all
  contains-insert_all [] s b = refl
  contains-insert_all (x ∷ xs) s b =
      ground (arith, contains-insert_all xs (insert x s) b, contains-insert x b s)

  -- `set.From`.
  unfoldable pub from_list : List A → Set A
  from_list xs = insert_all xs []

  pub contains-from_list : (xs : List A) (b : A) → contains (from_list xs) b ≡ contains xs b
  unfolding from_list
  contains-from_list xs b = ground (arith, contains-insert_all xs [] b)

  -- A test over the items of a set depends only on what the set contains.
  pub any_of_contains :
      (p : A → Bool) (s t : List A) → ((a : A) → contains s a ≡ contains t a) → any p s ≡ any p t
  any_of_contains p s t same =
      Bool-eq_of_iff (any p s) (any p t)
        (λ h. carry s t (λ a m. rw (← same a) m) (mem_of_any p s h))
        (λ h. carry t s (λ a m. rw (same a) m) (mem_of_any p t h))
    where
      carry :
          (xs ys : List A)
          → ((a : A) → contains xs a ≡ true → contains ys a ≡ true)
          → (a : A) × Memᴰ a xs × (p a ≡ true)
          → any p ys ≡ true
      carry xs ys sub (a, m, h) =
          let (b, mb, eb) = mem_of_any (λ x. x == a) ys (sub a (any_of_mem _ xs a m (==_refl a))) in
          any_of_mem p ys b mb (rw ((e.equal_iff b a).0 eb) h)
