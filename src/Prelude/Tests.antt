-- ===== src/Prelude/Tests.antt =====
-- Boolean tests: on numbers, on texts, on whatever has an equality, and over the items of a list.
use Prim.Native.Nat.{ℕ, compare, Ordering}
use Prim.Native.String.{String}
use mathlib.Core.Path.{◌≡◌, refl}
use mathlib.Core.Logic.{◌↔◌, ◌⊎◌, inl, inr}
use mathlib.Core.Bool.{Bool, true, false, ◌&&◌, ◌||◌}
use mathlib.Core.List.{List, [], ◌∷◌, ◌++◌, Memᴰ}
use native.Mathlib.Omega.{arith}
use text.Mathlib.Text.{◌==◌ as str_eq}
use text.Mathlib.TextEquality.{eq_iff}

abbrev pub ltb : ℕ → ℕ → Bool
ltb a b = elim (compare a b) [ Ordering.lt ↦ true | _ ↦ false ]

abbrev pub leb : ℕ → ℕ → Bool
leb a b = elim (compare a b) [ Ordering.gt ↦ false | _ ↦ true ]

abbrev pub nat_beq : ℕ → ℕ → Bool
nat_beq a b = elim (compare a b) [ Ordering.eq ↦ true | _ ↦ false ]

pub nat_beq_iff : (a b : ℕ) → (nat_beq a b ≡ true) ↔ (a ≡ b)
nat_beq_iff a b = (λ h. ground arith, λ h. ground arith)

infix 1 if◌then◌else◌
abbrev pub if◌then◌else◌ {ℓ} : {A : Type ℓ} → Bool → A → A → A
if true then x else y = x
if false then x else y = y

-- To split on a computed test and keep the equation.
pub Bool-cases : (b : Bool) → (b ≡ true) ⊎ (b ≡ false)
Bool-cases true = inl refl
Bool-cases false = inr refl

-- Two tests that hold together are equal.
pub Bool-eq_of_iff : (b c : Bool) → (b ≡ true → c ≡ true) → (c ≡ true → b ≡ true) → b ≡ c
Bool-eq_of_iff true c f g = ground (arith, f refl)
Bool-eq_of_iff false true f g = ground (arith, g refl)
Bool-eq_of_iff false false f g = refl

-- Equality of a type, as a test that an instance supplies.
pub record Eq {ℓ} (A : Type ℓ) : Type ℓ where
  pub equal : A → A → Bool
  pub equal_iff : (a b : A) → (equal a b ≡ true) ↔ (a ≡ b)

infix 50 ◌==◌
abbrev pub ◌==◌ {ℓ} : {A : Type ℓ} ⦃e : Eq A⦄ → A → A → Bool
◌==◌ ⦃e⦄ = e.equal

module _ {ℓ} {A : Type ℓ} ⦃e : Eq A⦄ where
  pub ==_refl : (a : A) → (a == a) ≡ true
  ==_refl a = (e.equal_iff a a).1 refl

  pub ==_comm : (a b : A) → (a == b) ≡ (b == a)
  ==_comm a b = ground (arith, e.equal_iff a b, e.equal_iff b a)

instance abbrev pub string_eq : Eq String
string_eq = record { equal = str_eq; equal_iff = eq_iff }

instance abbrev pub nat_eq : Eq ℕ
nat_eq = record { equal = nat_beq; equal_iff = nat_beq_iff }

module _ {ℓ} {A : Type ℓ} where
  -- Some item passes the test.
  abbrev pub any : (A → Bool) → List A → Bool
  any p [] = false
  any p (x ∷ xs) = p x || any p xs

  abbrev pub all : (A → Bool) → List A → Bool
  all p [] = true
  all p (x ∷ xs) = p x && all p xs

  abbrev pub null : List A → Bool
  null [] = true
  null (x ∷ xs) = false

  pub any_of_mem : (p : A → Bool) (xs : List A) (a : A) → Memᴰ a xs → p a ≡ true → any p xs ≡ true
  any_of_mem p [] a m h = elim m [ ]
  any_of_mem p (x ∷ xs) a (Memᴰ.head e) h = ground arith
  any_of_mem p (x ∷ xs) a (Memᴰ.tail m) h = ground (arith, any_of_mem p xs a m h)

  pub mem_of_any :
      (p : A → Bool) (xs : List A) → any p xs ≡ true → (a : A) × Memᴰ a xs × (p a ≡ true)
  mem_of_any p [] h = ground arith
  mem_of_any p (x ∷ xs) h = elim (Bool-cases (p x)) [
    | inl yes_x ↦ (x, Memᴰ.head refl, yes_x)
    | inr no_x ↦ let (a, m, e) = mem_of_any p xs (ground arith) in (a, Memᴰ.tail m, e)
  ]

  pub any_congr :
      (p q : A → Bool) (xs : List A) → ((a : A) → Memᴰ a xs → p a ≡ q a) → any p xs ≡ any q xs
  any_congr p q [] h = refl
  any_congr p q (x ∷ xs) h =
      ground (arith, h x (Memᴰ.head refl), any_congr p q xs (λ a m. h a (Memᴰ.tail m)))

  pub all_congr : (p q : A → Bool) (xs : List A) → ((a : A) → p a ≡ q a) → all p xs ≡ all q xs
  all_congr p q [] h = refl
  all_congr p q (x ∷ xs) h = ground (arith, h x, all_congr p q xs h)

  pub any-or : (p q : A → Bool) (xs : List A) → any (λ a. p a || q a) xs ≡ (any p xs || any q xs)
  any-or p q [] = refl
  any-or p q (x ∷ xs) = ground (arith, any-or p q xs)

  pub any-and_right :
      (p : A → Bool) (c : Bool) (xs : List A) → any (λ a. p a && c) xs ≡ (any p xs && c)
  any-and_right p c [] = refl
  any-and_right p c (x ∷ xs) = ground (arith, any-and_right p c xs)

  pub any-and_left :
      (p : A → Bool) (c : Bool) (xs : List A) → any (λ a. c && p a) xs ≡ (c && any p xs)
  any-and_left p true xs = refl
  any-and_left p false [] = refl
  any-and_left p false (x ∷ xs) = any-and_left p false xs

  pub any-false : (xs : List A) → any (λ _. false) xs ≡ false
  any-false [] = refl
  any-false (x ∷ xs) = any-false xs

  pub any-append : (p : A → Bool) (xs ys : List A) → any p (xs ++ ys) ≡ (any p xs || any p ys)
  any-append p [] ys = refl
  any-append p (x ∷ xs) ys = ground (arith, any-append p xs ys)
