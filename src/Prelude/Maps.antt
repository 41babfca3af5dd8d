-- ===== src/Prelude/Maps.antt =====
-- Go's maps as association lists with one entry for a key.
use Prim.Native.Nat.{ℕ, zero, suc}
use mathlib.Core.Path.{◌≡◌, refl}
use mathlib.Core.Bool.{Bool, true, false, ◌||◌}
use mathlib.Core.Logic.{◌⊎◌, inl, inr}
use mathlib.Core.Option.{Option, none, some}
use mathlib.Core.List.{List, [], ◌∷◌}
use native.Mathlib.Omega.{arith}
use octopus_permissions_cont.Prelude.Tests.{Eq, ◌==◌, any, all, if◌then◌else◌, Bool-cases}

abbrev pub Map {ℓ κ} : Type ℓ → Type κ → Type (ℓ ⊔ κ)
Map K V = List (K × V)

abbrev pub or_default {ℓ} : {A : Type ℓ} → A → Option A → A
or_default d none = d
or_default d (some a) = a

module _ {ℓ κ} {K : Type ℓ} {V : Type κ} ⦃e : Eq K⦄ where
  unfoldable pub lookup : K → Map K V → Option V
  lookup k [] = none
  lookup k ((j, v) ∷ m) = if j == k then some v else lookup k m

  abbrev pub has_key : Map K V → K → Bool
  has_key m k = any (λ kv. kv.0 == k) m

  -- `m[k] = v`.
  unfoldable pub put : K → V → Map K V → Map K V
  put k v [] = (k, v) ∷ []
  put k v ((j, w) ∷ m) = if j == k then (k, v) ∷ m else (j, w) ∷ put k v m

  -- `delete(m, k)`.
  unfoldable pub delete : K → Map K V → Map K V
  delete k [] = []
  delete k ((j, v) ∷ m) = let rest = delete k m in if j == k then rest else (j, v) ∷ rest

  pub lookup-delete :
      (k j : K) (m : Map K V) → lookup j (delete k m) ≡ (if k == j then none else lookup j m)
  unfolding lookup delete
  lookup-delete k j [] = ground arith
  lookup-delete k j ((i, w) ∷ m) =
      ground (arith, e.equal_iff k j, e.equal_iff i k, e.equal_iff i j, lookup-delete k j m)

  -- `m[k]`, where a missing key reads as the zero value `d`.
  abbrev pub lookup_or : V → K → Map K V → V
  lookup_or d k m = or_default d (lookup k m)

  pub lookup-put :
      (k j : K) (v : V) (m : Map K V)
      → lookup j (put k v m) ≡ (if k == j then some v else lookup j m)
  unfolding lookup put
  lookup-put k j v [] = refl
  lookup-put k j v ((i, w) ∷ m) =
      ground (arith, e.equal_iff k j, e.equal_iff i k, e.equal_iff i j, lookup-put k j v m)

  pub has_key-put :
      (k j : K) (v : V) (m : Map K V) → has_key (put k v m) j ≡ (k == j || has_key m j)
  unfolding put
  has_key-put k j v [] = refl
  has_key-put k j v ((i, w) ∷ m) =
      ground (arith, e.equal_iff k j, e.equal_iff i k, e.equal_iff i j, has_key-put k j v m)

  pub lookup-none : (k : K) (m : Map K V) → has_key m k ≡ false → lookup k m ≡ none
  unfolding lookup
  lookup-none k [] h = refl
  lookup-none k ((j, v) ∷ m) h = ground (arith, lookup-none k m)

  pub lookup-some : (k : K) (m : Map K V) → has_key m k ≡ true → (v : V) × (lookup k m ≡ some v)
  unfolding lookup
  lookup-some k [] h = ground arith
  lookup-some k ((j, v) ∷ m) h = elim (Bool-cases (j == k)) [
    | inl same ↦ (v, rw same)
    | inr other ↦ rw other (lookup-some k m (rw (← h, other)))
  ]

  pub all-put :
      (p : K × V → Bool) (k : K) (v : V) (m : Map K V)
      → p (k, v) ≡ true
      → all p m ≡ true
      → all p (put k v m) ≡ true
  unfolding put
  all-put p k v [] h a = ground (arith, h)
  all-put p k v ((j, w) ∷ m) h a = ground (arith, h, all-put p k v m h)

  -- No key stands twice.
  abbrev pub UniqueKeys : Map K V → Type 0
  UniqueKeys [] = Unit {0}
  UniqueKeys ((k, v) ∷ m) = (has_key m k ≡ false) × UniqueKeys m

  pub put-UniqueKeys : (k : K) (v : V) (m : Map K V) → UniqueKeys m → UniqueKeys (put k v m)
  unfolding put
  put-UniqueKeys k v [] u = (refl, tt)
  put-UniqueKeys k v ((j, w) ∷ m) u = elim (Bool-cases (j == k)) [
    | inl same ↦ rw same (rw ((e.equal_iff j k).0 same) at u)
    | inr other ↦ rw other (
      ground (arith, has_key-put k j v m, e.equal_iff j k, e.equal_iff k j),
      put-UniqueKeys k v m u.1,
    )
  ]

-- A chain of steps that may panic: `none` is a panic.
infixl 5 ◌>>=◌
abbrev pub ◌>>=◌ {ℓ κ} : {A : Type ℓ} {B : Type κ} → Option A → (A → Option B) → Option B
none >>= f = none
some a >>= f = f a

abbrev pub get_elem? {ℓ} : {A : Type ℓ} → List A → ℕ → Option A
get_elem? [] i = none
get_elem? (x ∷ xs) zero = some x
get_elem? (x ∷ xs) (suc i) = get_elem? xs i

abbrev pub length {ℓ} : {A : Type ℓ} → List A → ℕ
length [] = 0
length (x ∷ xs) = suc (length xs)

pub Option-cases {ℓ} : {A : Type ℓ} (o : Option A) → (o ≡ none) ⊎ ((a : A) × (o ≡ some a))
Option-cases none = inl refl
Option-cases (some a) = inr (a, refl)
