-- ===== src/Prelude/Order.antt =====
-- The order in which Go visits a map or a set, which the language leaves open.
use mathlib.Core.Path.{◌≡◌, refl, sym, subst₂, ◌∙◌}
use mathlib.Core.Bool.{Bool}
use mathlib.Core.List.{List, ◌∷◌, Permᴰ}
use native.Mathlib.Omega.{arith}
use octopus_permissions_cont.Prelude.Tests.{Eq, ◌==◌, any, all}
use octopus_permissions_cont.Prelude.Maps.{Map, lookup, UniqueKeys}

-- An implementation of Go decides the order; every item is visited, as often as it occurs.
pub record VisitOrder : Type 1 where
  pub visit : {A : Type 0} → List A → List A
  pub visit_perm : {A : Type 0} (xs : List A) → Permᴰ (visit xs) xs

pub any_of_perm {ℓ} :
    {A : Type ℓ} (p : A → Bool) {xs ys : List A} → Permᴰ xs ys → any p xs ≡ any p ys
any_of_perm p Permᴰ.nil = refl
any_of_perm p (Permᴰ.cons e r) = ground (arith, e, any_of_perm p r)
any_of_perm p (Permᴰ.swap e f) = ground (arith, e, f)
any_of_perm p (Permᴰ.trans r s) = any_of_perm p r ∙ any_of_perm p s

pub all_of_perm {ℓ} :
    {A : Type ℓ} (p : A → Bool) {xs ys : List A} → Permᴰ xs ys → all p xs ≡ all p ys
all_of_perm p Permᴰ.nil = refl
all_of_perm p (Permᴰ.cons e r) = ground (arith, e, all_of_perm p r)
all_of_perm p (Permᴰ.swap e f) = ground (arith, e, f)
all_of_perm p (Permᴰ.trans r s) = all_of_perm p r ∙ all_of_perm p s

module _ {ℓ κ} {K : Type ℓ} {V : Type κ} ⦃e : Eq K⦄ where
  UniqueKeys-swap : (a b : K × V) (l : Map K V) → UniqueKeys (b ∷ a ∷ l) → UniqueKeys (a ∷ b ∷ l)
  UniqueKeys-swap a b l u = ground (arith, e.equal_iff a.0 b.0, e.equal_iff b.0 a.0)

  pub UniqueKeys-of_perm : {m n : Map K V} → Permᴰ m n → UniqueKeys n → UniqueKeys m
  UniqueKeys-of_perm Permᴰ.nil u = tt
  UniqueKeys-of_perm (Permᴰ.cons {a} {b} p r) u =
      rw p (any_of_perm (λ kv. kv.0 == b.0) r ∙ u.0, UniqueKeys-of_perm r u.1)
  UniqueKeys-of_perm (Permᴰ.swap {a' = a'} {b' = b'} {l} p q) u =
      subst₂ (λ x y. UniqueKeys (x ∷ y ∷ l)) (sym p) (sym q) (UniqueKeys-swap b' a' l u)
  UniqueKeys-of_perm (Permᴰ.trans r s) u = UniqueKeys-of_perm r (UniqueKeys-of_perm s u)

  pub lookup_of_perm : (k : K) {m n : Map K V} → Permᴰ m n → UniqueKeys n → lookup k m ≡ lookup k n
  unfolding lookup
  lookup_of_perm k Permᴰ.nil u = refl
  lookup_of_perm k (Permᴰ.cons p r) u = rw (p, lookup_of_perm k r u.1)
  lookup_of_perm k (Permᴰ.swap {a' = a'} {b' = b'} p q) u =
      rw (p, q)
        (ground (
          arith,
          e.equal_iff a'.0 k,
          e.equal_iff b'.0 k,
          e.equal_iff a'.0 b'.0,
          e.equal_iff b'.0 a'.0,
        ))
  lookup_of_perm k (Permᴰ.trans r s) u =
      lookup_of_perm k r (UniqueKeys-of_perm s u) ∙ lookup_of_perm k s u
