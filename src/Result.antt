-- ===== src/Result.antt =====
-- What a call that may fail returns: a value, an error, or no return at all.
use octopus_permissions_cont.Prelude.{String, ◌<>◌, Option, none, some, Bool, true, false, ◌≡◌, ap}

pub data Result {ℓ} (A : Type ℓ) : Type ℓ where
  ok : A → Result A
  err : String → Result A
  panic : Result A

infixl 5 ◌>>=◌
abbrev pub ◌>>=◌ {ℓ κ} : {A : Type ℓ} {B : Type κ} → Result A → (A → Result B) → Result B
ok a >>= f = f a
err e >>= f = err e
panic >>= f = panic

abbrev pub or_panic {ℓ} : {A : Type ℓ} → Option A → Result A
or_panic none = panic
or_panic (some a) = ok a

-- `fmt.Errorf("context: %w", err)`.
abbrev pub wrap {ℓ} : {A : Type ℓ} → String → Result A → Result A
wrap context (ok a) = ok a
wrap context (err e) = err (context <> ": " <> e)
wrap context panic = panic

abbrev pub is_panic {ℓ} : {A : Type ℓ} → Result A → Bool
is_panic panic = true
is_panic _ = false

abbrev value_or {ℓ} : {A : Type ℓ} → A → Result A → A
value_or d (ok a) = a
value_or d (err e) = d
value_or d panic = d

pub ok-injective {ℓ} : {A : Type ℓ} {a b : A} → ok a ≡ ok b → a ≡ b
ok-injective {a} h = ap (value_or a) h
