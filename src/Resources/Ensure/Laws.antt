-- ===== src/Resources/Ensure/Laws.antt =====
-- internal/rules/resource_management.go: what is in the cluster after an ensure without an error.
use octopus_permissions_cont.Prelude.{
  String, List, [], ◌∷◌, Option, none, some, put, Memᴰ, string_eq, ◌≡◌, refl, sym, ◌∙◌, ap, subst,
  arith,
}
use octopus_permissions_cont.Cluster.{Client, ApplyConfiguration, service_account_ac}
use octopus_permissions_cont.Rules.Naming.{ServiceAccount, managed_by_label, managed_by_value}
use octopus_permissions_cont.Resources.Names.{Scheme}
use octopus_permissions_cont.Resources.Objects.{Object, object_of}
use octopus_permissions_cont.Resources.Ensure.{
  append_error, in_context, create_service_account, in_namespaces, ensure_service_accounts_from,
  ensure_service_accounts,
}

-- An apply without an error takes effect, and an apply of `a` leaves what held of `b` where the two
-- are compatible, whatever the answer.
pub record AppliesWhere (c : Client)
    (IsCompatible : ApplyConfiguration → ApplyConfiguration → Type 0)
    (Holds : ApplyConfiguration → c.State → Type 0) : Type 0 where
  pub applied :
      (a : ApplyConfiguration) (s : c.State) → (c.apply a s).0 ≡ none → Holds a (c.apply a s).1
  pub kept :
      (a b : ApplyConfiguration) (s : c.State)
      → IsCompatible a b
      → Holds b s
      → Holds b (c.apply a s).1

-- Two configurations do not contradict each other: they are of different objects, or the same.
abbrev pub Agree : ApplyConfiguration → ApplyConfiguration → Type 0
Agree a b = object_of a ≡ object_of b → a ≡ b

-- What server-side apply owes to its callers: without an error the configuration holds afterwards,
-- and an apply to another object, or of the same configuration, leaves it. An apply of another
-- configuration to the same object may replace it.
abbrev pub Applies : (c : Client) → (ApplyConfiguration → c.State → Type 0) → Type 0
Applies c Holds = AppliesWhere c Agree Holds

-- The same for what is there: without an error the object is there afterwards, and no apply takes
-- an object away.
abbrev pub Creates : (c : Client) → (Object → c.State → Type 0) → Type 0
Creates c Exists = AppliesWhere c (λ a b. Unit {0}) (λ a. Exists (object_of a))

pub append_error-none :
    (errors : List String) (e : Option String)
    → append_error errors e ≡ []
    → (errors ≡ []) × (e ≡ none)
append_error-none [] none h = (refl, refl)
append_error-none [] (some m) h = ground arith
append_error-none (x ∷ xs) none h = ground arith
append_error-none (x ∷ xs) (some m) h = ground arith

pub in_context-none :
    (context : String) (e : Option String) → in_context context e ≡ none → e ≡ none
in_context-none context none h = refl
in_context-none context (some m) h = ground arith

-- The configuration of an account in a namespace.
abbrev pub account_in : ServiceAccount → String → ApplyConfiguration
account_in sa ns =
    service_account_ac sa.meta.name ns (put managed_by_label managed_by_value sa.meta.labels)
      sa.meta.annotations

module _ (c : Client) (scheme : Scheme) (sha256_hex : String → String)
    (IsCompatible : ApplyConfiguration → ApplyConfiguration → Type 0)
    (Holds : ApplyConfiguration → c.State → Type 0) (applies : AppliesWhere c IsCompatible Holds)
    (b : ApplyConfiguration) where
  -- Every account of the list, in every namespace, is compatible with the configuration.
  abbrev pub AccountsFit : List ServiceAccount → Type 0
  AccountsFit accounts =
      (x : ServiceAccount) (n : String) → Memᴰ x accounts → IsCompatible (account_in x n) b

  in_namespaces-kept :
      (sa : ServiceAccount) (namespaces errors : List String) (s : c.State)
      → ((n : String) → IsCompatible (account_in sa n) b)
      → Holds b s
      → Holds b (in_namespaces c scheme sha256_hex sa namespaces errors s).1
  unfolding in_namespaces create_service_account
  in_namespaces-kept sa [] errors s fit h = h
  in_namespaces-kept sa (ns ∷ rest) errors s fit h =
      in_namespaces-kept sa rest _ (c.apply (account_in sa ns) s).1 fit
        (applies.kept (account_in sa ns) b s (fit ns) h)

  in_namespaces-errors :
      (sa : ServiceAccount) (namespaces errors : List String) (s : c.State)
      → (in_namespaces c scheme sha256_hex sa namespaces errors s).0 ≡ []
      → errors ≡ []
  unfolding in_namespaces
  in_namespaces-errors sa [] errors s h = h
  in_namespaces-errors sa (ns ∷ rest) errors s h =
      (append_error-none errors _ (in_namespaces-errors sa rest _ _ h)).0

  in_namespaces-applied :
      (sa : ServiceAccount) (namespaces errors : List String) (s : c.State) (ns : String)
      → ((n : String) → IsCompatible (account_in sa n) b)
      → b ≡ account_in sa ns
      → (in_namespaces c scheme sha256_hex sa namespaces errors s).0 ≡ []
      → Memᴰ ns namespaces
      → Holds b (in_namespaces c scheme sha256_hex sa namespaces errors s).1
  unfolding in_namespaces create_service_account
  in_namespaces-applied sa [] errors s ns fit is h m = elim m [ ]
  in_namespaces-applied sa (n ∷ rest) errors s ns fit is h (Memᴰ.tail m) =
      in_namespaces-applied sa rest _ (c.apply (account_in sa n) s).1 ns fit is h m
  in_namespaces-applied sa (n ∷ rest) errors s ns fit is h (Memᴰ.head e) =
      let first = c.apply (account_in sa n) s in
      let none_yet = in_namespaces-errors sa rest _ first.1 h in
      in_namespaces-kept sa rest _ first.1 fit (
        subst (λ x. Holds x first.1) (ap (account_in sa) (sym e) ∙ sym is)
          (applies.applied (account_in sa n) s
            (in_context-none _ first.0 (append_error-none errors _ none_yet).1)))

  accounts-kept :
      (accounts : List ServiceAccount) (namespaces errors : List String) (s : c.State)
      → AccountsFit accounts
      → Holds b s
      → Holds b (ensure_service_accounts_from c scheme sha256_hex accounts namespaces errors s).1
  unfolding ensure_service_accounts_from
  accounts-kept [] namespaces errors s fit h = h
  accounts-kept (sa ∷ rest) namespaces errors s fit h =
      accounts-kept rest namespaces _ _ (λ x n m. fit x n (Memᴰ.tail m))
        (in_namespaces-kept sa namespaces errors s (λ n. fit sa n (Memᴰ.head refl)) h)

  accounts-errors :
      (accounts : List ServiceAccount) (namespaces errors : List String) (s : c.State)
      → (ensure_service_accounts_from c scheme sha256_hex accounts namespaces errors s).0 ≡ []
      → errors ≡ []
  unfolding ensure_service_accounts_from
  accounts-errors [] namespaces errors s h = h
  accounts-errors (sa ∷ rest) namespaces errors s h =
      in_namespaces-errors sa namespaces errors s (accounts-errors rest namespaces _ _ h)

  pub accounts-applied :
      (accounts : List ServiceAccount) (namespaces errors : List String) (s : c.State)
      (sa : ServiceAccount) (ns : String)
      → AccountsFit accounts
      → b ≡ account_in sa ns
      → (ensure_service_accounts_from c scheme sha256_hex accounts namespaces errors s).0 ≡ []
      → Memᴰ sa accounts
      → Memᴰ ns namespaces
      → Holds b (ensure_service_accounts_from c scheme sha256_hex accounts namespaces errors s).1
  unfolding ensure_service_accounts_from
  accounts-applied [] namespaces errors s sa ns fit is h m i = elim m [ ]
  accounts-applied (a ∷ rest) namespaces errors s sa ns fit is h (Memᴰ.tail m) i =
      accounts-applied rest namespaces _ _ sa ns (λ x n j. fit x n (Memᴰ.tail j)) is h m i
  accounts-applied (a ∷ rest) namespaces errors s sa ns fit is h (Memᴰ.head e) i =
      accounts-kept rest namespaces _ _ (λ x n j. fit x n (Memᴰ.tail j))
        (in_namespaces-applied a namespaces errors s ns (λ n. fit a n (Memᴰ.head refl))
          (is ∙ ap (λ x. account_in x ns) e) (accounts-errors rest namespaces _ _ h) i)

module _ (c : Client) (scheme : Scheme) (sha256_hex : String → String) where
  -- If the call returns no error, then every service account of the plan is in every target
  -- namespace afterwards, with its labels, the controller's label over them and its annotations.
  -- The accounts of one name must be the same, and the API server must do what server-side apply
  -- documents.
  pub ensure_service_accounts-applied :
      (Holds : ApplyConfiguration → c.State → Type 0) (applies : Applies c Holds)
      (accounts : List ServiceAccount) (namespaces : List String) (s : c.State)
      (sa : ServiceAccount) (ns : String)
      → ((x : ServiceAccount) → Memᴰ x accounts → x.meta.name ≡ sa.meta.name → x ≡ sa)
      → (ensure_service_accounts c scheme sha256_hex accounts namespaces s).0 ≡ []
      → Memᴰ sa accounts
      → Memᴰ ns namespaces
      → Holds
          (account_in sa ns)
          (ensure_service_accounts c scheme sha256_hex accounts namespaces s).1
  unfolding ensure_service_accounts
  ensure_service_accounts-applied Holds applies accounts namespaces s sa ns unique =
      accounts-applied c scheme sha256_hex Agree Holds applies (account_in sa ns) accounts
        namespaces [] s sa ns
        (λ x n m o i. account_in (unique x m (ap (λ y. y.name) o) i) (ap (λ y. y.namespace) o i))
        refl

  -- The same for what is there.
  pub ensure_service_accounts-exists :
      (Exists : Object → c.State → Type 0) (creates : Creates c Exists)
      (accounts : List ServiceAccount) (namespaces : List String) (s : c.State)
      (sa : ServiceAccount) (ns : String)
      → (ensure_service_accounts c scheme sha256_hex accounts namespaces s).0 ≡ []
      → Memᴰ sa accounts
      → Memᴰ ns namespaces
      → Exists
          (object_of (account_in sa ns))
          (ensure_service_accounts c scheme sha256_hex accounts namespaces s).1
  unfolding ensure_service_accounts
  ensure_service_accounts-exists Exists creates accounts namespaces s sa ns =
      accounts-applied c scheme sha256_hex (λ a b. Unit {0}) (λ a. Exists (object_of a)) creates
        (account_in sa ns) accounts namespaces [] s sa ns (λ x n m. tt) refl
