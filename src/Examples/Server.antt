-- ===== src/Examples/Server.antt =====
-- A server that holds one configuration for an object: an apply replaces what was there, and a
-- deletion takes it away.
use octopus_permissions_cont.Prelude.{
  true, false, List, [], ◌∷◌, none, any, Memᴰ, if◌then◌else◌, ◌==◌, ==_refl, ◌≡◌, refl, sym, arith,
  Bool-cases, inl, inr, string_eq,
}
use octopus_permissions_cont.Result.{ok}
use octopus_permissions_cont.Cluster.{Client, ApplyConfiguration, found, not_found}
use octopus_permissions_cont.Resources.Objects.{Object, object_eq, object_of, object_of_meta}
use octopus_permissions_cont.Resources.Ensure.Laws.{Applies, Creates}
use octopus_permissions_cont.Resources.Collect.Spares.{Deletes}
use octopus_permissions_cont.Examples.Data.{deployer, orphan}

-- What is left when an object is taken away.
abbrev pub without_object : Object → List ApplyConfiguration → List ApplyConfiguration
without_object o [] = []
without_object o (b ∷ bs) =
    let rest = without_object o bs in if object_of b == o then rest else b ∷ rest

abbrev pub server : Client
server = record {
  State = List ApplyConfiguration;
  apply = λ configuration s. (none, configuration ∷ without_object (object_of configuration) s);
  delete = λ kind m s. (found tt, without_object (object_of_meta kind m) s);
  list_wsas = λ s. ok (deployer ∷ []);
  list_cluster_wsas = λ s. ok [];
  list_service_accounts = λ s. ok [];
  list_matching_service_accounts = λ key value s. ok (record { meta = orphan "octopus-sa-0" } ∷ []);
  list_roles = λ s. ok [];
  list_cluster_roles = λ s. ok [];
  list_role_bindings = λ s. ok [];
  list_cluster_role_bindings = λ s. ok [];
  list_agent_deployments = λ s. ok ("octopus-agent-a" ∷ []);
  get_service_account = λ key s. not_found;
  get_role = λ key s. not_found;
  get_namespace = λ name s. found tt;
}

-- A configuration holds while it is there, and an object exists while it has a configuration.
abbrev pub Stands : ApplyConfiguration → List ApplyConfiguration → Type 0
Stands b s = Memᴰ b s

abbrev pub Exists : Object → List ApplyConfiguration → Type 0
Exists o s = any (λ b. object_of b == o) s ≡ true

kept_without :
    (o : Object) (b : ApplyConfiguration) (s : List ApplyConfiguration)
    → (object_of b == o) ≡ false
    → Stands b s
    → Stands b (without_object o s)
kept_without o b [] e h = elim h [ ]
kept_without o b (x ∷ s) e (Memᴰ.head h) = rw (← h, e) (Memᴰ.head refl)
kept_without o b (x ∷ s) e (Memᴰ.tail h) = elim (Bool-cases (object_of x == o)) [
  | inl gone ↦ rw gone (kept_without o b s e h)
  | inr there ↦ rw there (Memᴰ.tail (kept_without o b s e h))
]

Exists-without :
    (o p : Object) (s : List ApplyConfiguration)
    → (p == o) ≡ false
    → Exists p s
    → Exists p (without_object o s)
Exists-without o p [] e h = h
Exists-without o p (x ∷ s) e h = elim (Bool-cases (object_of x == o)) [
  | inl gone ↦ rw gone (
      Exists-without o p s e (
        ground (
          arith,
          h,
          e,
          object_eq.equal_iff (object_of x) o,
          object_eq.equal_iff (object_of x) p,
          object_eq.equal_iff p o,
        )))
  | inr there ↦ rw there (ground (arith, h, Exists-without o p s e))
]

pub server-Applies : Applies server Stands
server-Applies = record {
  applied = λ a s h. Memᴰ.head refl;
  kept = λ a b s agree h. elim (Bool-cases (object_of b == object_of a)) [
    | inl same ↦
        Memᴰ.head (sym (agree (sym ((object_eq.equal_iff (object_of b) (object_of a)).0 same))))
    | inr other ↦ Memᴰ.tail (kept_without (object_of a) b s other h)
  ];
}

pub server-Creates : Creates server Exists
server-Creates = record {
  applied = λ a s h. ground (arith, ==_refl (object_of a));
  kept = λ a b s u h. elim (Bool-cases (object_of b == object_of a)) [
    | inl same ↦ ground (
      arith,
      object_eq.equal_iff (object_of b) (object_of a),
      object_eq.equal_iff (object_of a) (object_of b),
      same,
    )
    | inr other ↦ ground (arith, Exists-without (object_of a) (object_of b) s other h)
  ];
}

pub server-Deletes : Deletes server Stands
server-Deletes = record {
  others_kept = λ kind m b s e h. kept_without (object_of_meta kind m) b s e h;
}

pub server-Deletes_existing : Deletes server (λ a. Exists (object_of a))
server-Deletes_existing = record {
  others_kept = λ kind m b s e h. Exists-without (object_of_meta kind m) (object_of b) s e h;
}
