-- ===== src/Controller/Predicates/Laws.antt =====
-- internal/controller/predicates.go: which events of watched objects start a reconcile.
use octopus_permissions_cont.Prelude.{
  ℕ, String, Bool, true, false, ◌&&◌, ◌||◌, List, [], ◌∷◌, Option, none, some, all, any, ltb, leb,
  Bool-cases, Option-cases, ==_refl, inl, inr, string_eq, nat_eq, ◌==◌, ◌≡◌, arith,
}
use octopus_permissions_cont.Controller.Predicates.{
  ManagedFieldsEntry, WatchedObject, updated, controller_field_owner, later, most_recent,
  was_most_recent_change_by_controller, external_change_predicate,
}

-- A time is not after the given one; a missing time never is.
abbrev pub not_after : ℕ → Option ℕ → Bool
not_after t none = true
not_after t (some u) = leb u t

-- The entry found, if there is one, is of the time.
abbrev pub found_by : ℕ → Option (String × ℕ) → Bool
found_by t none = true
found_by t (some (m, u)) = leb u t

later_lem :
    (latest : Option (String × ℕ)) (manager : String) (time : Option ℕ) (t : ℕ)
    → found_by t (later latest manager time) ≡ (found_by t latest && not_after t time)
later_lem latest manager none t = ground arith
later_lem none manager (some u) t = ground arith
later_lem (some (m, v)) manager (some u) t = elim (Bool-cases (ltb v u)) [
  | inl h ↦ rw h (ground (arith, h))
  | inr h ↦ rw h (ground (arith, h))
]

found_by-most_recent :
    (mfs : List ManagedFieldsEntry) (latest : Option (String × ℕ)) (t : ℕ)
    → found_by t (most_recent mfs latest)
      ≡ (found_by t latest && all (λ mf. not_after t mf.time) mfs)
unfolding most_recent
found_by-most_recent [] latest t = ground arith
found_by-most_recent (mf ∷ rest) latest t = ground (
  arith,
  found_by-most_recent rest (later latest mf.manager mf.time) t,
  later_lem latest mf.manager mf.time t,
)

-- What was found is the manager's entry of the time.
abbrev is_found : String → ℕ → Option (String × ℕ) → Bool
is_found m u none = false
is_found m u (some (m', u')) = m' == m && u' == u

-- An entry of the manager, with the time.
abbrev pub changed_at : String → ℕ → String → Option ℕ → Bool
changed_at m u manager none = false
changed_at m u manager (some t) = manager == m && t == u

is_found-later :
    (m : String) (u : ℕ) (latest : Option (String × ℕ)) (manager : String) (time : Option ℕ)
    → is_found m u (later latest manager time) ≡ true
    → (is_found m u latest || changed_at m u manager time) ≡ true
is_found-later m u latest manager none h = ground arith
is_found-later m u none manager (some t) h = ground arith
is_found-later m u (some (m', u')) manager (some t) h = elim (Bool-cases (ltb u' t)) [
  | inl g ↦ ground (arith, rw g at h)
  | inr g ↦ ground (arith, rw g at h)
]

is_found-most_recent :
    (m : String) (u : ℕ) (mfs : List ManagedFieldsEntry) (latest : Option (String × ℕ))
    → is_found m u (most_recent mfs latest) ≡ true
    → (is_found m u latest || any (λ mf. changed_at m u mf.manager mf.time) mfs) ≡ true
unfolding most_recent
is_found-most_recent m u [] latest h = ground arith
is_found-most_recent m u (mf ∷ rest) latest h = ground (
  arith,
  is_found-later m u latest mf.manager mf.time,
  is_found-most_recent m u rest (later latest mf.manager mf.time) h,
)

-- An update is filtered out only as the controller's own: some entry of the object's managed
-- fields is the controller's, and no entry is of a later time.
pub external_change_predicate-updated :
    (old new : WatchedObject)
    → external_change_predicate (updated old new) ≡ false
    → (u : ℕ) × (any
          (λ mf. changed_at controller_field_owner u mf.manager mf.time)
          new.managed_fields
        ≡ true)
      × (all (λ mf. not_after u mf.time) new.managed_fields ≡ true)
unfolding external_change_predicate was_most_recent_change_by_controller
external_change_predicate-updated old new h =
    elim (Option-cases (most_recent new.managed_fields none)) [
      | inl e ↦ ground (arith, rw e at h)
      | inr ((m, u), e) ↦
          let same : (m == controller_field_owner) ≡ true = ground (arith, rw e at h) in
          let found : is_found controller_field_owner u (most_recent new.managed_fields none)
              ≡ true =
            rw e (ground (arith, same, ==_refl u)) in
          let bound = found_by-most_recent new.managed_fields none u in
          (
            u,
            is_found-most_recent controller_field_owner u new.managed_fields none found,
            ground (arith, rw e at bound),
          )
    ]
