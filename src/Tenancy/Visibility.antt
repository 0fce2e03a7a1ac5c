-- ===== src/Tenancy/Visibility.antt =====
-- internal/bff/authorization.go: the lists that an actor is shown agree with the checks of single
-- resources.
use servicer.Prelude.{
  String, Bool, true, List, [], ◌∷◌, keep, map, contains, ◌≡◌, refl, arith, Memᴰ, Bool-cases,
  Bool-eq_of_iff, contains_iff, mem-keep, mem_of_mem-keep, keep_congr, sym, inl, inr,
}
use mathlib.Core.List.Memᴰ as MemD
use servicer.Api.{Tenant, Project, ServiceInstance, Lookup, found, not_found, failed}
use servicer.Auth.{Actor, is_platform_admin}
use servicer.Tenancy.{
  Client, when_found, tenant_visible_to_actor, authorize_project, authorize_instance,
  visible_tenants, visible_projects, visible_instances,
}

-- Reads by name and a listing give the same resources.
pub record Serves {ℓ} {A : Type ℓ} (name : A → String) (get : String → Lookup A) (items : List A)
    : Type ℓ where
  pub listed : (x : A) → Memᴰ x items → get (name x) ≡ found x
  pub named : (n : String) (x : A) → get n ≡ found x → Memᴰ x items × (name x ≡ n)

found-cases {ℓ} :
    {A : Type ℓ} (p : A → Bool) (l : Lookup A)
    → when_found p l ≡ true
    → (x : A) × (l ≡ found x) × (p x ≡ true)
found-cases p (found x) h = (x, refl, h)
found-cases p not_found h = cc
found-cases p failed h = cc

-- A name is among those of the kept resources exactly when its read gives a resource that is kept.
contains-map-keep {ℓ} :
    {A : Type ℓ} {name : A → String} {get : String → Lookup A} {items : List A} (p : A → Bool)
    → Serves name get items
    → (n : String) → contains n (map name (keep p items)) ≡ when_found p (get n)
contains-map-keep {name} {get} {items} p s n = Bool-eq_of_iff _ _ to from
  where
    to : contains n (map name (keep p items)) ≡ true → when_found p (get n) ≡ true
    to h =
        let (x, m, e) = MemD.of_map name (keep p items) ((contains_iff n _).0 h) in
        let (k, px) = mem_of_mem-keep p items m in rw (← e, s.listed x k) px

    from : when_found p (get n) ≡ true → contains n (map name (keep p items)) ≡ true
    from h =
        let (x, e, px) = found-cases p (get n) h in
        let (m, named) = s.named n x e in
        (contains_iff n _).1 (rw (← named) (MemD.map name (mem-keep p items m px)))

keep_all {ℓ} : {A : Type ℓ} (p : A → Bool) (xs : List A) → ((x : A) → p x ≡ true) → keep p xs ≡ xs
keep_all p [] h = refl
keep_all p (x ∷ xs) h = ground (arith, h x, keep_all p xs h)

module _ (client : Client) (a : Actor) (tenants : List Tenant) (projects : List Project)
    (st : Serves (λ (t : Tenant). t.name) client.get_tenant tenants) where
  -- The projects that an actor is shown are those that the check of a single project lets through,
  -- where the tenants are listed as they are read by name.
  pub visible_projects_authorized :
      visible_projects a projects tenants ≡ keep (authorize_project client a) projects
  unfolding visible_projects visible_tenants authorize_project
  visible_projects_authorized = elim (Bool-cases (is_platform_admin a)) [
    | inl h ↦
        rw h (sym (keep_all (authorize_project client a) projects (λ x. rw (h, authorize_project))))
    | inr h ↦ rw h (
        keep_congr _ (authorize_project client a) projects (λ x m.
          rw (h, authorize_project)
            (contains-map-keep (tenant_visible_to_actor a) st x.tenant_ref)))
  ]

  -- The instances that an actor is shown are those that the check of a single instance lets
  -- through, where tenants and projects are listed as they are read by name.
  pub visible_instances_authorized :
      Serves (λ (p : Project). p.name) client.get_project projects
      → (instances : List ServiceInstance)
      → visible_instances a instances projects tenants
        ≡ keep (authorize_instance client a) instances
  unfolding visible_instances authorize_instance
  visible_instances_authorized sp instances = elim (Bool-cases (is_platform_admin a)) [
    | inl h ↦
        rw h
          (sym (keep_all (authorize_instance client a) instances (λ x. rw (h, authorize_instance))))
    | inr h ↦
        rw (h, visible_projects_authorized)
          (keep_congr _ (authorize_instance client a) instances (λ x m.
            rw (h, authorize_instance)
              (contains-map-keep (authorize_project client a) sp x.project_ref)))
  ]
