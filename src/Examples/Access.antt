-- ===== src/Examples/Access.antt =====
-- The theorems on roles, visibility and logins at concrete inputs.
use servicer.Prelude.{
  ℕ, String, true, false, not, ◌&&◌, ◌||◌, ◌+◌, List, [], ◌∷◌, none, some, ◌==◌, ◌≡◌, ◌↔◌, refl,
  arith, keep, contains, leb, Distinct, eq_iff, inl, inr, Bool-cases, mem_singleton, Memᴰ, sym, ◌∙◌,
  ap, if◌then◌else◌,
}
use servicer.Api.{Tenant, Project, Lookup, found}
use servicer.Auth.{
  platform_role_satisfies, tenant_role_satisfies, is_platform_admin, role_platform_admin,
}
use servicer.Auth.Roles.{platform_role_satisfies_order, is_platform_admin_iff}
use servicer.Auth.Expander.{Index, expand}
use servicer.Auth.Expander.Reach.{Reaches}
use servicer.Auth.Expander.Visit.{expand_correct}
use servicer.Tenancy.{authorize_project, authorize_instance, visible_projects, visible_instances}
use servicer.Tenancy.Visibility.{Serves, visible_projects_authorized, visible_instances_authorized}
use servicer.Limiter.{Config, Limiter, allow, record_failure}
use servicer.Limiter.Lockout.{
  Operation, fails, succeeds, asks, applies, failures, last_failure, allow_after_failures,
}
use servicer.Prelude.{ok, trim_space, ◌≤◌}
use servicer.Pagination.{Parsed, natural, no_number, page_query_from_request, max_page_limit}
use servicer.Pagination.Cover.{pages, pages_cover}
use servicer.Examples.Data.{acme, shop, cache, actor_with, client}

platform_role_satisfies_order_example :
    (platform_role_satisfies "platform-admin" "service-consumer" ≡ true)
    × (platform_role_satisfies "platform-admin" "platform-admin" ≡ true)
    × (platform_role_satisfies "tenant-admin" "tenant-admin" ≡ true)
    × (platform_role_satisfies "service-consumer" "service-consumer" ≡ true)
unfolding platform_role_satisfies tenant_role_satisfies
platform_role_satisfies_order_example =
    platform_role_satisfies_order "platform-admin" "tenant-admin" "service-consumer" refl refl

is_platform_admin_iff_example :
    is_platform_admin (actor_with "olga" ("tenant-admin" ∷ []))
    ≡ (contains role_platform_admin ("tenant-admin" ∷ []) || false)
is_platform_admin_iff_example = is_platform_admin_iff (actor_with "olga" ("tenant-admin" ∷ []))

-- Two roles that name each other.
abbrev cycle : Index
cycle =
    ("a", record { name = "a"; scope = "tenant"; permissions = "b" ∷ [] })
    ∷ ("b", record { name = "b"; scope = "tenant"; permissions = "a" ∷ [] })
    ∷ []

expand_correct_example :
    (out : List String) × (expand cycle "a" "tenant" ≡ some out)
    × Distinct out
    × ((n : String) → (contains n out ≡ true) ↔ Reaches cycle "tenant" "a" n)
expand_correct_example = expand_correct cycle "a" "tenant"

module _ {A : Type 0} where
  found_inj : {p q : A} → found p ≡ found q → p ≡ q
  found_inj k = cc

  nothing≢found : {p : A} → Lookup.not_found ≡ found p → ⊥
  nothing≢found k = cc

  -- One resource is served by its name and listed.
  Serves-one :
      (name : A → String) (x : A)
      → Serves name (λ n. if name x == n then found x else Lookup.not_found) (x ∷ [])
  Serves-one name x = record {
    listed = λ y m. rw (mem_singleton m, (eq_iff (name x) (name x)).1 refl) refl;
    named = λ n y h. elim (Bool-cases (name x == n)) [
      | inl e ↦
          let k = (rw e at h) in
          (Memᴰ.head (sym (found_inj k)), ap name (sym (found_inj k)) ∙ (eq_iff (name x) n).0 e)
      | inr e ↦ absurd (nothing≢found (rw e at h))
    ];
  }

visible_projects_authorized_example :
    visible_projects (actor_with "olga" []) (shop ∷ []) (acme ∷ [])
    ≡ keep (authorize_project client (actor_with "olga" [])) (shop ∷ [])
visible_projects_authorized_example =
    visible_projects_authorized client (actor_with "olga" []) (acme ∷ []) (shop ∷ [])
      (Serves-one (λ (t : Tenant). t.name) acme)

visible_instances_authorized_example :
    visible_instances (actor_with "olga" []) (cache ∷ []) (shop ∷ []) (acme ∷ [])
    ≡ keep (authorize_instance client (actor_with "olga" [])) (cache ∷ [])
visible_instances_authorized_example =
    visible_instances_authorized client (actor_with "olga" []) (acme ∷ []) (shop ∷ [])
      (Serves-one (λ (t : Tenant). t.name) acme) (Serves-one (λ (p : Project). p.name) shop)
      (cache ∷ [])

abbrev config : Config
config = record { limit = 2; window = 60; lockout = 300; retain = 60; cleanup = 10 }

abbrev empty : Limiter
empty = record { attempts = λ key. none; last_sweep = 0 }

abbrev logins : List (ℕ × Operation)
logins = (110, succeeds "bob") ∷ (120, fails "eve") ∷ (130, asks "eve") ∷ []

allow_after_failures_example :
    (allow config 200 "eve" (applies config logins (record_failure config 100 "eve" empty))).0
    ≡ not (leb 2 (1 + failures "eve" logins) && leb 200 (last_failure "eve" 100 logins + 300))
allow_after_failures_example =
    allow_after_failures config "eve" 100 200 logins empty (omega arith) (omega arith) refl
      (omega arith, refl, (omega arith, tt, (omega arith, tt, tt)))

-- A parser that knows one number, and a request for pages of two.
abbrev atoi : String → Parsed
atoi raw = if raw == "2" then natural 2 else no_number

abbrev get : String → String
get name = if name == "limit" then " 2" else ""

abbrev letters : List String
letters = "a" ∷ "b" ∷ "c" ∷ []

two_per_page : page_query_from_request atoi get ≡ ok (record { limit = 2; offset = 0 })
unfolding page_query_from_request trim_space
two_per_page = refl

pages_cover_example : (1 ≤ 2) × (2 ≤ max_page_limit) × (pages 3 letters 0 2 ≡ some letters)
pages_cover_example =
    pages_cover atoi get (record { limit = 2; offset = 0 }) letters two_per_page (omega arith)
