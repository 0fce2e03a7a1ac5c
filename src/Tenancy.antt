-- ===== src/Tenancy.antt =====
-- internal/bff/authorization.go: which tenants, projects, instances and actions an actor may see.
-- The cluster's API client is a parameter: its reads, by name.
pub mod Visibility
use servicer.Prelude.{
  String, Bool, true, false, ◌&&◌, ◌||◌, not, List, [], ◌∷◌, ◌==◌, any, keep, map, contains,
  if◌then◌else◌,
}
use servicer.Api.{Tenant, Project, ServiceInstance, Lookup, found, not_found, failed}
use servicer.Auth.{Actor, is_platform_admin, has_tenant_access}

pub record Client : Type 0 where
  pub get_tenant : String → Lookup Tenant
  pub get_project : String → Lookup Project

owned_by : Actor → List String → Bool
owned_by a users =
    any (λ user. user == a.name || user == a.email || user == a.user_name || user == a.subject)
      users

unfoldable pub tenant_visible_to_actor : Actor → Tenant → Bool
unfolding owned_by
tenant_visible_to_actor a tenant =
    if is_platform_admin a
    then true
    else if has_tenant_access a tenant.name
    then true
    else if not (a.name == "") && owned_by a tenant.owner_users
    then true
    else any (λ group. contains group a.groups) tenant.owner_groups

-- A nil error of the source is `granted`.
pub data Access : Type 0 where
  granted forbidden missing unavailable : Access

-- A read that gives nothing lets nobody through.
abbrev pub when_found {ℓ} : {A : Type ℓ} → (A → Bool) → Lookup A → Bool
when_found p (found x) = p x
when_found p not_found = false
when_found p failed = false

module _ (client : Client) where
  unfoldable pub require_tenant_access : Actor → String → Access
  require_tenant_access a tenant_name =
      if is_platform_admin a then granted else elim (client.get_tenant tenant_name) [
        | found tenant ↦ if tenant_visible_to_actor a tenant then granted else forbidden
        | not_found ↦ missing
        | failed ↦ unavailable
      ]

  unfoldable pub authorize_project : Actor → Project → Bool
  authorize_project a project =
      if is_platform_admin a
      then true
      else when_found (tenant_visible_to_actor a) (client.get_tenant project.tenant_ref)

  -- `projectForInstance` is the read of the instance's project.
  unfoldable pub authorize_instance : Actor → ServiceInstance → Bool
  authorize_instance a instance' =
      if is_platform_admin a
      then true
      else when_found (authorize_project a) (client.get_project instance'.project_ref)

unfoldable pub visible_tenants : Actor → List Tenant → List Tenant
visible_tenants a tenants =
    if is_platform_admin a then tenants else keep (tenant_visible_to_actor a) tenants

unfoldable pub visible_projects : Actor → List Project → List Tenant → List Project
visible_projects a projects tenants =
    if is_platform_admin a
    then projects
    else let allowed = map (λ (t : Tenant). t.name) (visible_tenants a tenants) in
      keep (λ project. contains project.tenant_ref allowed) projects

unfoldable pub visible_instances :
    Actor → List ServiceInstance → List Project → List Tenant → List ServiceInstance
visible_instances a instances projects tenants =
    if is_platform_admin a
    then instances
    else let allowed = map (λ (p : Project). p.name) (visible_projects a projects tenants) in
      keep (λ item. contains item.project_ref allowed) instances

-- An action, by the name of its target.
unfoldable pub visible_actions {ℓ} :
    {A : Type ℓ} → (A → String) → Actor → List A → List ServiceInstance → List A
visible_actions target a actions instances =
    if is_platform_admin a
    then actions
    else let allowed = map (λ (i : ServiceInstance). i.name) instances in
      keep (λ action. contains (target action) allowed) actions
