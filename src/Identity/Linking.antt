-- ===== src/Identity/Linking.antt =====
-- internal/bff/authenticator.go, `resolveActor` and `matchUser`: when a login is an actor.
use mathlib.Core.List.Memᴰ as MemD
use servicer.Prelude.{
  String, Bool, true, false, ◌&&◌, ◌||◌, List, [], ◌∷◌, Option, none, some, ◌==◌, ◌≡◌, ◌↔◌, refl,
  ◌⊎◌, inl, inr, contains, contains_iff, arith, eq_iff, Memᴰ, Bool-cases, mem_of_any, any_of_mem,
  and_true, Fallible, ok, err, sym, ◌∙◌,
}
use servicer.Api.{Tenant}
use servicer.Auth.{Actor}
use servicer.Auth.Expander.{RoleSummary, new_role_expander}
use servicer.Identity.{
  ResolvedIdentity, External, User, Group, RoleBinding, Directory, IdentityError, not_linked,
  provider_local, trimmed_names, is_linked, find_user, match_user, local_groups, or_unread, is_some,
  granted_actor, resolve_actor,
}

-- A directory of which every list has been read.
abbrev pub read :
    List User → List Group → List RoleBinding → List Tenant → List RoleSummary → Directory
read users groups bindings tenants roles = record {
  users = some users;
  groups = some groups;
  bindings = some bindings;
  tenants = some tenants;
  roles = some roles;
}

-- One of the user's identities is that of the login.
pub data IsLinked (identity : ResolvedIdentity) (u : User) : Type 0 where
  by_name :
      identity.provider_type ≡ provider_local → u.name ≡ identity.subject → IsLinked identity u
  by_identity :
      (e : External)
      → Memᴰ e u.external_identities
      → e.provider_ref ≡ identity.provider_name
      → Memᴰ e.subject (trimmed_names (identity.subject ∷ identity.alt_subjects))
      → IsLinked identity u

module _ (identity : ResolvedIdentity) where
  abbrev subjects : List String
  subjects = trimmed_names (identity.subject ∷ identity.alt_subjects)

  is_linked_iff : (u : User) → (is_linked identity subjects u ≡ true) ↔ IsLinked identity u
  unfolding is_linked
  is_linked_iff u = (to, from)
    where
      external : External → Bool
      external e = e.provider_ref == identity.provider_name && contains e.subject subjects

      to : is_linked identity subjects u ≡ true → IsLinked identity u
      to h =
          elim (Bool-cases
            (identity.provider_type == provider_local && u.name == identity.subject)) [
              | inl e ↦
                  let (p, n) = and_true _ _ e in
                  by_name ((eq_iff identity.provider_type provider_local).0 p)
                    ((eq_iff u.name identity.subject).0 n)
              | inr e ↦
                  let (x, m, k) = mem_of_any external u.external_identities (ground arith) in
                  let (p, c) = and_true _ _ k in
                  by_identity x m ((eq_iff x.provider_ref identity.provider_name).0 p)
                    ((contains_iff x.subject subjects).0 c)
            ]

      from : IsLinked identity u → is_linked identity subjects u ≡ true
      from (by_name e f) =
          ground
            (arith, eq_iff identity.provider_type provider_local, eq_iff u.name identity.subject)
      from (by_identity x m e f) =
          let k = any_of_mem external u.external_identities m (
            ground (
              arith,
              eq_iff x.provider_ref identity.provider_name,
              (contains_iff x.subject subjects).1 f,
            )) in
          ground (arith, k)

  find_user_lem :
      (test : User → Bool) (users : List User)
      → ((find_user test users ≡ none) × ((u : User) → Memᴰ u users → test u ≡ false))
        ⊎ ((u : User) × (find_user test users ≡ some u) × Memᴰ u users × (test u ≡ true))
  unfolding find_user
  find_user_lem test [] = inl (refl, λ u m. elim m [ ])
  find_user_lem test (u ∷ users) = elim (Bool-cases (test u)) [
    | inl e ↦ inr (u, rw e refl, Memᴰ.head refl, e)
    | inr e ↦ elim (find_user_lem test users) [
      | inl (n, all) ↦
          inl (rw e n, λ v m. elim (MemD.cases_cons m) [ inl f ↦ rw f e | inr k ↦ all v k ])
      | inr (v, f, m, k) ↦ inr (v, rw e f, Memᴰ.tail m, k)
    ]
  ]

  -- A user is matched exactly when one of the list is linked, and it is such a one.
  pub match_user_lem :
      (users : List User)
      → ((match_user users identity ≡ none) × ((u : User) → Memᴰ u users → IsLinked identity u → ⊥))
        ⊎ ((u : User) × (match_user users identity ≡ some u) × Memᴰ u users × IsLinked identity u)
  unfolding match_user
  match_user_lem users = elim (find_user_lem (is_linked identity subjects) users) [
    | inl (n, all) ↦
        inl (n, λ u m k. let e = all u m in let f = (is_linked_iff u).1 k in ground (arith, e, f))
    | inr (u, e, m, k) ↦ inr (u, e, m, (is_linked_iff u).0 k)
  ]

  -- The login is local, or a user of the list is linked to it.
  abbrev pub Admitted : List User → Type 0
  Admitted users =
      (identity.provider_type ≡ provider_local) ⊎ ((u : User) × Memᴰ u users × IsLinked identity u)

  pub is_admitted : List User → Bool
  is_admitted users =
      identity.provider_type == provider_local || is_some (match_user users identity)

  pub is_admitted_iff : (users : List User) → (is_admitted users ≡ true) ↔ Admitted users
  unfolding is_admitted is_some
  is_admitted_iff users = elim (match_user_lem users) [
    | inl (e, none_linked) ↦ (
      λ h.
          inl (let k = (rw e at h) in ground (arith, eq_iff identity.provider_type provider_local)),
      λ h. elim h [
        | inl f ↦ ground (arith, eq_iff identity.provider_type provider_local)
        | inr (u, m, k) ↦ absurd (none_linked u m k)
      ],
    )
    | inr (u, e, m, k) ↦ (λ h. inr (u, m, k), λ h. rw e (ground arith))
  ]

  module _ (users : List User) (groups : List Group) (bindings : List RoleBinding)
      (tenants : List Tenant) (roles : List RoleSummary) where
    -- The actor of an admitted login.
    abbrev pub actor_of : Actor
    actor_of =
        let matched = match_user users identity in
        granted_actor (new_role_expander roles) identity matched
          (local_groups identity matched groups) bindings tenants

    pub resolve_actor-admitted :
        is_admitted users ≡ true
        → resolve_actor (read users groups bindings tenants roles) identity ≡ ok actor_of
    unfolding resolve_actor is_admitted or_unread
    resolve_actor-admitted h = rw h refl

    pub resolve_actor-refused :
        is_admitted users ≡ false
        → resolve_actor (read users groups bindings tenants roles) identity ≡ err not_linked
    unfolding resolve_actor is_admitted or_unread
    resolve_actor-refused h = rw h refl

module _ {A : Type 0} {error : IdentityError} {a : A} where
  pub err≢ok : ◌≡◌ {A = Fallible IdentityError A} (err error) (ok a) → ⊥
  err≢ok h = cc

module _ (identity : ResolvedIdentity) where
  -- The directory that was read, and its admission of the login.
  abbrev WasRead : Directory → Type 0
  WasRead directory =
      (users : List User) × (groups : List Group) × (bindings : List RoleBinding) × (tenants : List
        Tenant)
      × (roles : List RoleSummary) × (directory ≡ read users groups bindings tenants roles)
      × Admitted identity users

  abbrev given :
      Option (List User)
      → Option (List Group)
      → Option (List RoleBinding)
      → Option (List Tenant)
      → Option (List RoleSummary)
      → Directory
  given users groups bindings tenants roles = record {
    users = users;
    groups = groups;
    bindings = bindings;
    tenants = tenants;
    roles = roles;
  }

  read_of_ok :
      (users : Option (List User)) (groups : Option (List Group))
      → (bindings : Option (List RoleBinding)) (tenants : Option (List Tenant))
      → (roles : Option (List RoleSummary)) {a : Actor}
      → resolve_actor (given users groups bindings tenants roles) identity ≡ ok a
      → WasRead (given users groups bindings tenants roles)
  unfolding resolve_actor or_unread
  read_of_ok none gs bs ts rs h = absurd (err≢ok h)
  read_of_ok (some us) none bs ts rs h = absurd (err≢ok h)
  read_of_ok (some us) (some gs) none ts rs h = absurd (err≢ok h)
  read_of_ok (some us) (some gs) (some bs) none rs h = absurd (err≢ok h)
  read_of_ok (some us) (some gs) (some bs) (some ts) none h = absurd (err≢ok h)
  read_of_ok (some us) (some gs) (some bs) (some ts) (some rs) h = (
    us,
    gs,
    bs,
    ts,
    rs,
    refl,
    elim (Bool-cases (is_admitted identity us)) [
      | inl e ↦ (is_admitted_iff identity us).0 e
      | inr e ↦ absurd (err≢ok (sym (resolve_actor-refused identity us gs bs ts rs e) ∙ h))
    ],
  )

  ok_of_read :
      (directory : Directory)
      → WasRead directory
      → (a : Actor) × (resolve_actor directory identity ≡ ok a)
  ok_of_read directory (us, gs, bs, ts, rs, e, h) =
      let k = (is_admitted_iff identity us).1 h in
      (actor_of identity us gs bs ts rs, rw e (resolve_actor-admitted identity us gs bs ts rs k))

-- A login becomes an actor exactly when the five lists could be read and it is admitted: a local
-- login always is, one of an external provider when a user of the list has an identity at that
-- provider under one of the login's subjects.
pub resolve_actor_iff :
    (directory : Directory) (identity : ResolvedIdentity)
    → ((a : Actor) × (resolve_actor directory identity ≡ ok a)) ↔ (
        (users : List User) × (groups : List Group) × (bindings : List RoleBinding)
        × (tenants : List Tenant) × (roles : List RoleSummary) × (directory
            ≡ read users groups bindings tenants roles)
        × Admitted identity users)
resolve_actor_iff directory identity = (
  λ (a, h).
      read_of_ok identity directory.users directory.groups directory.bindings directory.tenants
        directory.roles h,
  ok_of_read identity directory,
)
