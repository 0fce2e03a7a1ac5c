-- ===== src/Approval/Decision.antt =====
-- internal/bff/writes.go, `handleActionApproval`: whose decisions are stored.
use servicer.Prelude.{
  ok, err, ◌>>=◌, ◌>>◌, check, String, true, false, ◌&&◌, ◌||◌, not, [], ◌∷◌, some, ◌==◌, ◌≡◌, refl,
  sym, ◌∙◌, ap, trim_space, Bool-cases, inl, inr, ◌↔◌,
}
use servicer.Api.{ServiceInstance, found, Lookup-cases}
use servicer.Auth.{
  Actor, role_platform_admin, role_tenant_operator, has_any, is_platform_admin, require_role,
}
use servicer.Tenancy.{authorize_instance}
use servicer.Action.{ActionRequest, is_required}
use servicer.Approval.{
  Answer, Refusal, forbidden, conflict, unavailable, Server, is_self_approval_request, decided_spec,
  is_approve, is_reject, handle_action_approval, fetch,
}

-- All that a decision of `a` on the request `action` must pass.
pub record Admitted (server : Server) (a : Actor) (name decision : String) (action : ActionRequest)
    : Type 0 where
  pub role : has_any a (role_platform_admin ∷ role_tenant_operator ∷ []) ≡ true
  pub named : (trim_space name == "") ≡ false
  pub known : (is_approve decision || is_reject decision) ≡ true
  pub stored : server.get_action (trim_space name) ≡ found action
  pub target : ServiceInstance
  pub target_stored : server.get_instance action.spec.target_ref.name ≡ found target
  pub authorized : authorize_instance server.client a target ≡ true
  pub not_own :
      (is_self_approval_request action.spec.requested_by a && not (is_platform_admin a)) ≡ false
  pub waiting :
      (action.status.phase == "PendingApproval" && is_required action.spec.approval_mode) ≡ true
  pub accepted : server.accepts ≡ true

err≢ok : {A : Type 0} {e : Refusal} {a : A} → ◌≡◌ {A = Answer A} (err e) (ok a) → ⊥
err≢ok h = cc

ok_inj : {A : Type 0} {a b : A} → ◌≡◌ {A = Answer A} (ok a) (ok b) → a ≡ b
ok_inj h = cc

module _ (server : Server) (a : Actor) (name decision : String) where
  abbrev decided : ActionRequest → ActionRequest
  decided action = record action { spec = decided_spec (is_approve decision) a action.spec }

  -- What follows once both resources are read.
  abbrev rest : ActionRequest → ServiceInstance → Answer ActionRequest
  rest action target =
      check (authorize_instance server.client a target) forbidden
      >> (check
            (not (is_self_approval_request action.spec.requested_by a && not (is_platform_admin a)))
            forbidden
          >> (check
                (action.status.phase == "PendingApproval" && is_required action.spec.approval_mode)
                conflict
              >> (check server.accepts unavailable >> ok (decided action))))

  abbrev Stored : ActionRequest → Type 0
  Stored stored =
      (action : ActionRequest) × Admitted server a name decision action × (stored ≡ decided action)

  module _ (stored : ActionRequest)
      (role : has_any a (role_platform_admin ∷ role_tenant_operator ∷ []) ≡ true)
      (named : (trim_space name == "") ≡ false)
      (known : (is_approve decision || is_reject decision) ≡ true) where
    checks :
        (action : ActionRequest) (target : ServiceInstance)
        → server.get_action (trim_space name) ≡ found action
        → server.get_instance action.spec.target_ref.name ≡ found target
        → rest action target ≡ ok stored
        → Stored stored
    checks action target at target_at h =
        elim (Bool-cases (authorize_instance server.client a target)) [
          | inr e ↦ absurd (err≢ok (rw e at h))
          | inl authorized ↦
              let h = (rw authorized at h) in
              elim (Bool-cases (
                is_self_approval_request action.spec.requested_by a && not (is_platform_admin a))) [
                  | inl e ↦ absurd (err≢ok (rw e at h))
                  | inr not_own ↦
                      let h = (rw not_own at h) in
                      elim (Bool-cases (
                        action.status.phase == "PendingApproval"
                        && is_required action.spec.approval_mode)) [
                          | inr e ↦ absurd (err≢ok (rw e at h))
                          | inl waiting ↦
                              let h = (rw waiting at h) in
                              elim (Bool-cases server.accepts) [
                                | inr e ↦ absurd (err≢ok (rw e at h))
                                | inl accepted ↦ (
                                  action,
                                  record {
                                    role = role;
                                    named = named;
                                    known = known;
                                    stored = at;
                                    target = target;
                                    target_stored = target_at;
                                    authorized = authorized;
                                    not_own = not_own;
                                    waiting = waiting;
                                    accepted = accepted;
                                  },
                                  sym (ok_inj (rw accepted at h)),
                                )
                              ]
                        ]
                ]
        ]

    reads :
        (fetch (server.get_action (trim_space name)) >>= (λ action.
            fetch (server.get_instance action.spec.target_ref.name)
            >>= (λ target. rest action target)))
          ≡ ok stored
        → Stored stored
    reads h = elim (Lookup-cases (server.get_action (trim_space name))) [
      | inr (inl e) ↦ absurd (err≢ok (rw e at h))
      | inr (inr e) ↦ absurd (err≢ok (rw e at h))
      | inl (action, at) ↦
          let h = (rw at at h) in
          elim (Lookup-cases (server.get_instance action.spec.target_ref.name)) [
            | inr (inl e) ↦ absurd (err≢ok (rw e at h))
            | inr (inr e) ↦ absurd (err≢ok (rw e at h))
            | inl (target, target_at) ↦ checks action target at target_at (rw target_at at h)
          ]
    ]

  rejected_lem :
      (stored : ActionRequest)
      → handle_action_approval server a name (some decision) ≡ ok stored
      → Stored stored
  unfolding handle_action_approval require_role
  rejected_lem stored h =
      elim (Bool-cases (has_any a (role_platform_admin ∷ role_tenant_operator ∷ []))) [
        | inr e ↦ absurd (err≢ok (rw e at h))
        | inl role ↦
            let h = (rw role at h) in
            elim (Bool-cases (trim_space name == "")) [
              | inl e ↦ absurd (err≢ok (rw e at h))
              | inr named ↦
                  let h = (rw named at h) in
                  elim (Bool-cases (is_approve decision || is_reject decision)) [
                    | inr e ↦ absurd (err≢ok (rw e at h))
                    | inl known ↦ reads stored role named known (rw known at h)
                  ]
            ]
      ]

  accepted_lem :
      (action : ActionRequest)
      → Admitted server a name decision action
      → handle_action_approval server a name (some decision) ≡ ok (decided action)
  unfolding handle_action_approval require_role
  accepted_lem action h =
      rw
        (
          h.role, h.named, h.known, h.stored, h.target_stored, h.authorized, h.not_own, h.waiting,
          h.accepted,
        )
        refl

-- A decision is stored exactly where the caller is an approver, the name and the decision are
-- given, the request and its target exist, the target is in the caller's tenancy, the request is
-- not the caller's own unless that is a platform admin, it waits for approval, and the API accepts
-- the update; and what is stored is the request with the decided spec.
pub handle_action_approval_iff :
    (server : Server) (a : Actor) (name decision : String) (stored : ActionRequest)
    → (handle_action_approval server a name (some decision) ≡ ok stored) ↔ (
        (action : ActionRequest) × Admitted server a name decision action
        × (stored ≡ record action { spec = decided_spec (is_approve decision) a action.spec }))
handle_action_approval_iff server a name decision stored = (
  rejected_lem server a name decision stored,
  λ (action, h, e). accepted_lem server a name decision action h ∙ ap ok (sym e),
)
