-- ===== src/Action/World/Calls.antt =====
-- internal/controllers/actionrequest_controller.go, `patchActionRequestStatus`: what the calls of the
-- API leave as it was, and what a patch that succeeds has stored.
use servicer.Prelude.{
  ℕ, zero, suc, Bool, true, List, [], ◌∷◌, Option, none, some, ◌≡◌, refl, ◌∙◌, sym, ap, arith, ◌⊎◌,
  inl, inr, Bool-cases, Option-cases,
}
use servicer.Action.{ActionRequestStatus, ActionRequest}
use servicer.Action.World.{
  Event, quiet, conflict, broken, edited, stale, World, Merge, Reply, done, failed, M, call, fine,
  conflicted, no_answer, behind, Answer, apply_edit, edit_stored, happen, read, get_action,
  patch_action_request_status, patch_round, write_status,
}

executions-happen : (es : List Event) (w : World) → (happen es w).1.executions ≡ w.executions
unfolding happen
executions-happen [] w = refl
executions-happen (quiet ∷ es) w = refl
executions-happen (conflict ∷ es) w = refl
executions-happen (broken ∷ es) w = refl
executions-happen (edited e ∷ es) w = refl
executions-happen (stale seen ∷ es) w = refl

Answer-cases :
    (a : Answer)
    → (a ≡ fine)
      ⊎ ((a ≡ conflicted) ⊎ ((a ≡ no_answer) ⊎ ((seen : Option ActionRequest) × (a ≡ behind seen))))
Answer-cases fine = inl refl
Answer-cases conflicted = inr (inl refl)
Answer-cases no_answer = inr (inr (inl refl))
Answer-cases (behind seen) = inr (inr (inr (seen, refl)))

executions-call : (w : World) → (call w).1.executions ≡ w.executions
unfolding call
executions-call w = executions-happen w.events w

pub executions-get_action : (w : World) → (get_action w).1.executions ≡ w.executions
unfolding get_action
executions-get_action w = ground (arith, executions-call w)

-- The cache does not lag behind at any of the calls that are to come.
abbrev pub Current : List Event → Type 0
Current [] = Unit
Current (quiet ∷ events) = Current events
Current (conflict ∷ events) = Current events
Current (broken ∷ events) = Current events
Current (edited e ∷ events) = Current events
Current (stale seen ∷ events) = ⊥

Current-happen :
    (es : List Event) (w : World) → w.events ≡ es → Current es → Current (happen es w).1.events
unfolding happen
Current-happen [] w e h = rw e tt
Current-happen (quiet ∷ es) w e h = h
Current-happen (conflict ∷ es) w e h = h
Current-happen (broken ∷ es) w e h = h
Current-happen (edited x ∷ es) w e h = h
Current-happen (stale seen ∷ es) w e h = absurd h

Current-call : (w : World) → Current w.events → Current (call w).1.events
unfolding call
Current-call w h = Current-happen w.events w refl h

pub Current-get_action : (w : World) → Current w.events → Current (get_action w).1.events
unfolding get_action
Current-get_action w h = elim (Answer-cases (call w).0) [
  | inl a ↦ rw a (Current-call w h)
  | inr (inl a) ↦ rw a (Current-call w h)
  | inr (inr (inl a)) ↦ rw a (Current-call w h)
  | inr (inr (inr (seen, a))) ↦ rw a (Current-call w h)
]

not_behind :
    (es : List Event) (w : World) (seen : Option ActionRequest)
    → Current es
    → (happen es w).0 ≡ behind seen
    → ⊥
unfolding happen
not_behind [] w seen h e = cc
not_behind (quiet ∷ es) w seen h e = cc
not_behind (conflict ∷ es) w seen h e = cc
not_behind (broken ∷ es) w seen h e = cc
not_behind (edited x ∷ es) w seen h e = cc
not_behind (stale s ∷ es) w seen h e = absurd h

done_inj :
    {a b : Option ActionRequest} → ◌≡◌ {A = Reply (Option ActionRequest)} (done a) (done b) → a ≡ b
done_inj h = cc

stored-read :
    (a : Answer) (w : World) (current : ActionRequest)
    → ((seen : Option ActionRequest) → a ≡ behind seen → ⊥)
    → (read a w).0 ≡ done (some current)
    → (read a w).1.stored ≡ some current
unfolding read
stored-read fine w current n h = done_inj h
stored-read conflicted w current n h = done_inj h
stored-read no_answer w current n h = cc
stored-read (behind seen) w current n h = absurd (n seen refl)

stored-get_action :
    (w : World) (current : ActionRequest)
    → Current w.events
    → (get_action w).0 ≡ done (some current)
    → (get_action w).1.stored ≡ some current
unfolding get_action call
stored-get_action w current c h =
    stored-read (call w).0 (call w).1 current (λ seen. not_behind w.events w seen c) h

some_inj : {a b : ActionRequest} → ◌≡◌ {A = Option ActionRequest} (some a) (some b) → a ≡ b
some_inj h = cc

status-kept :
    (w : World) (current later : ActionRequest)
    → w.stored ≡ some current
    → w.stored ≡ some later
    → later.status ≡ current.status
status-kept w current later h e = ap (λ (r : ActionRequest). r.status) (some_inj (sym e ∙ h))

-- A call may change the spec that is stored, not the status.
status-happen :
    (es : List Event) (w : World) (current : ActionRequest)
    → w.stored ≡ some current
    → (later : ActionRequest) → (happen es w).1.stored ≡ some later
    → later.status ≡ current.status
unfolding happen edit_stored apply_edit
status-happen [] w current h later e = status-kept w current later h e
status-happen (quiet ∷ es) w current h later e = status-kept w current later h e
status-happen (conflict ∷ es) w current h later e = status-kept w current later h e
status-happen (broken ∷ es) w current h later e = status-kept w current later h e
status-happen (stale seen ∷ es) w current h later e = status-kept w current later h e
status-happen (edited x ∷ es) w current h later e =
    ap (λ (r : ActionRequest). r.status) (some_inj (sym e ∙ ap (λ o. edit_stored x o) h))

status-call :
    (w : World) (current : ActionRequest)
    → w.stored ≡ some current
    → (later : ActionRequest) → (call w).1.stored ≡ some later
    → later.status ≡ current.status
unfolding call
status-call w = status-happen w.events w

module _ (same_status : ActionRequestStatus → ActionRequestStatus → Bool) (merge : Merge)
    (mutate : ActionRequest → ActionRequestStatus) where
  executions-round :
      (again : M ActionRequest) (r : Reply (Option ActionRequest)) (w : World)
      → ((w' : World) → (again w').1.executions ≡ w'.executions)
      → (patch_round same_status merge mutate again r w).1.executions ≡ w.executions
  unfolding patch_round write_status
  executions-round again failed w h = refl
  executions-round again (done none) w h = refl
  executions-round again (done (some current)) w h = ground (arith, executions-call w, h (call w).1)

  pub executions-patch :
      (rounds : ℕ) (w : World)
      → (patch_action_request_status same_status merge rounds mutate w).1.executions ≡ w.executions
  unfolding patch_action_request_status
  executions-patch zero w = refl
  executions-patch (suc rounds) w =
      executions-round (patch_action_request_status same_status merge rounds mutate)
        (get_action w).0 (get_action w).1 (executions-patch rounds)
      ∙ executions-get_action w

  -- What a patch that succeeds returns is stored, and its status is what the function makes of the
  -- request that the patch read.
  abbrev pub Wrote : Reply ActionRequest × World → Type 0
  Wrote (done r, w') =
      (w'.stored ≡ some r) × ((current : ActionRequest) × (r.status ≡ mutate current))
  Wrote (failed, w') = Unit

  module _ (same : (a b : ActionRequestStatus) → same_status a b ≡ true → a ≡ b)
      (merges : (a b : ActionRequestStatus) → merge a b a ≡ b) where
    Wrote-write :
        (current : ActionRequest) (w : World)
        → ((later : ActionRequest) → w.stored ≡ some later → later.status ≡ current.status)
        → Wrote (write_status merge current.status (mutate current) w)
    unfolding write_status
    Wrote-write current w h = elim (Option-cases w.stored) [
      | inl e ↦ rw (e, write_status) tt
      | inr (r, e) ↦
          rw (e, write_status)
            (
              refl,
              (
                current,
                ap (λ s. merge current.status (mutate current) s) (h r e)
                    ∙ merges current.status (mutate current),
              ),
            )
    ]

    Wrote-round :
        (again : M ActionRequest) (r : Reply (Option ActionRequest)) (w : World)
        → ((w' : World) → Current w'.events → Wrote (again w'))
        → Current w.events
        → ((current : ActionRequest) → r ≡ done (some current) → w.stored ≡ some current)
        → Wrote (patch_round same_status merge mutate again r w)
    unfolding patch_round
    Wrote-round again failed w h c g = tt
    Wrote-round again (done none) w h c g = tt
    Wrote-round again (done (some current)) w h c g =
        let write = Wrote-write current (call w).1 (status-call w current (g current refl)) in
        elim (Bool-cases (same_status current.status (mutate current))) [
          | inl e ↦ rw e (
            g current refl ∙ ap (λ s. some (record current { status = s })) (same _ _ e),
            (current, refl),
          )
          | inr e ↦ rw e (elim (Answer-cases (call w).0) [
            | inl a ↦ rw a write
            | inr (inl a) ↦ rw a (h (call w).1 (Current-call w c))
            | inr (inr (inl a)) ↦ rw a tt
            | inr (inr (inr (seen, a))) ↦ rw a write
          ])
        ]

    pub Wrote-patch :
        (rounds : ℕ) (w : World)
        → Current w.events
        → Wrote (patch_action_request_status same_status merge rounds mutate w)
    unfolding patch_action_request_status
    Wrote-patch zero w c = tt
    Wrote-patch (suc rounds) w c =
        Wrote-round (patch_action_request_status same_status merge rounds mutate) (get_action w).0
          (get_action w).1 (Wrote-patch rounds) (Current-get_action w c)
          (λ current h. stored-get_action w current c h)
