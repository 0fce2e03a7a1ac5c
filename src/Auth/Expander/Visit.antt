-- ===== src/Auth/Expander/Visit.antt =====
-- internal/bff/auth.go, `expand`: the walk ends, and finds exactly what the role reaches.
use servicer.Prelude.{
  ℕ, zero, suc, ◌<◌, ◌≤◌, String, true, false, not, List, [], ◌∷◌, Option, some, ◌==◌, ◌≡◌, refl,
  ◌↔◌, contains, length, lookup, arith, eq_iff, inl, inr, Memᴰ, map, Distinct, Bool-cases,
  Option-cases, sym, length-keep, length-map, ◌∙◌, mem_singleton,
}
use servicer.Auth.Expander.{RoleSummary, Index, Walk, mark, visit_all, descend, visit, expand}
use servicer.Auth.Expander.Steps.{
  unseen_mono, unseen-mark, Visited-refl, Visited-skip, Visited-cons, Visited-enter,
}
use servicer.Auth.Expander.Reach.{IsSeen, children, Reaches, here, next, Visited, unseen}

module _ (index : Index) (scope : String) where
  -- A call that ends within its fuel and has visited the role.
  abbrev Visits : (Walk → String → Option Walk) → ℕ → Type 0
  Visits call fuel =
      (w : Walk) (name : String)
      → unseen index scope w < fuel
      → (v : Walk) × (call w name ≡ some v) × Visited index scope w v (name ∷ [])

  visit_all_lem :
      (call : Walk → String → Option Walk) (fuel : ℕ)
      → Visits call fuel
      → (names : List String) (w : Walk) → unseen index scope w < fuel
      → (v : Walk) × (visit_all call w names ≡ some v) × Visited index scope w v names
  unfolding visit_all
  visit_all_lem call fuel visits [] w h = (w, refl, Visited-refl index scope w)
  visit_all_lem call fuel visits (name ∷ names) w h =
      let (u, e, a) = visits w name h in
      let (v, e', b) =
        visit_all_lem call fuel visits names u
          (omega (arith, unseen_mono index scope w u a.keeps)) in
      (v, rw (e, visit_all) e', Visited-cons index scope a b)

  descend_lem :
      (call : Walk → String → Option Walk) (fuel : ℕ)
      → Visits call fuel
      → (w : Walk) (name : String) → contains name w.seen ≡ false
      → unseen index scope w < suc fuel
      → (v : Walk) × (descend index scope call (mark w name) (lookup name index) ≡ some v)
        × Visited index scope (mark w name) v (children index scope name)
  unfolding descend
  descend_lem call fuel visits w name fresh h = elim (Option-cases (lookup name index)) [
    | inl e ↦ (mark w name, rw (e, descend), rw e (Visited-refl index scope (mark w name)))
    | inr (role, e) ↦ elim (Bool-cases (role.scope == scope)) [
      | inl same ↦
          let (v, f, b) =
            visit_all_lem call fuel visits role.permissions (mark w name)
              (omega (arith, unseen-mark index scope w name fresh e)) in
          (v, rw (e, descend) (rw same f), rw e (rw same b))
      | inr other ↦ (
        mark w name,
        rw (e, descend) (rw other),
        rw e (rw other (Visited-refl index scope (mark w name))),
      )
    ]
  ]

  visit_lem : (fuel : ℕ) → Visits (visit index scope fuel) fuel
  unfolding visit
  visit_lem zero w name h = absurd (omega arith)
  visit_lem (suc fuel) w name h = elim (Bool-cases (name == "")) [
    | inl e ↦ (w, rw e, Visited-skip index scope w name (λ ne. absurd (ne ((eq_iff name "").0 e))))
    | inr named ↦ elim (Bool-cases (contains name w.seen)) [
      | inl old ↦ (w, rw (named, old), Visited-skip index scope w name (λ _. old))
      | inr fresh ↦
          let (v, e, b) =
            descend_lem (visit index scope fuel) fuel (visit_lem fuel) w name fresh h in
          (
            v,
            rw (named, fresh) e,
            Visited-enter index scope fresh (λ f. cc ((eq_iff name "").1 f)) b,
          )
    ]
  ]

  abbrev start : Walk
  start = record { seen = []; out = [] }

  unseen-start : unseen index scope start ≤ length index
  unseen-start = omega (
    arith,
    length-keep (λ (k : String). not (contains k start.seen))
        (map (λ (e : String × RoleSummary). e.0) index),
    length-map (λ (e : String × RoleSummary). e.0) index,
  )

  module _ {root : String} {v : Walk} (b : Visited index scope start v (root ∷ [])) where
    reached_of_seen : (n : String) → IsSeen v n → Reaches index scope root n
    reached_of_seen n h = elim (b.sound n h) [
      | inl k ↦ absurd (cc k)
      | inr (t, m, r) ↦ rw (mem_singleton m) at r
    ]

    IsSeen-of_reached : {n : String} → Reaches index scope root n → IsSeen v n
    IsSeen-of_reached (here h) = b.covers root (Memᴰ.head refl) h
    IsSeen-of_reached (next {name} r m h) = elim (b.closed name (IsSeen-of_reached r)) [
      | inl k ↦ absurd (cc k)
      | inr g ↦ g _ m h
    ]

-- Expanding a role ends, whatever cycles the roles' permissions form, and lists each role that the
-- role reaches by naming roles of the scope, once, and no other.
pub expand_correct :
    (index : Index) (role_name scope : String)
    → (out : List String) × (expand index role_name scope ≡ some out)
      × Distinct out
      × ((n : String) → (contains n out ≡ true) ↔ Reaches index scope role_name n)
unfolding expand
expand_correct index role_name scope =
    let (v, e, b) =
      visit_lem index scope (suc (length index)) (start index scope) role_name
        (omega (arith, unseen-start index scope)) in
    let a = b.agrees (record { same = λ n. refl; distinct = tt }) in
    (
      v.out,
      rw (e, expand),
      a.distinct,
      λ n. (
        λ h. reached_of_seen index scope b n (sym (a.same n) ∙ h),
        λ r. a.same n ∙ IsSeen-of_reached index scope b r,
      ),
    )
