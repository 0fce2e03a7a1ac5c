-- ===== src/Auth/Expander.antt =====
-- internal/bff/auth.go, `roleExpander`: a role with all the roles that its permissions name, found
-- by a depth-first walk. The recursion takes fuel; `none` is a walk that ran out of it.
pub mod Reach
pub mod Steps
pub mod Visit
use servicer.Prelude.{
  ℕ, zero, suc, String, Bool, List, [], ◌∷◌, ◌++◌, Option, none, some, ◌==◌, contains, length,
  lookup, if◌then◌else◌,
}

pub record RoleSummary : Type 0 where
  pub name : String
  pub scope : String
  pub permissions : List String

abbrev pub Index : Type 0
Index = List (String × RoleSummary)

index_roles : Index → List RoleSummary → Index
index_roles index [] = index
index_roles index (role ∷ roles) = index_roles ((role.name, role) ∷ index) roles

unfoldable pub new_role_expander : List RoleSummary → Index
unfolding index_roles
new_role_expander roles = index_roles [] roles

-- The variables `seen` and `out` that `visit` closes over.
pub record Walk : Type 0 where
  pub seen : List String
  pub out : List String

pub mark : Walk → String → Walk
mark w name = record { seen = name ∷ w.seen; out = w.out ++ name ∷ [] }

-- The loop over `role.Permissions`, given the call of `visit`.
pub visit_all : (Walk → String → Option Walk) → Walk → List String → Option Walk
visit_all call w [] = some w
visit_all call w (permission ∷ permissions) = elim (call w permission) [
  | none ↦ none
  | some w' ↦ visit_all call w' permissions
]

module _ (index : Index) (scope : String) where
  -- What follows the mark, given the call of `visit`.
  pub descend : (Walk → String → Option Walk) → Walk → Option RoleSummary → Option Walk
  descend call w none = some w
  descend call w (some role) =
      if role.scope == scope then visit_all call w role.permissions else some w

  pub visit : ℕ → Walk → String → Option Walk
  visit zero w name = none
  visit (suc fuel) w name =
      if name == ""
      then some w
      else if contains name w.seen
      then some w
      else descend (visit fuel) (mark w name) (lookup name index)

-- A walk enters each role of the index once, so it is never deeper than the index is long.
unfoldable pub expand : Index → String → String → Option (List String)
unfolding visit visit_all descend mark
expand index role_name scope =
    elim (visit index scope (suc (length index)) (record { seen = []; out = [] }) role_name) [
      | none ↦ none
      | some w ↦ some w.out
    ]
