-- ===== src/Auth/Expander/Reach.antt =====
-- internal/bff/auth.go, `expand`: what is reached by naming roles, and what one call of `visit`
-- does to the walk.
use servicer.Prelude.{
  ℕ, String, true, false, not, List, [], ◌∷◌, Option, none, some, ◌==◌, ◌≡◌, ◌≢◌, contains, length,
  lookup, if◌then◌else◌, arith, ◌⊎◌, Memᴰ, keep, map, Distinct, Distinct-snoc, any-append,
}
use servicer.Auth.Expander.{RoleSummary, Index, Walk, mark}

abbrev pub IsSeen : Walk → String → Type 0
IsSeen w name = contains name w.seen ≡ true

-- The map `seen` and the result `out` name the same roles, each once in `out`.
pub record Agrees (w : Walk) : Type 0 where
  pub same : (n : String) → contains n w.out ≡ contains n w.seen
  pub distinct : Distinct w.out

module _ (index : Index) (scope : String) where
  abbrev granted : Option RoleSummary → List String
  granted none = []
  granted (some role) = if role.scope == scope then role.permissions else []

  -- The roles that a role names, in the scope at hand.
  abbrev pub children : String → List String
  children name = granted (lookup name index)

  -- What is reached from a role by naming roles.
  pub data Reaches (root : String) : String → Type 0 where
    here : root ≢ "" → Reaches root root
    next :
        {name child : String}
        → Reaches root name
        → Memᴰ child (children name)
        → child ≢ ""
        → Reaches root child

  pub Reaches-root : {a b : String} → Reaches a b → a ≢ ""
  Reaches-root (here h) = h
  Reaches-root (next r m h) = Reaches-root r

  pub Reaches-trans : {a b c : String} → Reaches a b → Reaches b c → Reaches a c
  Reaches-trans r (here h) = r
  Reaches-trans r (next s m h) = next (Reaches-trans r s) m h

  -- From `w` the walk came to `w'` by visiting the roles of `todo`.
  pub record Visited (w w' : Walk) (todo : List String) : Type 0 where
    pub keeps : (n : String) → IsSeen w n → IsSeen w' n
    pub covers : (n : String) → Memᴰ n todo → n ≢ "" → IsSeen w' n
    pub closed :
        (n : String)
        → IsSeen w' n
        → IsSeen w n ⊎ ((c : String) → Memᴰ c (children n) → c ≢ "" → IsSeen w' c)
    pub sound : (n : String) → IsSeen w' n → IsSeen w n ⊎ ((t : String) × Memᴰ t todo × Reaches t n)
    pub agrees : Agrees w → Agrees w'

  -- How many roles of the index the walk has not entered.
  abbrev pub unseen : Walk → ℕ
  unseen w = length (
      keep (λ (k : String). not (contains k w.seen))
        (map (λ (e : String × RoleSummary). e.0) index))

pub Agrees-mark :
    (w : Walk) (name : String) → Agrees w → contains name w.seen ≡ false → Agrees (mark w name)
unfolding mark
Agrees-mark w name a h = record {
  same = λ n. ground (arith, any-append (λ x. x == n) w.out (name ∷ []), a.same n);
  distinct = Distinct-snoc w.out name a.distinct (ground (arith, a.same name));
}
