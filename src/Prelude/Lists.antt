-- ===== src/Prelude/Lists.antt =====
-- Lists with Boolean tests: what a Go loop over a slice or over a set of names does.
use Prim.Native.Nat.{ℕ, suc, ◌+◌, ◌≤◌, ◌<◌}
use Prim.Native.String.{String}
use mathlib.Core.Path.{◌≡◌, refl, ap}
use mathlib.Core.Logic.{inl, inr, ◌↔◌, ◌≢◌}
use mathlib.Core.Bool.{Bool, true, false, not, ◌||◌}
use mathlib.Core.List.Memᴰ as MemD
use mathlib.Core.List.{List, [], ◌∷◌, ◌++◌, map, Memᴰ}
use native.Mathlib.Omega.{arith}
use text.Mathlib.Text.{◌==◌}
use text.Mathlib.TextEquality.{eq_iff}
use servicer.Prelude.Tests.{if◌then◌else◌, Bool-cases}

abbrev pub All {ℓ κ} : {A : Type ℓ} → (A → Type κ) → List A → Type κ
All P [] = Unit
All P (x ∷ xs) = P x × All P xs

module _ {ℓ} {A : Type ℓ} where
  abbrev pub length : List A → ℕ
  length [] = 0
  length (x ∷ xs) = suc (length xs)

  -- A loop that returns true at the first hit.
  abbrev pub any : (A → Bool) → List A → Bool
  any p [] = false
  any p (x ∷ xs) = p x || any p xs

  -- A loop that appends what passes a test.
  abbrev pub keep : (A → Bool) → List A → List A
  keep p [] = []
  keep p (x ∷ xs) = if p x then x ∷ keep p xs else keep p xs

-- A list of length 0.
abbrev pub is_empty {ℓ} : {A : Type ℓ} → List A → Bool
is_empty [] = true
is_empty (x ∷ xs) = false

-- Membership in a slice of names, or in a `map[string]struct{}`.
abbrev pub contains : String → List String → Bool
contains s xs = any (λ x. x == s) xs

module _ {ℓ} {A : Type ℓ} where
  pub length-append : (xs ys : List A) → length (xs ++ ys) ≡ length xs + length ys
  length-append [] ys = omega arith
  length-append (x ∷ xs) ys = omega (arith, length-append xs ys)

  -- Nothing is appended to nothing.
  pub append_nil : (xs ys : List A) → (xs ++ ys ≡ []) ↔ ((xs ≡ []) × (ys ≡ []))
  append_nil [] ys = (λ h. (refl, h), λ (e, h). h)
  append_nil (x ∷ xs) ys = (λ h. cc, λ (e, h). cc)

  pub append_nil_iff {κ μ} :
      {P : Type κ} {Q : Type μ} {xs ys : List A}
      → (xs ≡ []) ↔ P
      → (ys ≡ []) ↔ Q
      → (xs ++ ys ≡ []) ↔ (P × Q)
  append_nil_iff {xs} {ys} f g = (
    λ h. let (a, b) = (append_nil xs ys).0 h in (f.0 a, g.0 b),
    λ (a, b). (append_nil xs ys).1 (f.1 a, g.1 b),
  )

  pub any-append : (p : A → Bool) (xs ys : List A) → any p (xs ++ ys) ≡ (any p xs || any p ys)
  any-append p [] ys = refl
  any-append p (x ∷ xs) ys = ground (arith, any-append p xs ys)

  pub mem_singleton : {x y : A} → Memᴰ x (y ∷ []) → x ≡ y
  mem_singleton (Memᴰ.head e) = e
  mem_singleton (Memᴰ.tail m) = elim m [ ]

  pub any_of_mem : (p : A → Bool) {x : A} (xs : List A) → Memᴰ x xs → p x ≡ true → any p xs ≡ true
  any_of_mem p [] m h = elim m [ ]
  any_of_mem p (y ∷ ys) (Memᴰ.head e) h = ground (arith, ap p e)
  any_of_mem p (y ∷ ys) (Memᴰ.tail m) h = ground (arith, any_of_mem p ys m h)

  pub mem_of_any :
      (p : A → Bool) (xs : List A) → any p xs ≡ true → (x : A) × Memᴰ x xs × (p x ≡ true)
  mem_of_any p [] h = cc
  mem_of_any p (y ∷ ys) h = elim (Bool-cases (p y)) [
    | inl e ↦ (y, Memᴰ.head refl, e)
    | inr e ↦ let (x, m, k) = mem_of_any p ys (ground arith) in (x, Memᴰ.tail m, k)
  ]

  pub mem-keep : (p : A → Bool) {x : A} (xs : List A) → Memᴰ x xs → p x ≡ true → Memᴰ x (keep p xs)
  mem-keep p [] m h = elim m [ ]
  mem-keep p (y ∷ ys) (Memᴰ.head e) h = rw (← ap p e, h) (Memᴰ.head e)
  mem-keep p (y ∷ ys) (Memᴰ.tail m) h = elim (Bool-cases (p y)) [
    | inl e ↦ rw e (Memᴰ.tail (mem-keep p ys m h))
    | inr e ↦ rw e (mem-keep p ys m h)
  ]

  -- What passes the filter was there, and passes the test.
  pub mem_of_mem-keep :
      (p : A → Bool) {x : A} (xs : List A) → Memᴰ x (keep p xs) → Memᴰ x xs × (p x ≡ true)
  mem_of_mem-keep p [] m = elim m [ ]
  mem_of_mem-keep p (y ∷ ys) m = elim (Bool-cases (p y)) [
    | inl e ↦ elim (MemD.cases_cons (rw e at m)) [
      | inl f ↦ (Memᴰ.head f, rw f e)
      | inr n ↦ let (k, h) = mem_of_mem-keep p ys n in (Memᴰ.tail k, h)
    ]
    | inr e ↦ let (k, h) = mem_of_mem-keep p ys (rw e at m) in (Memᴰ.tail k, h)
  ]

  pub any_congr : (p q : A → Bool) (xs : List A) → ((x : A) → p x ≡ q x) → any p xs ≡ any q xs
  any_congr p q [] h = refl
  any_congr p q (x ∷ xs) h = ground (arith, h x, any_congr p q xs h)

  -- Two tests that agree on the members filter alike.
  pub keep_congr :
      (p q : A → Bool) (xs : List A) → ((x : A) → Memᴰ x xs → p x ≡ q x) → keep p xs ≡ keep q xs
  keep_congr p q [] h = refl
  keep_congr p q (x ∷ xs) h =
      ground (arith, h x (Memᴰ.head refl), keep_congr p q xs (λ y m. h y (Memᴰ.tail m)))

pub contains_iff : (s : String) (xs : List String) → (contains s xs ≡ true) ↔ Memᴰ s xs
contains_iff s xs = (to, λ m. any_of_mem (λ x. x == s) xs m ((eq_iff s s).1 refl))
  where
    to : contains s xs ≡ true → Memᴰ s xs
    to h = let (x, m, e) = mem_of_any (λ x. x == s) xs h in rw (← (eq_iff x s).0 e) m

pub iff_trans {ℓ κ μ} : {P : Type ℓ} {Q : Type κ} {R : Type μ} → P ↔ Q → Q ↔ R → P ↔ R
iff_trans f g = (λ a. g.0 (f.0 a), λ c. f.1 (g.1 c))

pub eq_false_iff : (s t : String) → ((s == t) ≡ false) ↔ (s ≢ t)
eq_false_iff s t = (
  λ h e. ground (arith, eq_iff s t),
  λ h. elim (Bool-cases (s == t)) [ inl e ↦ absurd (h ((eq_iff s t).0 e)) | inr e ↦ e ],
)

pub not_eq_iff : (s t : String) → (not (s == t) ≡ false) ↔ (s ≡ t)
not_eq_iff s t = (λ h. (eq_iff s t).0 (ground arith), λ e. ground (arith, eq_iff s t))

-- No text stands twice.
abbrev pub Distinct : List String → Type 0
Distinct [] = Unit
Distinct (x ∷ xs) = (contains x xs ≡ false) × Distinct xs

pub Distinct-snoc :
    (xs : List String) (s : String) → Distinct xs → contains s xs ≡ false → Distinct (xs ++ s ∷ [])
Distinct-snoc [] s d h = (refl, tt)
Distinct-snoc (x ∷ xs) s (n, d) h = (
  ground (arith, any-append (λ y. y == x) xs (s ∷ []), eq_iff s x, eq_iff x s),
  Distinct-snoc xs s d (ground arith),
)

module _ {ℓ} {A : Type ℓ} (p q : A → Bool) where
  -- A stronger test keeps no more.
  pub length-keep-le :
      (xs : List A) → ((x : A) → q x ≡ true → p x ≡ true) → length (keep q xs) ≤ length (keep p xs)
  length-keep-le [] h = omega arith
  length-keep-le (x ∷ xs) h = ground (arith, h x, length-keep-le xs h)

  -- It keeps fewer if it drops a member that the other keeps.
  pub length-keep-lt :
      {x : A} (xs : List A)
      → ((x : A) → q x ≡ true → p x ≡ true)
      → Memᴰ x xs
      → p x ≡ true
      → q x ≡ false
      → length (keep q xs) < length (keep p xs)
  length-keep-lt [] h m hp hq = elim m [ ]
  length-keep-lt (y ∷ ys) h (Memᴰ.head e) hp hq =
      let le = length-keep-le ys h in rw (← ap p e, ← ap q e, hp, hq) (omega arith)
  length-keep-lt (y ∷ ys) h (Memᴰ.tail m) hp hq = ground (arith, h y, length-keep-lt ys h m hp hq)

module _ {ℓ} {A : Type ℓ} where
  pub length-keep : (p : A → Bool) (xs : List A) → length (keep p xs) ≤ length xs
  length-keep p [] = omega arith
  length-keep p (x ∷ xs) = ground (arith, length-keep p xs)

  pub length-map {κ} : {B : Type κ} (f : A → B) (xs : List A) → length (map f xs) ≡ length xs
  length-map f [] = refl
  length-map f (x ∷ xs) = ap suc (length-map f xs)
