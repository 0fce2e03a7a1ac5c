-- ===== src/Packages/Names.antt =====
-- internal/controllers/operator_package_dependencies.go, `uniquePackageNames`: lists of names as sets.
use servicer.Prelude.{
  String, true, false, ◌&&◌, ◌||◌, not, List, [], ◌∷◌, ◌==◌, ◌≡◌, ◌≢◌, refl, sym, ◌∙◌, ap, inl, inr,
  contains, Bool-cases, eq_iff, eq_refl, eq_false_iff, Distinct, arith, less, less_irrefl,
  less_trans, less_total,
}
use servicer.Packages.{unique_names, insert_name, sort, unique_package_names}

-- Each name is below all that follow.
abbrev Below : String → List String → Type 0
Below s [] = Unit
Below s (x ∷ xs) = (less s x ≡ true) × Below s xs

-- In rising order, so none twice.
abbrev pub Ascending : List String → Type 0
Ascending [] = Unit
Ascending (x ∷ xs) = Below x xs × Ascending xs

Below-trans : (s t : String) (xs : List String) → less s t ≡ true → Below t xs → Below s xs
Below-trans s t [] h b = tt
Below-trans s t (x ∷ xs) h (k, b) = (less_trans s t x h k, Below-trans s t xs h b)

not_in_Below : (s : String) (xs : List String) → Below s xs → contains s xs ≡ false
not_in_Below s [] b = refl
not_in_Below s (x ∷ xs) (h, b) =
    ground (arith, eq_iff x s, less_irrefl s, ap (λ y. less s y), not_in_Below s xs b)

less_of_Below :
    (s t : String) (xs : List String) → Below s xs → contains t xs ≡ true → less s t ≡ true
less_of_Below s t [] b h = cc
less_of_Below s t (x ∷ xs) (k, b) h = elim (Bool-cases (x == t)) [
  | inl e ↦ rw (← (eq_iff x t).0 e) k
  | inr e ↦ less_of_Below s t xs b (ground arith)
]

contains-insert_name :
    (n s : String) (xs : List String) → contains n (insert_name s xs) ≡ (s == n || contains n xs)
unfolding insert_name
contains-insert_name n s [] = refl
contains-insert_name n s (x ∷ xs) = ground (arith, contains-insert_name n s xs)

Below-insert_name :
    (t s : String) (xs : List String) → less t s ≡ true → Below t xs → Below t (insert_name s xs)
unfolding insert_name
Below-insert_name t s [] h b = (h, tt)
Below-insert_name t s (x ∷ xs) h (k, b) = elim (Bool-cases (less s x)) [
  | inl e ↦ rw (insert_name, e) (h, (k, b))
  | inr e ↦ rw (insert_name, e) (k, Below-insert_name t s xs h b)
]

Ascending-insert_name :
    (s : String) (xs : List String)
    → contains s xs ≡ false
    → Ascending xs
    → Ascending (insert_name s xs)
unfolding insert_name
Ascending-insert_name s [] h a = (tt, tt)
Ascending-insert_name s (x ∷ xs) h (b, a) = elim (Bool-cases (less s x)) [
  | inl e ↦ rw (insert_name, e) ((e, Below-trans s x xs e b), (b, a))
  | inr e ↦
      rw (insert_name, e)
        (Below-insert_name x s xs (greater e) b, Ascending-insert_name s xs (ground arith) a)
]
  where
    greater : less s x ≡ false → less x s ≡ true
    greater e = elim (Bool-cases (less x s)) [
      | inl f ↦ f
      | inr f ↦ ground (arith, eq_iff x s, less_total s x e f)
    ]

contains-sort : (n : String) (xs : List String) → contains n (sort xs) ≡ contains n xs
unfolding sort
contains-sort n [] = refl
contains-sort n (x ∷ xs) =
    contains-insert_name n x (sort xs) ∙ ap (λ b. x == n || b) (contains-sort n xs)

Ascending-sort : (xs : List String) → Distinct xs → Ascending (sort xs)
unfolding sort
Ascending-sort [] d = tt
Ascending-sort (x ∷ xs) (f, d) =
    Ascending-insert_name x (sort xs) (contains-sort x xs ∙ f) (Ascending-sort xs d)

contains-unique_names :
    (n : String) (seen names : List String)
    → contains n (unique_names seen names)
      ≡ (not (n == "") && (not (contains n seen) && contains n names))
unfolding unique_names
contains-unique_names n seen [] = ground arith
contains-unique_names n seen (x ∷ names) = elim (Bool-cases (x == "")) [
  | inl e ↦
      rw (unique_names, e)
        (ground (arith, eq_iff x n, eq_iff x "", eq_iff n "", contains-unique_names n seen names))
  | inr e ↦ elim (Bool-cases (contains x seen)) [
    | inl f ↦
        rw (unique_names, e, f)
          (ground
            (arith, eq_iff x n, ap (λ y. contains y seen), contains-unique_names n seen names))
    | inr f ↦
        rw (unique_names, e, f)
          (ground (
            arith,
            eq_iff x n,
            eq_iff x "",
            eq_iff n "",
            ap (λ y. contains y seen),
            contains-unique_names n (x ∷ seen) names,
          ))
  ]
]

Distinct-unique_names : (seen names : List String) → Distinct (unique_names seen names)
unfolding unique_names
Distinct-unique_names seen [] = tt
Distinct-unique_names seen (x ∷ names) = elim (Bool-cases (x == "")) [
  | inl e ↦ rw (unique_names, e) (Distinct-unique_names seen names)
  | inr e ↦ elim (Bool-cases (contains x seen)) [
    | inl f ↦ rw (unique_names, e, f) (Distinct-unique_names seen names)
    | inr f ↦
        rw (unique_names, e, f)
          (
            ground (arith, eq_refl x, contains-unique_names x (x ∷ seen) names),
            Distinct-unique_names (x ∷ seen) names,
          )
  ]
]

pub contains-unique_package_names :
    (n : String) (names : List String)
    → contains n (unique_package_names names) ≡ (not (n == "") && contains n names)
unfolding unique_package_names
contains-unique_package_names n names =
    contains-sort n (unique_names [] names) ∙ contains-unique_names n [] names

Ascending-unique_package_names : (names : List String) → Ascending (unique_package_names names)
unfolding unique_package_names
Ascending-unique_package_names names = Ascending-sort _ (Distinct-unique_names [] names)

-- The least names of two rising lists with the same members are the same.
same_head :
    (x y : String) (xs ys : List String)
    → Ascending (x ∷ xs)
    → Ascending (y ∷ ys)
    → ((n : String) → contains n (x ∷ xs) ≡ contains n (y ∷ ys))
    → x ≡ y
same_head x y xs ys (b, a) (c, d) same = elim (Bool-cases (x == y)) [
  | inl e ↦ (eq_iff x y).0 e
  | inr e ↦
      let y_in : contains y xs ≡ true = ground (arith, same y, eq_refl y) in
      let x_in : contains x ys ≡ true = ground (arith, same x, eq_refl x, eq_iff x y, eq_iff y x) in
      let up = less_of_Below x y xs b y_in in
      let down = less_of_Below y x ys c x_in in
      let loop = less_trans x y x up down in ground (arith, less_irrefl x)
]

Ascending-unique :
    (xs ys : List String)
    → Ascending xs
    → Ascending ys
    → ((n : String) → contains n xs ≡ contains n ys)
    → xs ≡ ys
Ascending-unique [] [] a b same = refl
Ascending-unique [] (y ∷ ys) a b same = ground (arith, eq_refl y, same y)
Ascending-unique (x ∷ xs) [] a b same = ground (arith, eq_refl x, same x)
Ascending-unique (x ∷ xs) (y ∷ ys) (b, a) (c, d) same =
    let e = same_head x y xs ys (b, a) (c, d) same in
    let rest = Ascending-unique xs ys a d (λ n. same_tail e n) in λ i. e i ∷ rest i
  where
    same_tail : x ≡ y → (n : String) → contains n xs ≡ contains n ys
    same_tail e n = elim (Bool-cases (x == n)) [
      | inl f ↦
          let k = (eq_iff x n).0 f in
          ap (λ z. contains z xs) (sym k)
          ∙ not_in_Below x xs b
          ∙ sym (ap (λ z. contains z ys) (sym k ∙ e) ∙ not_in_Below y ys c)
      | inr f ↦ ground (arith, same n, ap (λ z. z == n) e)
    ]

-- The result is the set of the names: lists with the same names but for the empty one give the same
-- list, which is in rising order and has these names.
pub unique_package_names_canonical :
    (xs ys : List String)
    → ((n : String) → n ≢ "" → contains n xs ≡ contains n ys)
    → (unique_package_names xs ≡ unique_package_names ys)
      × Ascending (unique_package_names xs)
      × ((n : String) → contains n (unique_package_names xs) ≡ (not (n == "") && contains n xs))
unique_package_names_canonical xs ys same = (
  Ascending-unique _ _ (Ascending-unique_package_names xs) (Ascending-unique_package_names ys)
      agree,
  Ascending-unique_package_names xs,
  λ n. contains-unique_package_names n xs,
)
  where
    agree :
        (n : String) → contains n (unique_package_names xs) ≡ contains n (unique_package_names ys)
    agree n = elim (Bool-cases (n == "")) [
      | inl e ↦
          ground (arith, contains-unique_package_names n xs, contains-unique_package_names n ys)
      | inr e ↦ ground (
        arith,
        contains-unique_package_names n xs,
        contains-unique_package_names n ys,
        same n ((eq_false_iff n "").0 e),
      )
    ]
