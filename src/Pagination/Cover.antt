-- ===== src/Pagination/Cover.antt =====
-- internal/bff/pagination.go: the limits of a page, and that the pages of a list make up the list.
use servicer.Prelude.{
  ℕ, zero, suc, ◌+◌, ◌-◌, ◌≤◌, String, true, List, [], ◌∷◌, ◌++◌, Option, none, some, ◌==◌, ◌≡◌,
  refl, sym, ◌∙◌, ap, arith, ltb, leb, eqb, length, trim_space, Fallible, ok, err, ◌>>=◌,
  Bool-cases, inl, inr,
}
use servicer.Pagination.{
  max_page_limit, max_int, Parsed, no_number, negative, natural, PageError, PageQuery, positive,
  page_limit, page_offset, page_query_from_request, add_int, range_end, paginate_range, take, drop,
  slice, page,
}

ok_inj : {a b : ℕ} → ◌≡◌ {A = Fallible PageError ℕ} (ok a) (ok b) → a ≡ b
ok_inj h = cc

err≢ok : {e : PageError} {b : ℕ} → ◌≡◌ {A = Fallible PageError ℕ} (err e) (ok b) → ⊥
err≢ok h = cc

positive_lem :
    (parsed : Parsed) (limit : ℕ)
    → positive parsed ≡ ok limit
    → (1 ≤ limit) × (limit ≤ max_page_limit)
positive_lem no_number limit h = absurd (err≢ok h)
positive_lem negative limit h = absurd (err≢ok h)
positive_lem (natural n) limit h = elim (Bool-cases (eqb n 0)) [
  | inl e ↦ absurd (err≢ok (rw e at h))
  | inr e ↦ let k = ok_inj (rw e at h) in ground arith
]

no_distance : (n : ℕ) → n - n ≡ 0
no_distance n = omega arith

query_inj : {p q : PageQuery} → ◌≡◌ {A = Fallible PageError PageQuery} (ok p) (ok q) → p ≡ q
query_inj h = cc

no_query :
    {e : PageError} {q : PageQuery} → ◌≡◌ {A = Fallible PageError PageQuery} (err e) (ok q) → ⊥
no_query h = cc

chain_lem :
    (limit offset : Fallible PageError ℕ) (query : PageQuery)
    → (limit >>= (λ l. offset >>= (λ o. ok (record { limit = l; offset = o })))) ≡ ok query
    → limit ≡ ok query.limit
chain_lem (ok l) (ok o) query h = ap (λ (q : PageQuery). ok q.limit) (query_inj h)
chain_lem (ok l) (err e) query h = absurd (no_query h)
chain_lem (err e) offset query h = absurd (no_query h)

limit_lem :
    (atoi : String → Parsed) (get : String → String) (query : PageQuery)
    → page_query_from_request atoi get ≡ ok query
    → (1 ≤ query.limit) × (query.limit ≤ max_page_limit)
unfolding page_query_from_request page_limit
limit_lem atoi get query h =
    let raw = trim_space (get "limit") in
    let given : page_limit atoi raw ≡ ok query.limit =
      chain_lem (page_limit atoi raw) (page_offset atoi (trim_space (get "offset"))) query h in
    elim (Bool-cases (raw == "")) [
      | inl e ↦ let k = ok_inj (rw e at given) in omega (arith, k)
      | inr e ↦ positive_lem (atoi raw) query.limit (rw e at given)
    ]

module _ {ℓ} {A : Type ℓ} where
  take-all : (k : ℕ) (xs : List A) → length xs ≤ k → take k xs ≡ xs
  unfolding take
  take-all zero [] h = refl
  take-all zero (x ∷ xs) h = absurd (none_left h)
    where
      none_left : suc (length xs) ≤ 0 → ⊥
      none_left h = omega arith
  take-all (suc k) [] h = refl
  take-all (suc k) (x ∷ xs) h = ap (λ ys. x ∷ ys) (take-all k xs (omega arith))

  take-drop : (k : ℕ) (xs : List A) → take k xs ++ drop k xs ≡ xs
  unfolding take drop
  take-drop zero xs = refl
  take-drop (suc k) [] = refl
  take-drop (suc k) (x ∷ xs) = ap (λ ys. x ∷ ys) (take-drop k xs)

  drop-nil : (n : ℕ) → drop {A = A} n [] ≡ []
  unfolding drop
  drop-nil zero = refl
  drop-nil (suc n) = refl

  drop-drop : (o k : ℕ) (xs : List A) → drop k (drop o xs) ≡ drop (o + k) xs
  unfolding drop
  drop-drop zero k xs = rw (zero_plus k) refl
    where
      zero_plus : (k : ℕ) → 0 + k ≡ k
      zero_plus k = omega arith
  drop-drop (suc o) k [] = drop-nil k ∙ sym (drop-nil (suc o + k))
  drop-drop (suc o) k (x ∷ xs) = rw (suc_plus o k) (drop-drop o k xs)
    where
      suc_plus : (o k : ℕ) → suc o + k ≡ suc (o + k)
      suc_plus o k = omega arith

  length-drop : (o : ℕ) (xs : List A) → length (drop o xs) ≡ length xs - o
  unfolding drop
  length-drop zero xs = omega arith
  length-drop (suc o) [] = omega arith
  length-drop (suc o) (x ∷ xs) = omega (arith, length-drop o xs)

  drop-all : (o : ℕ) (xs : List A) → length xs ≤ o → drop o xs ≡ []
  unfolding drop
  drop-all zero [] h = refl
  drop-all zero (x ∷ xs) h = absurd (none_left h)
    where
      none_left : suc (length xs) ≤ 0 → ⊥
      none_left h = omega arith
  drop-all (suc o) [] h = refl
  drop-all (suc o) (x ∷ xs) h = drop-all o xs (omega arith)

  take-nil : (n : ℕ) → take {A = A} n [] ≡ []
  unfolding take
  take-nil zero = refl
  take-nil (suc n) = refl

  take-least : (k n : ℕ) (xs : List A) → length xs ≤ n → n ≤ k → take n xs ≡ take k xs
  take-least k n xs h le = take-all n xs h ∙ sym (take-all k xs (omega arith))

  -- A page is what the offset and the limit say, past the end of the list too.
  page_lem :
      (xs : List A) (offset limit : ℕ)
      → length xs + limit ≤ max_int
      → page xs offset limit ≡ some (take limit (drop offset xs))
  unfolding page paginate_range slice add_int range_end
  page_lem xs offset limit bound = elim (Bool-cases (leb (length xs) offset)) [
    | inl past ↦
        rw (past, no_distance (length xs), drop-all offset xs (ground arith), take-nil limit) refl
    | inr before ↦
        let fits : leb (offset + limit) max_int ≡ true = ground arith in
        elim (Bool-cases (ltb (length xs) (offset + limit))) [
          | inl beyond ↦
              rw (before, fits, beyond)
                (ap some (
                  take-least limit (length xs - offset) (drop offset xs)
                    (let l = length-drop offset xs in omega (arith, l)) (ground arith)))
          | inr within ↦ rw (before, fits, within, distance offset limit) refl
        ]
  ]
    where
      distance : (o l : ℕ) → (o + l) - o ≡ l
      distance o l = omega arith

  abbrev pub both : Option (List A) → Option (List A) → Option (List A)
  both none rest = none
  both (some first) none = none
  both (some first) (some rest) = some (first ++ rest)

  -- `n` pages, each where the one before it ends.
  abbrev pub pages : ℕ → List A → ℕ → ℕ → Option (List A)
  pages zero xs offset limit = some []
  pages (suc n) xs offset limit = both (page xs offset limit) (pages n xs (offset + limit) limit)

  pages_lem :
      (n : ℕ) (xs : List A) (offset limit : ℕ)
      → 1 ≤ limit
      → length xs + limit ≤ max_int
      → length xs ≤ offset + n
      → pages n xs offset limit ≡ some (drop offset xs)
  pages_lem zero xs offset limit least bound enough = rw (drop-all offset xs (omega arith)) refl
  pages_lem (suc n) xs offset limit least bound enough =
      rw
        (
          page_lem xs offset limit bound,
          pages_lem n xs (offset + limit) limit least bound (omega arith),
          ← drop-drop offset limit xs,
        )
        (ap some (take-drop limit (drop offset xs)))

-- A page query that is accepted has a limit from 1 to 500; and for a list whose length leaves the
-- limit room below the largest `int`, the pages of that limit, one after the other from the start,
-- are cut without a panic and make up the list.
pub pages_cover {ℓ} :
    {A : Type ℓ} (atoi : String → Parsed) (get : String → String) (query : PageQuery) (xs : List A)
    → page_query_from_request atoi get ≡ ok query
    → length xs + max_page_limit ≤ max_int
    → (1 ≤ query.limit)
      × (query.limit ≤ max_page_limit)
      × (pages (length xs) xs 0 query.limit ≡ some xs)
unfolding drop
pages_cover atoi get query xs accepted bound =
    let (least, most) = limit_lem atoi get query accepted in
    (least, most, pages_lem (length xs) xs 0 query.limit least (omega arith) (omega arith))
