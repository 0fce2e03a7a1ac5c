-- ===== src/Pagination.antt =====
-- internal/bff/pagination.go: the page that a request asks for, and its part of a list. An `int` has
-- 64 bits: a sum past them is negative, and a slice to a negative end panics, which is `none`.
-- `strconv.Atoi` is a parameter.
pub mod Cover
use servicer.Prelude.{
  ℕ, zero, suc, ◌+◌, ◌-◌, String, Bool, true, false, List, [], ◌∷◌, Option, none, some, ◌==◌, ltb,
  leb, eqb, length, trim_space, if◌then◌else◌, Fallible, ok, err, ◌>>=◌,
}

abbrev pub default_page_limit : ℕ
default_page_limit = 100

abbrev pub max_page_limit : ℕ
max_page_limit = 500

abbrev pub max_int : ℕ
max_int = 0x7fffffffffffffff

-- What `strconv.Atoi` gives.
pub data Parsed : Type 0 where
  no_number negative : Parsed
  natural : ℕ → Parsed

pub data PageError : Type 0 where
  bad_limit bad_offset : PageError

-- The search text is left out.
pub record PageQuery : Type 0 where
  pub limit : ℕ
  pub offset : ℕ

abbrev pub positive : Parsed → Fallible PageError ℕ
positive no_number = err bad_limit
positive negative = err bad_limit
positive (natural n) =
    if eqb n 0 then err bad_limit else ok (if ltb max_page_limit n then max_page_limit else n)

abbrev not_negative : Parsed → Fallible PageError ℕ
not_negative no_number = err bad_offset
not_negative negative = err bad_offset
not_negative (natural n) = ok n

module _ (atoi : String → Parsed) where
  pub page_limit : String → Fallible PageError ℕ
  page_limit raw = if raw == "" then ok default_page_limit else positive (atoi raw)

  pub page_offset : String → Fallible PageError ℕ
  page_offset raw = if raw == "" then ok 0 else not_negative (atoi raw)

  -- `get` is `values.Get`.
  unfoldable pub page_query_from_request : (String → String) → Fallible PageError PageQuery
  unfolding page_limit page_offset
  page_query_from_request get = do
    limit ← page_limit (trim_space (get "limit"))
    offset ← page_offset (trim_space (get "offset"))
    ok (record { limit = limit; offset = offset })

-- The sum of two `int`s that are not negative.
pub add_int : ℕ → ℕ → Option ℕ
add_int a b = if leb (a + b) max_int then some (a + b) else none

pub range_end : ℕ → Option ℕ → Option ℕ
range_end length none = none
range_end length (some end) = if ltb length end then some length else some end

unfoldable pub paginate_range : ℕ → ℕ → ℕ → ℕ × Option ℕ
unfolding add_int range_end
paginate_range length offset limit =
    if leb length offset
    then (length, some length)
    else (offset, range_end length (add_int offset limit))

module _ {ℓ} {A : Type ℓ} where
  pub take : ℕ → List A → List A
  take zero xs = []
  take (suc n) [] = []
  take (suc n) (x ∷ xs) = x ∷ take n xs

  pub drop : ℕ → List A → List A
  drop zero xs = xs
  drop (suc n) [] = []
  drop (suc n) (x ∷ xs) = drop n xs

  pub slice : List A → ℕ × Option ℕ → Option (List A)
  unfolding take drop
  slice xs (start, none) = none
  slice xs (start, some end) = some (take (end - start) (drop start xs))

  -- `items[start:end]`, as the handlers cut a page.
  unfoldable pub page : List A → ℕ → ℕ → Option (List A)
  unfolding slice
  page xs offset limit = slice xs (paginate_range (length xs) offset limit)
