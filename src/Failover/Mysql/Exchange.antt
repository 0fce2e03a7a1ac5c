-- ===== src/Failover/Mysql/Exchange.antt =====
-- internal/controllers/actionrequest_controller.go: the parameters that a failover of MySQL, or its
-- rollback, makes of valid ones.
use servicer.Prelude.{
  String, true, false, List, [], ◌∷◌, ◌++◌, ◌==◌, ◌≡◌, refl, ap, arith, eq_iff, eq_refl, contains,
  Distinct, Distinct-snoc, trim_space, Bool-cases, inl, inr, any-append,
}
use servicer.Failover.Mysql.{Parameters, remove_string, unique_from, unique_strings, exchange}

-- A cluster's name as it is meant to be written: something, with no space around it.
abbrev pub Trimmed : String → Type 0
Trimmed s = (trim_space s ≡ s) × ((s == "") ≡ false)

abbrev pub AllTrimmed : List String → Type 0
AllTrimmed [] = Unit
AllTrimmed (x ∷ xs) = Trimmed x × AllTrimmed xs

-- The primary and its standbys: all trimmed, the standbys distinct, and the primary none of them.
pub record IsValid (params : Parameters) : Type 0 where
  pub mode : trim_space params.replication_mode ≡ "active-passive"
  pub primary : Trimmed params.primary_cluster
  pub standbys : AllTrimmed params.standby_clusters
  pub distinct : Distinct params.standby_clusters
  pub apart : contains params.primary_cluster params.standby_clusters ≡ false

AllTrimmed-snoc :
    (xs : List String) (s : String) → AllTrimmed xs → Trimmed s → AllTrimmed (xs ++ s ∷ [])
AllTrimmed-snoc [] s h t = (t, tt)
AllTrimmed-snoc (x ∷ xs) s (h, hs) t = (h, AllTrimmed-snoc xs s hs t)

AllTrimmed-remove :
    (t : String) (xs : List String) → AllTrimmed xs → AllTrimmed (remove_string t xs)
unfolding remove_string
AllTrimmed-remove t [] h = tt
AllTrimmed-remove t (x ∷ xs) (h, hs) = elim (Bool-cases (x == t)) [
  | inl e ↦ rw e (AllTrimmed-remove t xs hs)
  | inr e ↦ rw e (h, AllTrimmed-remove t xs hs)
]

pub contains-remove :
    (s t : String) (xs : List String)
    → contains s xs ≡ false
    → contains s (remove_string t xs) ≡ false
unfolding remove_string
contains-remove s t [] h = refl
contains-remove s t (x ∷ xs) h = ground (arith, contains-remove s t xs)

pub contains-remove_self : (t : String) (xs : List String) → contains t (remove_string t xs) ≡ false
unfolding remove_string
contains-remove_self t [] = refl
contains-remove_self t (x ∷ xs) = ground (arith, contains-remove_self t xs)

Distinct-remove : (t : String) (xs : List String) → Distinct xs → Distinct (remove_string t xs)
unfolding remove_string
Distinct-remove t [] d = tt
Distinct-remove t (x ∷ xs) (n, d) = elim (Bool-cases (x == t)) [
  | inl e ↦ rw e (Distinct-remove t xs d)
  | inr e ↦ rw e (contains-remove x t xs n, Distinct-remove t xs d)
]

-- Nothing of `xs` is in `seen`.
abbrev Apart : List String → List String → Type 0
Apart seen [] = Unit
Apart seen (x ∷ xs) = (contains x seen ≡ false) × Apart seen xs

Apart-nil : (xs : List String) → Apart [] xs
Apart-nil [] = tt
Apart-nil (x ∷ xs) = (refl, Apart-nil xs)

Apart-cons :
    (s : String) (seen xs : List String)
    → Apart seen xs
    → contains s xs ≡ false
    → Apart (s ∷ seen) xs
Apart-cons s seen [] a h = tt
Apart-cons s seen (x ∷ xs) (n, a) h =
    (ground (arith, eq_iff s x, eq_iff x s), Apart-cons s seen xs a (ground arith))

unique_from-id :
    (seen xs : List String) → AllTrimmed xs → Distinct xs → Apart seen xs → unique_from seen xs ≡ xs
unfolding unique_from
unique_from-id seen [] t d a = refl
unique_from-id seen (x ∷ xs) ((t, n), ts) (f, d) (g, a) =
    rw (t, n, g) (ap (λ ys. x ∷ ys) (unique_from-id (x ∷ seen) xs ts d (Apart-cons x seen xs a f)))

-- On valid names `unique_strings` drops nothing.
unique_strings-id : (xs : List String) → AllTrimmed xs → Distinct xs → unique_strings xs ≡ xs
unfolding unique_strings
unique_strings-id xs t d = unique_from-id [] xs t d (Apart-nil xs)

pub remove-absent :
    (t : String) (xs : List String) → contains t xs ≡ false → remove_string t xs ≡ xs
unfolding remove_string
remove-absent t [] h = refl
remove-absent t (x ∷ xs) h = ground (arith, remove-absent t xs)

pub remove-snoc_self :
    (t : String) (xs : List String) → remove_string t (xs ++ t ∷ []) ≡ remove_string t xs
unfolding remove_string
remove-snoc_self t [] = rw (eq_refl t) refl
remove-snoc_self t (x ∷ xs) = ground (arith, remove-snoc_self t xs)

mem-Trimmed : (t : String) (xs : List String) → AllTrimmed xs → contains t xs ≡ true → Trimmed t
mem-Trimmed t [] h m = cc
mem-Trimmed t (x ∷ xs) (h, hs) m = elim (Bool-cases (x == t)) [
  | inl e ↦ rw (← (eq_iff x t).0 e) h
  | inr e ↦ mem-Trimmed t xs hs (ground arith)
]

module _ (params : Parameters) (valid : IsValid params) (target : String)
    (there : contains target params.standby_clusters ≡ true) where
  primary-other : (params.primary_cluster == target) ≡ false
  primary-other = let apart = valid.apart in ground (arith, eq_iff params.primary_cluster target)

  Trimmed-target : Trimmed target
  Trimmed-target = mem-Trimmed target params.standby_clusters valid.standbys there

  standbys-apart :
      contains params.primary_cluster (remove_string target params.standby_clusters) ≡ false
  standbys-apart = contains-remove params.primary_cluster target params.standby_clusters valid.apart

  standbys-AllTrimmed :
      AllTrimmed (remove_string target params.standby_clusters ++ params.primary_cluster ∷ [])
  standbys-AllTrimmed =
      AllTrimmed-snoc _ _ (AllTrimmed-remove target params.standby_clusters valid.standbys)
        valid.primary

  standbys-Distinct :
      Distinct (remove_string target params.standby_clusters ++ params.primary_cluster ∷ [])
  standbys-Distinct =
      Distinct-snoc _ _ (Distinct-remove target params.standby_clusters valid.distinct)
        standbys-apart

  -- The old primary is added at the end of the standbys, and nothing else changes there.
  pub standby_clusters-exchange :
      (exchange target params.primary_cluster params).standby_clusters
      ≡ remove_string target params.standby_clusters ++ params.primary_cluster ∷ []
  unfolding exchange
  standby_clusters-exchange = unique_strings-id _ standbys-AllTrimmed standbys-Distinct

  pub exchange-IsValid : IsValid (exchange target params.primary_cluster params)
  unfolding exchange
  exchange-IsValid = record {
    mode = valid.mode;
    primary = Trimmed-target;
    standbys = rw standby_clusters-exchange standbys-AllTrimmed;
    distinct = rw standby_clusters-exchange standbys-Distinct;
    apart =
        rw
          (
            standby_clusters-exchange,
            any-append (λ x. x == target) (remove_string target params.standby_clusters)
                (params.primary_cluster ∷ []),
            contains-remove_self target params.standby_clusters,
            primary-other,
          )
          refl;
  }
