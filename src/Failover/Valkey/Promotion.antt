-- ===== src/Failover/Valkey/Promotion.antt =====
-- internal/controllers/actionrequest_controller.go: what a promotion does to the topology.
use servicer.Prelude.{
  ok, ℕ, suc, ◌+◌, String, true, ◌&&◌, not, List, [], ◌∷◌, ◌++◌, map, ◌==◌, ◌≡◌, ◌≢◌, ◌↔◌,
  if◌then◌else◌, arith, eq_iff, Bool-cases, inl, inr, ◌∙◌,
}
use servicer.Prelude.{ltb, eqb}
use servicer.Api.{CacheStandbyStatus, CacheTopology}
use servicer.Failover.Valkey.{
  failover_mode, standby_ready, apply_valkey_failover_preflight, replaced_primary,
  replace_candidate, found_previous_primary, promote_valkey_primary,
}

abbrev pub names : List CacheStandbyStatus → List String
names = map (λ (s : CacheStandbyStatus). s.cluster_name)

abbrev pub count : String → List String → ℕ
count name [] = 0
count name (x ∷ xs) = if x == name then suc (count name xs) else count name xs

count-append : (n : String) (xs ys : List String) → count n (xs ++ ys) ≡ count n xs + count n ys
count-append n [] ys = omega arith
count-append n (x ∷ xs) ys = ground (arith, count-append n xs ys)

-- A ready first entry of the name, as the loop finds it.
abbrev pub Ready : String → List CacheStandbyStatus → Type 0
Ready name [] = ⊥
Ready name (s ∷ ss) = if s.cluster_name == name then s.ready ≡ true else Ready name ss

-- The preflight lets a promotion through exactly when the topology spans clusters, its primary is
-- known and is not the candidate, and the first standby of the candidate's name is ready.
pub preflight_iff :
    (t : CacheTopology) (candidate : String)
    → (apply_valkey_failover_preflight t candidate ≡ ok tt) ↔ (
        (t.mode ≡ failover_mode)
        × (t.primary_cluster ≢ "")
        × (candidate ≢ t.primary_cluster)
        × Ready candidate t.standby_clusters)
unfolding apply_valkey_failover_preflight
preflight_iff t candidate = ground (
  arith,
  ready t.standby_clusters,
  eq_iff t.mode failover_mode,
  eq_iff t.primary_cluster "",
  eq_iff candidate t.primary_cluster,
)
  where
    ready :
        (ss : List CacheStandbyStatus) → (standby_ready candidate ss ≡ ok tt) ↔ Ready candidate ss
    ready [] = ((λ h. cc), (λ h. absurd h))
    ready (s ∷ ss) = elim (Bool-cases (s.cluster_name == candidate)) [
      | inl e ↦ rw e (ground arith)
      | inr e ↦ rw e (ready ss)
    ]

module _ (candidate previous : String) (differ : candidate ≢ previous) where
  -- Every entry of the candidate is one of the previous primary now, and no other entry changes.
  count-replace_candidate :
      (n : String) (ss : List CacheStandbyStatus)
      → count n (names (replace_candidate candidate previous ss)) ≡ (
          if n == candidate
          then 0
          else if n == previous
          then count previous (names ss) + count candidate (names ss)
          else count n (names ss))
  unfolding replace_candidate replaced_primary
  count-replace_candidate n [] = ground arith
  count-replace_candidate n (s ∷ ss) = elim (Bool-cases (s.cluster_name == candidate)) [
    | inl e ↦ rw e (
        ground (
          arith,
          count-replace_candidate n ss,
          eq_iff s.cluster_name candidate,
          eq_iff s.cluster_name previous,
          eq_iff s.cluster_name n,
          eq_iff previous n,
          eq_iff n previous,
          eq_iff n candidate,
        ))
    | inr e ↦ rw e (
        ground (
          arith,
          count-replace_candidate n ss,
          eq_iff s.cluster_name candidate,
          eq_iff s.cluster_name previous,
          eq_iff s.cluster_name n,
          eq_iff previous n,
          eq_iff n previous,
          eq_iff n candidate,
        ))
  ]

  found_lem :
      (ss : List CacheStandbyStatus)
      → found_previous_primary candidate previous ss ≡ ltb 0 (count previous (names ss))
  unfolding found_previous_primary
  found_lem [] = ground arith
  found_lem (s ∷ ss) =
      ground (arith, found_lem ss, eq_iff s.cluster_name candidate, eq_iff s.cluster_name previous)

count-names-snoc :
    (n previous : String) (ss : List CacheStandbyStatus)
    → count n (names (ss ++ replaced_primary previous ∷ []))
      ≡ count n (names ss) + (if previous == n then 1 else 0)
unfolding replaced_primary
count-names-snoc n previous [] = ground arith
count-names-snoc n previous (s ∷ ss) = ground (arith, count-names-snoc n previous ss)

-- How often each cluster stands among the standbys after a promotion: the candidate not at all, the
-- previous primary in place of each entry of the candidate and once more if it is named and was no
-- standby before, and every other cluster as often as before.
pub count-promote :
    (t : CacheTopology) (candidate n : String)
    → candidate ≢ t.primary_cluster
    → let old = names t.standby_clusters in
      let previous = t.primary_cluster in
      count n (names (promote_valkey_primary t candidate).standby_clusters) ≡ (
        if n == candidate
        then 0
        else if n == previous
        then count previous old
          + count candidate old
          + (if eqb (count previous old) 0 && not (previous == "") then 1 else 0)
        else count n old)
unfolding promote_valkey_primary
count-promote t candidate n differ =
    let previous = t.primary_cluster in
    let replaced = replace_candidate candidate previous t.standby_clusters in
    let facts : (eqb (count previous (names t.standby_clusters)) 0 && not (previous == "")) ≡ (
        not (found_previous_primary candidate previous t.standby_clusters)
        && not (previous == "")) =
      ground (arith, found_lem candidate previous differ t.standby_clusters) in
    elim (Bool-cases (
      not (found_previous_primary candidate previous t.standby_clusters) && not (previous == ""))) [
        | inl e ↦
            rw (e, facts ∙ e)
              (ground (
                arith,
                count-names-snoc n previous replaced,
                count-replace_candidate candidate previous differ n t.standby_clusters,
                eq_iff n candidate,
                eq_iff n previous,
                eq_iff previous n,
              ))
        | inr e ↦
            rw (e, facts ∙ e)
              (ground (
                arith,
                count-replace_candidate candidate previous differ n t.standby_clusters,
                eq_iff n candidate,
                eq_iff n previous,
                eq_iff previous n,
              ))
      ]
