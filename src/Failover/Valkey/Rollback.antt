-- ===== src/Failover/Valkey/Rollback.antt =====
-- internal/controllers/actionrequest_controller.go, `promoteValkeyPrimary` and its callers: what is
-- listed after a failover, and whether it can be undone.
use servicer.Prelude.{
  ok, err, ◌+◌, String, ◌&&◌, not, List, [], ◌∷◌, ◌++◌, ◌==◌, ◌≡◌, ◌≢◌, refl, sym, trim_space,
  arith, ap, eq_iff, eq_refl, eq_false_iff, Bool-cases, inl, inr, ◌∙◌, ◌≤◌,
}
use mathlib.Core.List.{append-nil}
use servicer.Failover.Valkey.Promotion.{names, count, Ready, preflight_iff, count-promote}
use servicer.Api.{CacheStandbyStatus, CacheTopology}
use servicer.Failover.{not_ready}
use servicer.Failover.Valkey.{
  failover_mode, standby_ready, apply_valkey_failover_preflight, replaced_primary,
  replace_candidate, found_previous_primary, promote_valkey_primary, promote,
}

pub promote_inversion :
    (t : CacheTopology) (candidate : String) {t' : CacheTopology}
    → trim_space t.primary_cluster ≢ candidate
    → promote candidate t ≡ ok t'
    → (apply_valkey_failover_preflight t candidate ≡ ok tt)
      × (promote_valkey_primary t candidate ≡ t')
unfolding promote
promote_inversion t candidate other h =
    ground (arith, eq_iff (trim_space t.primary_cluster) candidate)

count_of_Ready :
    (name : String) (ss : List CacheStandbyStatus) → Ready name ss → 1 ≤ count name (names ss)
count_of_Ready name [] h = absurd h
count_of_Ready name (s ∷ ss) h = ground (arith, count_of_Ready name ss)

primary-promote :
    (t : CacheTopology) (candidate : String)
    → (promote_valkey_primary t candidate).primary_cluster ≡ candidate
unfolding promote_valkey_primary
primary-promote t candidate = refl

-- A promotion that succeeds makes the candidate the primary, takes it out of the standbys, and
-- lists a primary that was no standby before once more than the candidate stood there: at least
-- twice.
pub promote_lists_previous_twice :
    (t : CacheTopology) (candidate : String) {t' : CacheTopology}
    → trim_space t.primary_cluster ≢ candidate
    → promote candidate t ≡ ok t'
    → count t.primary_cluster (names t.standby_clusters) ≡ 0
    → (t'.primary_cluster ≡ candidate)
      × (count candidate (names t'.standby_clusters) ≡ 0)
      × (count t.primary_cluster (names t'.standby_clusters)
          ≡ count candidate (names t.standby_clusters) + 1)
      × (2 ≤ count t.primary_cluster (names t'.standby_clusters))
promote_lists_previous_twice t candidate other h absent =
    let (passed, made) = promote_inversion t candidate other h in
    let (mode, known, differ, ready) = (preflight_iff t candidate).0 passed in
    rw (← made) (
      ground (
        arith,
        primary-promote t candidate,
        count-promote t candidate candidate differ,
        count-promote t candidate t.primary_cluster differ,
        count_of_Ready candidate t.standby_clusters ready,
        eq_refl candidate,
        eq_refl t.primary_cluster,
        eq_iff t.primary_cluster candidate,
        eq_iff t.primary_cluster "",
      ))

module _ (candidate previous : String) where
  replaced_not_ready :
      (ss rest : List CacheStandbyStatus)
      → count previous (names ss) ≡ 0
      → Ready candidate ss
      → standby_ready previous (replace_candidate candidate previous ss ++ rest) ≡ err not_ready
  unfolding replace_candidate replaced_primary standby_ready
  replaced_not_ready [] rest absent ready = absurd ready
  replaced_not_ready (s ∷ ss) rest absent ready = elim (Bool-cases (s.cluster_name == candidate)) [
    | inl e ↦ rw (e, eq_refl previous) refl
    | inr e ↦ rw e (ground (arith, replaced_not_ready ss rest))
  ]

standbys-promote :
    (t : CacheTopology) (candidate : String)
    → (rest : List CacheStandbyStatus) × ((promote_valkey_primary t candidate).standby_clusters
        ≡ replace_candidate candidate t.primary_cluster t.standby_clusters ++ rest)
unfolding promote_valkey_primary
standbys-promote t candidate =
    elim (Bool-cases (
      not (found_previous_primary candidate t.primary_cluster t.standby_clusters)
      && not (t.primary_cluster == ""))) [
        | inl e ↦ (replaced_primary t.primary_cluster ∷ [], rw e)
        | inr e ↦ ([], rw e (sym (append-nil _)))
      ]

mode-promote :
    (t : CacheTopology) (candidate : String) → (promote_valkey_primary t candidate).mode ≡ t.mode
unfolding promote_valkey_primary
mode-promote t candidate = refl

preflight_not_ready :
    (t : CacheTopology) (candidate : String)
    → t.mode ≡ failover_mode
    → t.primary_cluster ≢ ""
    → candidate ≢ t.primary_cluster
    → standby_ready candidate t.standby_clusters ≡ err not_ready
    → apply_valkey_failover_preflight t candidate ≡ err not_ready
unfolding apply_valkey_failover_preflight
preflight_not_ready t candidate mode known differ h = ground (
  arith,
  eq_iff t.mode failover_mode,
  eq_iff t.primary_cluster "",
  eq_iff candidate t.primary_cluster,
)

promote_not_ready :
    (t : CacheTopology) (candidate : String)
    → trim_space t.primary_cluster ≢ candidate
    → apply_valkey_failover_preflight t candidate ≡ err not_ready
    → promote candidate t ≡ err not_ready
unfolding promote
promote_not_ready t candidate other h =
    rw ((eq_false_iff (trim_space t.primary_cluster) candidate).1 other, h) refl

-- A promotion that succeeds cannot be undone at once: where the previous primary was no standby, its
-- promotion is refused as not ready. The candidate's name is trimmed, as the callers make it, and not
-- empty.
pub promote_back_not_ready :
    (t : CacheTopology) (candidate : String) {t' : CacheTopology}
    → candidate ≢ ""
    → trim_space candidate ≡ candidate
    → trim_space t.primary_cluster ≢ candidate
    → promote candidate t ≡ ok t'
    → count t.primary_cluster (names t.standby_clusters) ≡ 0
    → promote t.primary_cluster t' ≡ err not_ready
promote_back_not_ready t candidate named trimmed other h absent =
    let (passed, made) = promote_inversion t candidate other h in
    let (mode, known, differ, ready) = (preflight_iff t candidate).0 passed in
    rw (← made) (back mode known differ ready)
  where
    back :
        t.mode ≡ failover_mode
        → t.primary_cluster ≢ ""
        → candidate ≢ t.primary_cluster
        → Ready candidate t.standby_clusters
        → promote t.primary_cluster (promote_valkey_primary t candidate) ≡ err not_ready
    back mode known differ ready =
        let (rest, e) = standbys-promote t candidate in
        let primary = primary-promote t candidate in
        promote_not_ready (promote_valkey_primary t candidate) t.primary_cluster
          (λ f. differ (sym trimmed ∙ ap trim_space (sym primary) ∙ f))
          (preflight_not_ready (promote_valkey_primary t candidate) t.primary_cluster
            (mode-promote t candidate ∙ mode) (λ f. named (sym primary ∙ f))
            (λ f. differ (sym primary ∙ sym f))
            (rw e (
              replaced_not_ready candidate t.primary_cluster t.standby_clusters rest absent ready)))
