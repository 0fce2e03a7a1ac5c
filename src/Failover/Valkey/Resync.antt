-- ===== src/Failover/Valkey/Resync.antt =====
-- internal/controllers/actionrequest_controller.go: what a request to resynchronise a standby leaves.
use servicer.Prelude.{
  ok, err, String, true, List, [], ◌∷◌, none, some, ◌==◌, ◌≡◌, refl, arith, Bool-cases,
  Option-cases, inl, inr,
}
use servicer.Api.{CacheStandbyStatus, CacheTopology}
use servicer.Failover.{Error, Result, not_ready}
use servicer.Failover.Valkey.{
  failover_mode, standby_ready, resync_standbys, mark_valkey_standby_resync_requested,
  valkey_standby_already_resyncing, resync,
}

resyncing_not_ready :
    (name : String) (ss : List CacheStandbyStatus)
    → valkey_standby_already_resyncing name ss ≡ true
    → standby_ready name ss ≡ err not_ready
unfolding valkey_standby_already_resyncing standby_ready
resyncing_not_ready name [] h = cc
resyncing_not_ready name (s ∷ ss) h = elim (Bool-cases (s.cluster_name == name)) [
  | inl e ↦ ground arith
  | inr e ↦ rw e (resyncing_not_ready name ss (rw e at h))
]

some_inj {ℓ} : {A : Type ℓ} {a b : A} → some a ≡ some b → a ≡ b
some_inj h = cc

none≢some {ℓ} : {A : Type ℓ} {a : A} → none ≡ some a → ⊥
none≢some h = cc

resync_standbys-resyncing :
    (name : String) (ss marked : List CacheStandbyStatus)
    → resync_standbys name ss ≡ some marked
    → valkey_standby_already_resyncing name marked ≡ true
unfolding resync_standbys valkey_standby_already_resyncing
resync_standbys-resyncing name [] marked h = absurd (none≢some h)
resync_standbys-resyncing name (s ∷ ss) marked h = elim (Bool-cases (s.cluster_name == name)) [
  | inl e ↦ rw (← some_inj (rw e at h), e) refl
  | inr e ↦ elim (Option-cases (resync_standbys name ss)) [
    | inl n ↦ absurd (none≢some (rw (e, n) at h))
    | inr (rest, n) ↦ rw (← some_inj (rw (e, n) at h), e) (resync_standbys-resyncing name ss rest n)
  ]
]

ok_inj : {a b : CacheTopology} → ◌≡◌ {A = Result CacheTopology} (ok a) (ok b) → a ≡ b
ok_inj h = cc

err≢ok : {e : Error} {b : CacheTopology} → ◌≡◌ {A = Result CacheTopology} (err e) (ok b) → ⊥
err≢ok h = cc

mark-resyncing :
    (t : CacheTopology) (name : String) {t' : CacheTopology}
    → mark_valkey_standby_resync_requested t name ≡ ok t'
    → valkey_standby_already_resyncing name t'.standby_clusters ≡ true
unfolding mark_valkey_standby_resync_requested
mark-resyncing t name h = elim (Bool-cases (t.mode == failover_mode)) [
  | inr m ↦ absurd (err≢ok (rw m at h))
  | inl m ↦ elim (Bool-cases (name == t.primary_cluster)) [
    | inl p ↦ absurd (err≢ok (rw (m, p) at h))
    | inr p ↦ elim (Option-cases (resync_standbys name t.standby_clusters)) [
      | inl n ↦ absurd (err≢ok (rw (m, p, n) at h))
      | inr (marked, n) ↦
          rw (← ok_inj (rw (m, p, n) at h))
            (resync_standbys-resyncing name t.standby_clusters marked n)
    ]
  ]
]

-- After a resynchronisation that succeeds, the standby is not ready to be promoted, and the same
-- request once more succeeds and changes nothing.
pub resync_settles :
    (t : CacheTopology) (name : String) {t' : CacheTopology}
    → resync name t ≡ ok t'
    → (standby_ready name t'.standby_clusters ≡ err not_ready) × (resync name t' ≡ ok t')
unfolding resync
resync_settles t name {t'} h =
    (resyncing_not_ready name t'.standby_clusters settled, rw settled refl)
  where
    settled : valkey_standby_already_resyncing name t'.standby_clusters ≡ true
    settled = elim (Bool-cases (valkey_standby_already_resyncing name t.standby_clusters)) [
      | inl e ↦ rw (← ok_inj (rw e at h)) e
      | inr e ↦ mark-resyncing t name (rw e at h)
    ]
