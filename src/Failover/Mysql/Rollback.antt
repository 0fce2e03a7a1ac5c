-- ===== src/Failover/Mysql/Rollback.antt =====
-- internal/controllers/actionrequest_controller.go, `failoverMySQLPrimary` and
-- `rollbackMySQLPrimary`: every branch of a failover, and that a rollback undoes it.
use servicer.Prelude.{
  ok, err, String, Bool, true, false, [], ◌∷◌, ◌++◌, Option, none, some, ◌==◌, ◌≡◌, refl, ◌∙◌, ap,
  arith, eq_iff, eq_refl, contains, trim_space, if◌then◌else◌, Bool-cases, inl, inr, any-append,
}
use servicer.Json.{Json}
use servicer.Api.{ServiceInstance, CacheTopology}
use servicer.Failover.Valkey.{rollback_target}
use servicer.Failover.{not_configured_standby, failover_candidate}
use servicer.Failover.Mysql.{
  Parameters, Codec, already, persisted, remove_string, current_primary, exchange, persist,
  failover_to, failover_mysql_primary, rollback_to, rollback_mysql_primary, requested_target,
  or_empty, is_active_passive,
}
use servicer.Failover.Mysql.Exchange.{
  IsValid, exchange-IsValid, standby_clusters-exchange, remove-absent, remove-snoc_self,
  contains-remove,
}

abbrev pub with_parameters : Codec → Parameters → ServiceInstance → ServiceInstance
with_parameters codec params x = record x { parameters = some (codec.encode params) }

-- A rollback without parameters, or one whose parameters give `old` for the target.
abbrev pub AsksFor : String → CacheTopology → Option Json → Type 0
AsksFor old t none = Unit
AsksFor old t (some parameters) = rollback_target (some parameters) t ≡ ok old

-- The parameters after `target` took the primary's place.
abbrev pub promoted : String → Parameters → Parameters
promoted target params = record params {
  previous_primary_cluster = params.primary_cluster;
  primary_cluster = target;
  standby_clusters = remove_string target params.standby_clusters ++ params.primary_cluster ∷ [];
}

module _ (codec : Codec) (x : ServiceInstance) (params : Parameters)
    (read : codec.decode x.parameters ≡ ok params) (valid : IsValid params) where
  primary_lem : current_primary x params ≡ params.primary_cluster
  unfolding current_primary
  primary_lem = let (t, e) = valid.primary in rw e refl

  failover_reduces :
      (accepted : Bool) (parameters : Option Json) (candidate : String)
      → failover_candidate parameters ≡ ok candidate
      → failover_mysql_primary codec accepted parameters x
        ≡ failover_to codec accepted candidate params x
  unfolding failover_mysql_primary is_active_passive
  failover_reduces accepted parameters candidate h = rw (read, valid.mode, h) refl

  exchange_lem :
      (target : String)
      → contains target params.standby_clusters ≡ true
      → exchange target params.primary_cluster params ≡ promoted target params
  unfolding exchange
  exchange_lem target there =
      ap (λ standbys. record (promoted target params) { standby_clusters = standbys })
        (standby_clusters-exchange params valid target there)

  -- On valid parameters that the instance stores, a failover to the primary itself changes nothing,
  -- one to a cluster that is no standby is refused, and one to a standby stores the parameters in
  -- which that standby is the primary and the old primary the last standby, the others in order.
  pub failover_branches :
      (parameters : Option Json) (candidate : String)
      → failover_candidate parameters ≡ ok candidate
      → failover_mysql_primary codec true parameters x ≡ (
          if candidate == params.primary_cluster
          then ok (already, x)
          else if contains candidate params.standby_clusters
          then ok (
            persisted (promoted candidate params),
            with_parameters codec (promoted candidate params) x,
          )
          else err not_configured_standby)
  unfolding failover_to persist
  failover_branches parameters candidate h =
      let (t, e) = valid.primary in
      elim (Bool-cases (contains candidate params.standby_clusters)) [
        | inl c ↦
            rw
              (
                failover_reduces true parameters candidate h,
                t,
                primary_lem,
                exchange_lem candidate c,
                c,
              )
              (ground (
                arith,
                eq_iff params.primary_cluster candidate,
                eq_iff candidate params.primary_cluster,
              ))
        | inr c ↦
            rw (failover_reduces true parameters candidate h, t, c)
              (ground (
                arith,
                eq_iff params.primary_cluster candidate,
                eq_iff candidate params.primary_cluster,
              ))
      ]

  pub promoted-IsValid :
      (target : String)
      → contains target params.standby_clusters ≡ true
      → IsValid (promoted target params)
  promoted-IsValid target there =
      rw (← exchange_lem target there) (exchange-IsValid params valid target there)

  -- The old primary is one of the standbys now, and the only one of them that was not.
  old_primary_there :
      (target : String)
      → contains params.primary_cluster (promoted target params).standby_clusters ≡ true
  old_primary_there target =
      rw
        (
          any-append (λ s. s == params.primary_cluster)
              (remove_string target params.standby_clusters) (params.primary_cluster ∷ []),
          eq_refl params.primary_cluster,
        )
        (ground arith)

  remove_old_primary :
      (target : String)
      → remove_string params.primary_cluster (promoted target params).standby_clusters
        ≡ remove_string target params.standby_clusters
  remove_old_primary target =
      remove-snoc_self params.primary_cluster (remove_string target params.standby_clusters)
      ∙ remove-absent params.primary_cluster (remove_string target params.standby_clusters)
          (contains-remove params.primary_cluster target params.standby_clusters valid.apart)

module _ (codec : Codec) (params : Parameters) (valid : IsValid params) where
  rollback_reduces :
      (y : ServiceInstance) (old : String)
      → codec.decode y.parameters ≡ ok params
      → params.previous_primary_cluster ≡ old
      → trim_space old ≡ old
      → (asked : Option Json) → AsksFor old y.topology asked
      → rollback_mysql_primary codec true asked y ≡ rollback_to codec true old params y
  unfolding rollback_mysql_primary is_active_passive requested_target or_empty
  rollback_reduces y old read previous trimmed none asks =
      rw (read, valid.mode, previous, trimmed) refl
  rollback_reduces y old read previous trimmed (some parameters) asks =
      rw (read, valid.mode, asks) refl

  rollback_persists :
      (y : ServiceInstance) (old : String)
      → codec.decode y.parameters ≡ ok params
      → (old == "") ≡ false
      → (old == params.primary_cluster) ≡ false
      → contains old params.standby_clusters ≡ true
      → rollback_to codec true old params y
        ≡ ok (persisted (promoted old params), with_parameters codec (promoted old params) y)
  unfolding rollback_to persist
  rollback_persists y old read named other there =
      rw
        (
          named,
          primary_lem codec y params read valid,
          other,
          exchange_lem codec y params read valid old there,
        )
        refl

-- Where the codec reads back what it wrote and the API accepts both updates: a failover from valid
-- parameters to a standby, and then a rollback that has no parameters or whose target is the old
-- primary, both succeed and store valid parameters; after the rollback the
-- primary is the one of before, the previous primary is the candidate, and the standbys are those of
-- before with the candidate at the end.
pub rollback-failover :
    (codec : Codec) (x : ServiceInstance) (params : Parameters) (parameters : Option Json)
    (candidate : String) (asked : Option Json)
    → ((p : Parameters) → codec.decode (some (codec.encode p)) ≡ ok p)
    → codec.decode x.parameters ≡ ok params
    → IsValid params
    → failover_candidate parameters ≡ ok candidate
    → contains candidate params.standby_clusters ≡ true
    → AsksFor params.primary_cluster x.topology asked
    → (next back : Parameters) × (y : ServiceInstance) × (failover_mysql_primary codec true
          parameters x
        ≡ ok (persisted next, y))
      × (rollback_mysql_primary codec true asked y
          ≡ ok (persisted back, with_parameters codec back y))
      × IsValid next
      × IsValid back
      × (next.primary_cluster ≡ candidate)
      × (back ≡ record params {
        previous_primary_cluster = candidate;
        standby_clusters = remove_string candidate params.standby_clusters ++ candidate ∷ [];
      })
rollback-failover codec x params parameters candidate asked law read valid h there asks =
    let next = promoted candidate params in
    let back = promoted params.primary_cluster next in
    let y = with_parameters codec next x in
    let next_valid : IsValid next = promoted-IsValid codec x params read valid candidate there in
    let (trimmed, named) = valid.primary in
    let other : (candidate == params.primary_cluster) ≡ false =
      let apart = valid.apart in ground (arith, eq_iff candidate params.primary_cluster) in
    let there' = old_primary_there codec x params read valid candidate in
    (
      next,
      back,
      y,
      failover_branches codec x params read valid parameters candidate h ∙ rw (other, there) refl,
      rollback_reduces codec next next_valid y params.primary_cluster (law next) refl trimmed asked
            asks
          ∙ rollback_persists codec next next_valid y params.primary_cluster (law next) named
              (ground (
                arith,
                eq_iff candidate params.primary_cluster,
                eq_iff params.primary_cluster candidate,
              ))
              there',
      next_valid,
      promoted-IsValid codec y next (law next) next_valid params.primary_cluster there',
      refl,
      ap
          (λ standbys. record params {
            previous_primary_cluster = candidate;
            standby_clusters = standbys ++ candidate ∷ [];
          })
          (remove_old_primary codec x params read valid candidate),
    )
