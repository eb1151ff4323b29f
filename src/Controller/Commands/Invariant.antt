-- ===== src/Controller/Commands/Invariant.antt =====
-- What every command keeps: the controllers' metadata stay in order.
use wave_mq.Prelude.{
  ◌+◌, ◌≤◌, ◌≡◌, refl, sym, ap, subst, ◌∙◌, Bool, true, false, All, All-append, Option, none, some,
  List, [], ◌∷◌, ◌++◌, if◌then◌else◌, Result, ok, err, arith,
}
use wave_mq.Wire.{Bytes, ℤ, int_eq, int_eq→eq}
use wave_mq.Api.{BrokerInfo, PartitionAssignment, ClusterMetadata, TopicConfig}
use wave_mq.Controller.Assignment.{
  contains, broker_info_equal, sort_brokers, normalize_topic_config, assign_topic_partitions,
}
use wave_mq.Controller.Assignment.Lists.{
  Distinct, ids, contains-append, Distinct-one, contains-sort_brokers, Distinct-sort_brokers,
}
use wave_mq.Controller.Assignment.Placement.{Placed}
use wave_mq.Controller.Assignment.Topic.{Known, assign_topic_partitions-Placed}
use wave_mq.Controller.Commands.Replicas.{update_isr-Placed, update_isr-same}
use wave_mq.Controller.Commands

-- Brokers have different ids; every assignment is in order, on registered brokers.
pub record WellFormed (meta : ClusterMetadata) : Type 0 where
  pub distinct_brokers : Distinct (ids meta.brokers)
  pub placed : All (λ p. Placed p × Known (ids meta.brokers) p) meta.partitions

-- No broker is lost.
abbrev pub Keeps : List ℤ → List ℤ → Type 0
Keeps xs ys = (id : ℤ) → contains xs id ≡ true → contains ys id ≡ true

All-Known :
    (xs ys : List ℤ) (ps : List PartitionAssignment)
    → Keeps xs ys
    → All (λ p. Placed p × Known xs p) ps
    → All (λ p. Placed p × Known ys p) ps
All-Known xs ys [] k h = tt
All-Known xs ys (p ∷ ps) k ((hp, kp), h) = ((hp, λ id e. k id (kp id e)), All-Known xs ys ps k h)

abbrev Replaced : BrokerInfo → List BrokerInfo → Option (Bool × List BrokerInfo) → Type 0
Replaced info bs none = contains (ids bs) info.broker_id ≡ false
Replaced info bs (some (changed, bs')) = ids bs' ≡ ids bs

Replaced-step :
    (info b : BrokerInfo) (bs : List BrokerInfo) (c d : Bool) (o : Option (Bool × List BrokerInfo))
    → int_eq b.broker_id info.broker_id ≡ c
    → Replaced info bs o
    → Replaced info (b ∷ bs) (elim c [
      | true ↦ if d then some (false, b ∷ bs) else some (true, info ∷ bs)
      | false ↦ elim o [ none ↦ none | some (changed, bs') ↦ some (changed, b ∷ bs') ]
    ])
unfolding contains
Replaced-step info b bs true true o e h = refl
Replaced-step info b bs true false o e h =
    ap (λ id. id ∷ ids bs) (sym (int_eq→eq b.broker_id info.broker_id e))
Replaced-step info b bs false d none e h = ground (arith, e, h)
Replaced-step info b bs false d (some (changed, bs')) e h = ap (λ is. b.broker_id ∷ is) h

replace_broker-Replaced :
    (info : BrokerInfo) (bs : List BrokerInfo) → Replaced info bs (Commands.replace_broker info bs)
unfolding Commands.replace_broker contains
replace_broker-Replaced info [] = refl
replace_broker-Replaced info (b ∷ bs) =
    Replaced-step info b bs (int_eq b.broker_id info.broker_id) (broker_info_equal b info)
      (Commands.replace_broker info bs) refl (replace_broker-Replaced info bs)

-- What a command may do to the metadata.
pub record Evolves (meta meta' : ClusterMetadata) : Type 0 where
  pub kept : Keeps (ids meta.brokers) (ids meta'.brokers)
  pub newer : meta.version ≤ meta'.version
  pub in_order : WellFormed meta'

ids-append :
    (bs : List BrokerInfo) (b : BrokerInfo) → ids (bs ++ (b ∷ [])) ≡ ids bs ++ (b.broker_id ∷ [])
ids-append [] b = refl
ids-append (c ∷ bs) b = ap (λ is. c.broker_id ∷ is) (ids-append bs b)

pub update_isr-Keeps :
    (known : List ℤ) (p : PartitionAssignment) (id : ℤ) (b : Bool)
    → Placed p × Known known p
    → contains p.replicas id ≡ true
    → Placed (Commands.update_isr p id b) × Known known (Commands.update_isr p id b)
update_isr-Keeps known p id b (hp, k) member =
    (update_isr-Placed p id b hp member, λ x e. k x (rw (update_isr-same p id b hp).0 at e))

module _ (meta : ClusterMetadata) (h : WellFormed meta) where
  evolved :
      (bs : List BrokerInfo) (ps : List PartitionAssignment)
      → Keeps (ids meta.brokers) (ids bs)
      → Distinct (ids bs)
      → All (λ p. Placed p × Known (ids bs) p) ps
      → Evolves meta (record meta { brokers = bs; partitions = ps; version = meta.version + 1 })
  evolved bs ps k d placed' = record {
    kept = k;
    newer = omega arith;
    in_order = record { distinct_brokers = d; placed = placed' };
  }

  -- Only the brokers change, and none is lost.
  more_brokers :
      (bs : List BrokerInfo)
      → Keeps (ids meta.brokers) (ids bs)
      → Distinct (ids bs)
      → Evolves meta (record meta { brokers = sort_brokers bs; version = meta.version + 1 })
  more_brokers bs k d =
      let k' : Keeps (ids meta.brokers) (ids (sort_brokers bs)) =
        λ id e. contains-sort_brokers bs id ∙ k id e in
      evolved (sort_brokers bs) meta.partitions k' (Distinct-sort_brokers bs d)
        (All-Known (ids meta.brokers) (ids (sort_brokers bs)) meta.partitions k' h.placed)

  with_broker-Evolves :
      (info : BrokerInfo) (o : Option (Bool × List BrokerInfo))
      → Replaced info meta.brokers o
      → Evolves meta (Commands.with_broker meta info o)
  unfolding Commands.with_broker
  with_broker-Evolves info none new =
      more_brokers (meta.brokers ++ (info ∷ []))
        (λ id e.
          rw ids-append
            (ground (arith, contains-append (ids meta.brokers) (info.broker_id ∷ []) id, e)))
        (rw ids-append (Distinct-one (ids meta.brokers) info.broker_id h.distinct_brokers new))
  with_broker-Evolves info (some (false, bs)) same = record {
    kept = λ id e. e;
    newer = omega arith;
    in_order = h;
  }
  with_broker-Evolves info (some (true, bs)) same =
      more_brokers bs (λ id e. rw same e) (rw same h.distinct_brokers)

  pub registered-Evolves :
      (info : BrokerInfo)
      → Evolves meta (Commands.with_broker meta info (Commands.replace_broker info meta.brokers))
  registered-Evolves info =
      with_broker-Evolves info (Commands.replace_broker info meta.brokers)
        (replace_broker-Replaced info meta.brokers)

  with_topic-Evolves :
      (cfg : Commands.ControllerConfig) (name : Bytes) (topic : TopicConfig)
      → Evolves meta (Commands.with_topic cfg meta name topic)
  unfolding Commands.with_topic
  with_topic-Evolves cfg name topic =
      let bs = sort_brokers meta.brokers in
      let k : Keeps (ids meta.brokers) (ids bs) =
        λ id e. contains-sort_brokers meta.brokers id ∙ e in
      evolved bs
        (meta.partitions
          ++ assign_topic_partitions cfg.replication_factor meta.brokers name topic.partitions
              topic.replication_factor meta.partitions)
        k (Distinct-sort_brokers meta.brokers h.distinct_brokers)
        (All-Known (ids meta.brokers) (ids bs) _ k (
          All-append (λ p. Placed p × Known (ids meta.brokers) p) meta.partitions _ h.placed
            (assign_topic_partitions-Placed cfg.replication_factor meta.brokers name
              topic.partitions topic.replication_factor meta.partitions h.distinct_brokers)))

  pub assign_topic-Evolves :
      (cfg : Commands.ControllerConfig) (meta' : ClusterMetadata) (name : Bytes)
      (topic : TopicConfig)
      → Commands.assign_topic cfg meta name topic ≡ ok meta'
      → Evolves meta meta'
  unfolding Commands.assign_topic
  assign_topic-Evolves cfg meta' [] topic e = cc
  assign_topic-Evolves cfg meta' (c ∷ cs) topic e =
      let done =
        Commands.with_topic cfg meta (c ∷ cs)
          (normalize_topic_config cfg.replication_factor topic) in
      let same : done ≡ meta' = ground arith in
      subst (Evolves meta) same
        (with_topic-Evolves cfg (c ∷ cs) (normalize_topic_config cfg.replication_factor topic))

  pub with_partitions-Evolves :
      (meta' : ClusterMetadata) (r : Result Commands.Refusal (List PartitionAssignment))
      → ((ps : List PartitionAssignment)
          → r ≡ ok ps
          → All (λ p. Placed p × Known (ids meta.brokers) p) ps)
      → Commands.with_partitions meta r ≡ ok meta'
      → Evolves meta meta'
  unfolding Commands.with_partitions
  with_partitions-Evolves meta' (ok ps) k e =
      let same : record meta { partitions = ps; version = meta.version + 1 } ≡ meta' = cc in
      subst (Evolves meta) same (evolved meta.brokers ps (λ id e. e) h.distinct_brokers (k ps refl))
  with_partitions-Evolves meta' (err x) k e = cc
