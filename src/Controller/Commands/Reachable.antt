-- ===== src/Controller/Commands/Reachable.antt =====
-- Sequences of commands, and what holds of the metadata after any of them.
use wave_mq.Prelude.{
  ◌≤◌, ◌≡◌, refl, sym, subst, ◌∙◌, Bool, true, false, Option, none, some, Result, ok, err, arith,
}
use wave_mq.Wire.{Bytes, ℤ}
use wave_mq.Api.{BrokerInfo, PartitionAssignment, ClusterMetadata, TopicConfig}
use wave_mq.Controller.Assignment.{contains}
use wave_mq.Controller.Assignment.Lists.{ids}
use wave_mq.Controller.Assignment.Placement.{Placed}
use wave_mq.Controller.Assignment.Topic.{Known}
use wave_mq.Controller.Commands.Progress.{broker_present-eq-contains}
use wave_mq.Controller.Commands.Raft
use wave_mq.Controller.Commands.Raft.Agreement.{same_assign}
use wave_mq.Controller.Commands.Raft.Brokers.{single_registers, single_refuses, raft_registers}
use wave_mq.Controller.Commands.Raft.Reports.{same_report}
use wave_mq.Controller.Commands.Invariant.{
  WellFormed, Keeps, Evolves, update_isr-Keeps, registered-Evolves, assign_topic-Evolves,
  with_partitions-Evolves,
}
use wave_mq.Controller.Commands.Update.{All-update_partition}
use wave_mq.Controller.Commands

-- One command of either controller that succeeds.
pub data Step (cfg : Commands.ControllerConfig) (meta meta' : ClusterMetadata) : Type 0 where
  registers :
      (info : BrokerInfo) → Commands.register_broker cfg meta info ≡ ok meta' → Step cfg meta meta'
  assigns :
      (name : Bytes) (topic : TopicConfig)
      → Commands.assign_topic cfg meta name topic ≡ ok meta'
      → Step cfg meta meta'
  reports :
      (topic : Bytes) (part id last high : ℤ)
      → Commands.report_replica_progress meta topic part id last high ≡ ok meta'
      → Step cfg meta meta'
  applies : (cmd : Raft.RaftCommand) → Raft.apply cfg meta cmd ≡ ok meta' → Step cfg meta meta'

pub data Reachable (cfg : Commands.ControllerConfig) (meta : ClusterMetadata)
    : ClusterMetadata → Type 0 where
  start : Reachable cfg meta meta
  next :
      {meta' meta'' : ClusterMetadata}
      → Reachable cfg meta meta'
      → Step cfg meta' meta''
      → Reachable cfg meta meta''

module _ (cfg : Commands.ControllerConfig) (meta meta' : ClusterMetadata)
    (h : WellFormed meta) where
  report-Evolves :
      (topic : Bytes) (part id last high : ℤ)
      → Commands.report_replica_progress meta topic part id last high ≡ ok meta'
      → Evolves meta meta'
  unfolding Commands.report_replica_progress
  report-Evolves topic part id last high e =
      with_partitions-Evolves meta h meta' _
        (λ ps q.
          All-update_partition (λ p. Placed p × Known (ids meta.brokers) p) topic part
            (Commands.single_progress id last high)
            (λ p p' r. kept_by p p' (contains p.replicas id) refl r) meta.partitions ps q h.placed)
        e
    where
      kept_by :
          (p p' : PartitionAssignment) (b : Bool)
          → contains p.replicas id ≡ b
          → Commands.single_progress id last high p ≡ ok p'
          → Placed p × Known (ids meta.brokers) p
          → Placed p' × Known (ids meta.brokers) p'
      kept_by p p' true m r k =
          let done : Commands.single_progress id last high p
              ≡ ok (Commands.update_isr p id (Commands.caught_up last high)) =
            unfold Commands.single_progress in rw (broker_present-eq-contains, m) refl in
          let same : Commands.update_isr p id (Commands.caught_up last high) ≡ p' = cc in
          subst (λ q. Placed q × Known (ids meta.brokers) q) same
            (update_isr-Keeps (ids meta.brokers) p id (Commands.caught_up last high) k m)
      kept_by p p' false m r k =
          let refused : Commands.single_progress id last high p ≡ err Commands.not_a_replica =
            unfold Commands.single_progress in rw (broker_present-eq-contains, m) refl in
          cc

  apply_register-Evolves :
      (info : BrokerInfo) → Raft.apply_register_broker meta info ≡ ok meta' → Evolves meta meta'
  apply_register-Evolves info e =
      let done = Commands.with_broker meta info (Commands.replace_broker info meta.brokers) in
      let e' = sym (raft_registers meta info) ∙ e in
      let same : done ≡ meta' = ground arith in
      subst (Evolves meta) same (registered-Evolves meta h info)

  single_register-Evolves :
      (info : BrokerInfo) (o : Option Commands.Refusal)
      → Commands.refused_broker cfg info ≡ o
      → Commands.register_broker cfg meta info ≡ ok meta'
      → Evolves meta meta'
  single_register-Evolves info none a e =
      let same : Commands.with_broker meta info (Commands.replace_broker info meta.brokers)
          ≡ meta' =
        (let q : ◌≡◌ {A = Result Commands.Refusal ClusterMetadata}
              (ok (Commands.with_broker meta info (Commands.replace_broker info meta.brokers)))
              (ok meta') =
            sym (single_registers cfg meta info a) ∙ e in
          cc) in
      subst (Evolves meta) same (registered-Evolves meta h info)
  single_register-Evolves info (some x) a e =
      let q : ◌≡◌ {A = Result Commands.Refusal ClusterMetadata} (err x) (ok meta') =
        sym (single_refuses cfg meta info x a) ∙ e in
      cc

  apply-Evolves : (cmd : Raft.RaftCommand) → Raft.apply cfg meta cmd ≡ ok meta' → Evolves meta meta'
  unfolding Raft.apply
  apply-Evolves (Raft.cmd_assign_topic name topic) e =
      assign_topic-Evolves meta h cfg meta' name topic (sym (same_assign cfg meta name topic) ∙ e)
  apply-Evolves (Raft.cmd_report_replica_progress topic part id last high) e =
      report-Evolves topic part id last high (sym (same_report meta topic part id last high) ∙ e)
  apply-Evolves (Raft.cmd_register_broker none) e = cc
  apply-Evolves (Raft.cmd_register_broker (some info)) e = apply_register-Evolves info e
  apply-Evolves (Raft.cmd_unknown n) e = cc

  Step-Evolves : Step cfg meta meta' → Evolves meta meta'
  Step-Evolves (registers info e) =
      single_register-Evolves info (Commands.refused_broker cfg info) refl e
  Step-Evolves (assigns name topic e) = assign_topic-Evolves meta h cfg meta' name topic e
  Step-Evolves (reports topic part id last high e) = report-Evolves topic part id last high e
  Step-Evolves (applies cmd e) = apply-Evolves cmd e

-- The controllers never lose their way. After any sequence of commands that succeeded, on a single
-- node or from Raft's log, from metadata in order: brokers still have different ids, none of them is
-- lost, and the version has not gone back; every assignment has different replicas, all of them
-- registered brokers, its leader among them, and in-sync replicas that are different, replicas of the
-- partition, and include the leader.
pub Reachable-WellFormed :
    (cfg : Commands.ControllerConfig) (meta meta' : ClusterMetadata)
    → WellFormed meta
    → Reachable cfg meta meta'
    → WellFormed meta'
      × Keeps (ids meta.brokers) (ids meta'.brokers)
      × (meta.version ≤ meta'.version)
Reachable-WellFormed cfg meta meta' h start = (h, (λ id e. e), omega arith)
Reachable-WellFormed cfg meta meta' h (next {meta' = m} r s) =
    let (h', kept, newer) = Reachable-WellFormed cfg meta m h r in
    let e = Step-Evolves cfg m meta' h' s in
    (e.in_order, (λ id q. e.kept id (kept id q)), omega (arith, e.newer, newer))
