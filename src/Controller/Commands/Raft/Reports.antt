-- ===== src/Controller/Commands/Raft/Reports.antt =====
-- The report on a replica: applyReplicaProgressLocked and ReportReplicaProgress do the same.
use wave_mq.Prelude.{
  ℕ, suc, ◌+◌, ◌≡◌, refl, sym, ap, ◌∙◌, Bool, true, false, ◌&&◌, not, Option, none, some, List, [],
  ◌∷◌, ◌++◌, get_elem?, if◌then◌else◌, Result, ok, err,
}
use wave_mq.Wire.{Bytes, ℤ, int_eq}
use wave_mq.Api.{PartitionAssignment, ClusterMetadata}
use wave_mq.Controller.Assignment.{contains, remove, ensure_leader_in_isr}
use wave_mq.Controller.Commands
use wave_mq.Controller.Commands.Progress.{broker_present-eq-contains}
use wave_mq.Controller.Commands.Raft

same_switch :
    (p : PartitionAssignment) (id : ℤ) (isr' : List ℤ) (b c : Bool)
    → (if b && not c
        then record p { isr = isr' ++ (id ∷ []) }
        else if not b && (c && not (int_eq id p.leader))
        then record p { isr = remove isr' id }
        else record p { isr = isr' })
      ≡ record p { isr = Raft.switch_isr b c id p.leader isr' }
unfolding Raft.switch_isr
same_switch p id isr' true true = refl
same_switch p id isr' true false = refl
same_switch p id isr' false false = refl
same_switch p id isr' false true = split (int_eq id p.leader)
  where
    split :
        (d : Bool)
        → (if not d then record p { isr = remove isr' id } else record p { isr = isr' })
          ≡ record p { isr = if d then isr' else remove isr' id }
    split true = refl
    split false = refl

same_isr :
    (id last high : ℤ) (p : PartitionAssignment)
    → Commands.update_isr p id (Commands.caught_up last high) ≡ Raft.raft_progress id last high p
unfolding Commands.update_isr Raft.raft_progress
same_isr id last high p =
    same_switch p id (ensure_leader_in_isr p.leader p.isr) (Commands.caught_up last high)
      (contains (ensure_leader_in_isr p.leader p.isr) id)

-- The update of the partition at the index that the search gives.
abbrev Partitions : Type 0
Partitions = Result Commands.Refusal (List PartitionAssignment)

in_place : ℕ → List PartitionAssignment → Result Commands.Refusal PartitionAssignment → Partitions
in_place i ps (ok p') = ok (Raft.set_partition i p' ps)
in_place i ps (err e) = err e

with_first : PartitionAssignment → Partitions → Partitions
with_first p (ok ps) = ok (p ∷ ps)
with_first p (err e) = err e

in_place-first :
    (p : PartitionAssignment) (ps : List PartitionAssignment)
    (r : Result Commands.Refusal PartitionAssignment)
    → ◌≡◌ {A = Partitions} (elim r [ ok p' ↦ ok (p' ∷ ps) | err e ↦ err e ]) (in_place 0 (p ∷ ps) r)
unfolding in_place Raft.set_partition
in_place-first p ps (ok p') = refl
in_place-first p ps (err e) = refl

in_place-behind :
    (p : PartitionAssignment) (ps : List PartitionAssignment) (i : ℕ)
    (r : Result Commands.Refusal PartitionAssignment)
    → with_first p (in_place i ps r) ≡ in_place (suc i) (p ∷ ps) r
unfolding in_place with_first Raft.set_partition
in_place-behind p ps i (ok p') = refl
in_place-behind p ps i (err e) = refl

with_first-elim :
    (p : PartitionAssignment) (r : Partitions)
    → ◌≡◌ {A = Partitions} (elim r [ ok ps' ↦ ok (p ∷ ps') | err e ↦ err e ]) (with_first p r)
unfolding with_first
with_first-elim p (ok ps) = refl
with_first-elim p (err e) = refl

module _ (f : PartitionAssignment → Result Commands.Refusal PartitionAssignment) where
  at_index : List PartitionAssignment → ℕ → Option PartitionAssignment → Partitions
  at_index ps i none = err Commands.partition_not_found
  at_index ps i (some p) = in_place i ps (f p)

  on_index : List PartitionAssignment → Option ℕ → Partitions
  on_index ps none = err Commands.partition_not_found
  on_index ps (some i) = at_index ps i (get_elem? ps i)

  at_index-behind :
      (p : PartitionAssignment) (ps : List PartitionAssignment) (i : ℕ)
      (q : Option PartitionAssignment)
      → with_first p (at_index ps i q) ≡ at_index (p ∷ ps) (suc i) q
  unfolding at_index
  at_index-behind p ps i none = unfold with_first in refl
  at_index-behind p ps i (some q) = in_place-behind p ps i (f q)

  update_partition-step :
      (p : PartitionAssignment) (ps : List PartitionAssignment) (c : Bool) (o : Option ℕ)
      (r : Partitions)
      → r ≡ on_index ps o
      → ◌≡◌ {A = Partitions}
          (elim c [
            | true ↦ elim (f p) [ ok p' ↦ ok (p' ∷ ps) | err e ↦ err e ]
            | false ↦ elim r [ ok ps' ↦ ok (p ∷ ps') | err e ↦ err e ]
          ])
          (on_index
            (p ∷ ps)
            (elim c [ true ↦ some 0 | false ↦ elim o [ none ↦ none | some i ↦ some (suc i) ] ]))
  unfolding on_index at_index
  update_partition-step p ps true o r e = in_place-first p ps (f p)
  update_partition-step p ps false none r e = rw e refl
  update_partition-step p ps false (some i) r e =
      with_first-elim p r ∙ (ap (with_first p) e ∙ at_index-behind p ps i (get_elem? ps i))

  update_partition-on_index :
      (topic : Bytes) (part : ℤ) (ps : List PartitionAssignment)
      → Commands.update_partition topic part f ps ≡ on_index ps (Raft.partition_index topic part ps)
  unfolding Commands.update_partition Raft.partition_index
  update_partition-on_index topic part [] = unfold on_index in refl
  update_partition-on_index topic part (p ∷ ps) =
      update_partition-step p ps (Commands.is_partition topic part p)
        (Raft.partition_index topic part ps) (Commands.update_partition topic part f ps)
        (update_partition-on_index topic part ps)

in_terms_of_contains :
    (id last high : ℤ) (p : PartitionAssignment)
    → Commands.single_progress id last high p ≡ (
        if contains p.replicas id
        then ok (Raft.raft_progress id last high p)
        else err Commands.not_a_replica)
unfolding Commands.single_progress
in_terms_of_contains id last high p =
    rw (broker_present-eq-contains id p.replicas, same_isr id last high p) refl

same_progress :
    (meta : ClusterMetadata) (id last high : ℤ) (i : ℕ) (q : Option PartitionAssignment)
    → Raft.progress_at meta id last high i q
      ≡ Commands.with_partitions meta
          (at_index (Commands.single_progress id last high) meta.partitions i q)
unfolding Raft.progress_at Commands.with_partitions at_index
same_progress meta id last high i none = refl
same_progress meta id last high i (some p) =
    split (contains p.replicas id)
    ∙ ap (λ r. Commands.with_partitions meta (in_place i meta.partitions r))
        (sym (in_terms_of_contains id last high p))
  where
    p' : PartitionAssignment
    p' = Raft.raft_progress id last high p

    split :
        (b : Bool)
        → ◌≡◌ {A = Result Commands.Refusal ClusterMetadata}
            (if b
              then ok (record meta {
                partitions = Raft.set_partition i p' meta.partitions;
                version = meta.version + 1;
              })
              else err Commands.not_a_replica)
            (Commands.with_partitions meta
              (in_place i meta.partitions (if b then ok p' else err Commands.not_a_replica)))
    split true = unfold in_place in refl
    split false = unfold in_place in refl

pub same_report :
    (meta : ClusterMetadata) (topic : Bytes) (part id last high : ℤ)
    → Raft.apply_replica_progress meta topic part id last high
      ≡ Commands.report_replica_progress meta topic part id last high
unfolding Raft.apply_replica_progress Commands.report_replica_progress
same_report meta topic part id last high =
    rw
      (update_partition-on_index (Commands.single_progress id last high) topic part meta.partitions)
      (split (Raft.partition_index topic part meta.partitions))
  where
    split :
        (o : Option ℕ)
        → elim o [
          | none ↦ err Commands.partition_not_found
          | some i ↦ Raft.progress_at meta id last high i (get_elem? meta.partitions i)
        ]
          ≡ Commands.with_partitions meta
              (on_index (Commands.single_progress id last high) meta.partitions o)
    split none = unfold on_index Commands.with_partitions in refl
    split (some i) =
        unfold on_index in same_progress meta id last high i (get_elem? meta.partitions i)
