-- ===== src/Controller/Commands/Progress.antt =====
-- What a report on a replica does.
use wave_mq.Prelude.{
  ◌+◌, ◌≡◌, refl, subst, Bool, true, false, ◌||◌, All, Bool-cases, ◌⊎◌, inl, inr, Option, none,
  some, List, [], ◌∷◌, if◌then◌else◌, Result, ok, arith,
}
use wave_mq.Wire.{Bytes, ℤ, int_eq}
use wave_mq.Api.{PartitionAssignment, ClusterMetadata}
use wave_mq.Controller.Assignment.{contains, broker_present, brokers_from_ints}
use wave_mq.Controller.Commands.Replicas.{contains-update_isr, update_isr-same}
use wave_mq.Controller.Commands.Invariant.{WellFormed}
use wave_mq.Controller.Commands

pub broker_present-eq-contains :
    (id : ℤ) (xs : List ℤ) → broker_present id (brokers_from_ints xs) ≡ contains xs id
unfolding broker_present brokers_from_ints contains
broker_present-eq-contains id [] = refl
broker_present-eq-contains id (x ∷ xs) = ground (arith, broker_present-eq-contains id xs)

-- The first assignment of a partition, as the loop finds it.
unfoldable pub find_partition : Bytes → ℤ → List PartitionAssignment → Option PartitionAssignment
find_partition topic part [] = none
find_partition topic part (p ∷ ps) =
    if Commands.is_partition topic part p then some p else find_partition topic part ps

module _ (topic : Bytes) (part : ℤ)
    (f : PartitionAssignment → Result Commands.Refusal PartitionAssignment)
    (p p' : PartitionAssignment) (done : f p ≡ ok p')
    (kept : (p'.topic ≡ p.topic) × (p'.partition ≡ p.partition)) (topic' : Bytes) (part' : ℤ)
    (other : Commands.is_partition topic' part' p ≡ false) where
  other' : Commands.is_partition topic' part' p' ≡ false
  other' = rw (kept.0, kept.1) other

  record Updated (ps ps' : List PartitionAssignment) : Type 0 where
    update_eq : Commands.update_partition topic part f ps ≡ ok ps'
    found_eq : find_partition topic part ps' ≡ some p'
    others_eq : find_partition topic' part' ps' ≡ find_partition topic' part' ps

  Updated-first :
      (qs : List PartitionAssignment)
      → Commands.is_partition topic part p ≡ true
      → Updated (p ∷ qs) (p' ∷ qs)
  Updated-first qs mine = record {
    update_eq = unfold Commands.update_partition in ground (arith, mine, done);
    found_eq =
        let mine' : Commands.is_partition topic part p' ≡ true = rw (kept.0, kept.1) mine in
        unfold find_partition in ground (arith, mine');
    others_eq = unfold find_partition in ground (arith, other, other');
  }

  Updated-later :
      (q : PartitionAssignment) (qs ps' : List PartitionAssignment)
      → Commands.is_partition topic part q ≡ false
      → Updated qs ps'
      → Updated (q ∷ qs) (q ∷ ps')
  Updated-later q qs ps' n u = record {
    update_eq = unfold Commands.update_partition in ground (arith, n, u.update_eq);
    found_eq = unfold find_partition in ground (arith, n, u.found_eq);
    others_eq = unfold find_partition in ground (arith, u.others_eq);
  }

  Updated-step :
      (q : PartitionAssignment) (qs : List PartitionAssignment)
      → find_partition topic part (q ∷ qs) ≡ some p
      → (find_partition topic part qs ≡ some p → (ps' : List PartitionAssignment) × Updated qs ps')
      → ((Commands.is_partition topic part q ≡ true) ⊎ (Commands.is_partition topic part q ≡ false))
      → (ps' : List PartitionAssignment) × Updated (q ∷ qs) ps'
  unfolding find_partition
  Updated-step q qs e ih (inl y) =
      let first : some q ≡ some p = rw y at e in
      let same : q ≡ p = cc in (p' ∷ qs, rw same (Updated-first qs (rw same at y)))
  Updated-step q qs e ih (inr n) =
      let later : find_partition topic part qs ≡ some p = rw n at e in
      let (ps', u) = ih later in (q ∷ ps', Updated-later q qs ps' n u)

  updated :
      (ps : List PartitionAssignment)
      → find_partition topic part ps ≡ some p
      → (ps' : List PartitionAssignment) × Updated ps ps'
  updated [] e = unfold find_partition in cc
  updated (q ∷ qs) e =
      Updated-step q qs e (updated qs) (Bool-cases (Commands.is_partition topic part q))

found_All :
    (P : PartitionAssignment → Type 0) (topic : Bytes) (part : ℤ) (p : PartitionAssignment)
    (ps : List PartitionAssignment)
    → find_partition topic part ps ≡ some p
    → All P ps
    → P p
unfolding find_partition
found_All P topic part p [] e h = cc
found_All P topic part p (q ∷ qs) e (hq, h) =
    split (Bool-cases (Commands.is_partition topic part q))
      (λ later. found_All P topic part p qs later h)
  where
    split :
        ((Commands.is_partition topic part q ≡ true) ⊎ (Commands.is_partition topic part q ≡ false))
        → (find_partition topic part qs ≡ some p → P p)
        → P p
    split (inl y) ih =
        let first : some q ≡ some p = rw y at e in let same : q ≡ p = cc in subst P same hq
    split (inr n) ih = ih (rw n at e)

update_isr-kept :
    (p : PartitionAssignment) (id : ℤ) (b : Bool)
    → ((Commands.update_isr p id b).topic ≡ p.topic)
      × ((Commands.update_isr p id b).partition ≡ p.partition)
unfolding Commands.update_isr
update_isr-kept p id b = (ground arith, ground arith)

-- What a report on a replica does. Where the metadata are in order and hold the partition with the
-- reporting broker among its replicas, ReportReplicaProgress succeeds, with a new version; the broker
-- is in sync from then on just if its last offset has reached the high watermark or it is the leader;
-- every other broker is in sync as before; and the replicas, the leader and any partition with another
-- key stay as they were.
pub report_replica_progress_lem :
    (meta : ClusterMetadata) (topic : Bytes) (part id last high : ℤ) (p : PartitionAssignment)
    (x : ℤ) (topic' : Bytes) (part' : ℤ)
    → WellFormed meta
    → find_partition topic part meta.partitions ≡ some p
    → contains p.replicas id ≡ true
    → Commands.is_partition topic' part' p ≡ false
    → (meta' : ClusterMetadata) × (p' : PartitionAssignment) × (Commands.report_replica_progress
          meta topic part id last high
        ≡ ok meta')
      × (meta'.version ≡ meta.version + 1)
      × (find_partition topic part meta'.partitions ≡ some p')
      × (contains p'.isr x ≡ (
          if int_eq id x
          then (Commands.caught_up last high || int_eq id p.leader)
          else contains p.isr x))
      × (p'.replicas ≡ p.replicas)
      × (p'.leader ≡ p.leader)
      × (find_partition topic' part' meta'.partitions ≡ find_partition topic' part' meta.partitions)
report_replica_progress_lem meta topic part id last high p x topic' part' h e member other =
    let b = Commands.caught_up last high in
    let p' = Commands.update_isr p id b in
    let placed = found_All _ topic part p meta.partitions e h.placed in
    let (ps', u) =
      updated topic part (Commands.single_progress id last high) p p' (accepted_report member)
        (update_isr-kept p id b) topic' part' other meta.partitions e in
    (
      record meta { partitions = ps'; version = meta.version + 1 },
      p',
      (unfold Commands.report_replica_progress Commands.with_partitions in
          rw (u.update_eq, Commands.with_partitions) refl),
      refl,
      u.found_eq,
      contains-update_isr p id b placed.0 x,
      (update_isr-same p id b placed.0).0,
      (update_isr-same p id b placed.0).1,
      u.others_eq,
    )
  where
    accepted_report :
        contains p.replicas id ≡ true
        → Commands.single_progress id last high p
          ≡ ok (Commands.update_isr p id (Commands.caught_up last high))
    accepted_report m = unfold Commands.single_progress in rw (broker_present-eq-contains, m) refl
