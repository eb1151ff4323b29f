-- ===== src/Controller/Commands/Replicas.antt =====
-- The in-sync replicas after a report: ReportReplicaProgress.
use wave_mq.Prelude.{◌≡◌, refl, Bool, true, false, ◌||◌, List, [], ◌∷◌, ◌++◌, if◌then◌else◌, arith}
use wave_mq.Wire.{ℤ, int_eq, int_eq_refl, int_eq→eq}
use wave_mq.Api.{PartitionAssignment}
use wave_mq.Controller.Assignment.{contains, remove, ensure_leader_in_isr}
use wave_mq.Controller.Assignment.Lists.{
  Distinct, contains-one, contains-remove, Distinct-one, Distinct-remove,
  contains-ensure_leader_in_isr, Distinct-ensure_leader_in_isr,
}
use wave_mq.Controller.Assignment.Placement.{Placed}
use wave_mq.Controller.Commands.{update_isr}

module _ (p : PartitionAssignment) (id : ℤ) (b : Bool) (h : Placed p) where
  -- Who is in sync after a report on `id`.
  pub contains-update_isr :
      (x : ℤ)
      → contains (update_isr p id b).isr x
        ≡ (if int_eq id x then (b || int_eq id p.leader) else contains p.isr x)
  unfolding update_isr
  contains-update_isr x = ground (
    arith,
    h.leader_in_sync,
    contains-one (ensure_leader_in_isr p.leader p.isr) id x,
    contains-remove (ensure_leader_in_isr p.leader p.isr) id x,
    contains-ensure_leader_in_isr p.leader p.isr x,
    contains-ensure_leader_in_isr p.leader p.isr id,
    int_eq→eq id x,
    int_eq→eq p.leader x,
    int_eq→eq p.leader id,
    int_eq→eq id p.leader,
    int_eq_refl id,
    int_eq_refl p.leader,
  )

  Distinct-branches :
      (isr' : List ℤ) (c d : Bool)
      → (c ≡ true → contains isr' id ≡ false)
      → Distinct isr'
      → Distinct
          (if c
            then record p { isr = isr' ++ (id ∷ []) }
            else if d
            then record p { isr = remove isr' id }
            else record p { isr = isr' }).isr
  Distinct-branches isr' true d new k = Distinct-one isr' id k (new refl)
  Distinct-branches isr' false true new k = Distinct-remove isr' id k
  Distinct-branches isr' false false new k = k

  Distinct-update_isr : Distinct (update_isr p id b).isr
  Distinct-update_isr =
      unfold update_isr in
      Distinct-branches (ensure_leader_in_isr p.leader p.isr) _ _ (λ e. ground arith)
        (Distinct-ensure_leader_in_isr p.leader p.isr h.distinct_isr)

  pub update_isr-same :
      ((update_isr p id b).replicas ≡ p.replicas) × ((update_isr p id b).leader ≡ p.leader)
  unfolding update_isr
  update_isr-same = (ground arith, ground arith)

  -- A report on one of the replicas keeps an assignment in order.
  pub update_isr-Placed : contains p.replicas id ≡ true → Placed (update_isr p id b)
  update_isr-Placed member = record {
    distinct_replicas = rw update_isr-same.0 h.distinct_replicas;
    leader_replica = rw (update_isr-same.0, update_isr-same.1) h.leader_replica;
    distinct_isr = Distinct-update_isr;
    leader_in_sync =
        rw update_isr-same.1
          (ground (arith, contains-update_isr p.leader, h.leader_in_sync, int_eq→eq id p.leader));
    isr_replicas = λ x e.
        rw update_isr-same.0
          (ground (arith, contains-update_isr x, h.isr_replicas x, int_eq→eq id x, member, e));
  }
