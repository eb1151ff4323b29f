-- ===== src/Controller/Commands/Update.antt =====
-- The loop that changes one assignment keeps what holds of all of them.
use wave_mq.Prelude.{◌≡◌, refl, subst, Bool, true, false, All, List, [], ◌∷◌, Result, ok, err}
use wave_mq.Wire.{Bytes, ℤ}
use wave_mq.Api.{PartitionAssignment}
use wave_mq.Controller.Commands

-- The first assignment of the partition alone is changed.
module _ (P : PartitionAssignment → Type 0) (topic : Bytes) (part : ℤ)
    (f : PartitionAssignment → Result Commands.Refusal PartitionAssignment)
    (keep : (p p' : PartitionAssignment) → f p ≡ ok p' → P p → P p') where
  Updated-step :
      (p : PartitionAssignment) (ps ps' : List PartitionAssignment) (c : Bool)
      (o : Result Commands.Refusal PartitionAssignment)
      (q : Result Commands.Refusal (List PartitionAssignment))
      → ((p' : PartitionAssignment) → o ≡ ok p' → P p')
      → ((ps₁ : List PartitionAssignment) → q ≡ ok ps₁ → All P ps₁)
      → P p
      → All P ps
      → ◌≡◌ {A = Result Commands.Refusal (List PartitionAssignment)}
          (elim c [
            | true ↦ elim o [ ok p' ↦ ok (p' ∷ ps) | err e ↦ err e ]
            | false ↦ elim q [ ok ps₁ ↦ ok (p ∷ ps₁) | err e ↦ err e ]
          ])
          (ok ps')
      → All P ps'
  Updated-step p ps ps' true (ok p') q here there hp h e =
      let same : p' ∷ ps ≡ ps' = cc in subst (All P) same (here p' refl, h)
  Updated-step p ps ps' true (err x) q here there hp h e = cc
  Updated-step p ps ps' false o (ok ps₁) here there hp h e =
      let same : p ∷ ps₁ ≡ ps' = cc in subst (All P) same (hp, there ps₁ refl)
  Updated-step p ps ps' false o (err x) here there hp h e = cc

  pub All-update_partition :
      (ps ps' : List PartitionAssignment)
      → Commands.update_partition topic part f ps ≡ ok ps'
      → All P ps
      → All P ps'
  unfolding Commands.update_partition
  All-update_partition [] ps' e h = cc
  All-update_partition (p ∷ ps) ps' e (hp, h) =
      Updated-step p ps ps' (Commands.is_partition topic part p) (f p)
        (Commands.update_partition topic part f ps) (λ p' q. keep p p' q hp)
        (λ ps₁ q. All-update_partition ps ps₁ q h) hp h e
