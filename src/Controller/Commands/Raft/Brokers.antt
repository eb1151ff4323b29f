-- ===== src/Controller/Commands/Raft/Brokers.antt =====
-- The registration of a broker: applyRegisterBrokerLocked and RegisterBroker do the same.
use wave_mq.Prelude.{
  ◌≡◌, refl, sym, ap, ◌∙◌, Bool, true, false, Bool-cases, ◌⊎◌, inl, inr, Option, none, some, List,
  [], ◌∷◌, if◌then◌else◌, ok, err,
}
use wave_mq.Wire.{int_eq}
use wave_mq.Api.{BrokerInfo, ClusterMetadata}
use wave_mq.Controller.Assignment.{not_positive, broker_info_equal}
use wave_mq.Controller.Commands
use wave_mq.Controller.Commands.Raft

not_refused_positive :
    (cfg : Commands.ControllerConfig) (info : BrokerInfo)
    → Commands.refused_broker cfg info ≡ none
    → not_positive info.broker_id ≡ false
unfolding Commands.refused_broker
not_refused_positive cfg info e = split (Bool-cases (not_positive info.broker_id))
  where
    split :
        ((not_positive info.broker_id ≡ true) ⊎ (not_positive info.broker_id ≡ false))
        → not_positive info.broker_id ≡ false
    split (inl y) = let wrong : some Commands.invalid_broker_id ≡ none = rw y at e in cc
    split (inr n) = n

pub single_registers :
    (cfg : Commands.ControllerConfig) (meta : ClusterMetadata) (info : BrokerInfo)
    → Commands.refused_broker cfg info ≡ none
    → Commands.register_broker cfg meta info
      ≡ ok (Commands.with_broker meta info (Commands.replace_broker info meta.brokers))
unfolding Commands.register_broker Commands.with_broker
single_registers cfg meta info e = rw (e, Commands.register_broker) refl

pub single_refuses :
    (cfg : Commands.ControllerConfig) (meta : ClusterMetadata) (info : BrokerInfo)
    (x : Commands.Refusal)
    → Commands.refused_broker cfg info ≡ some x
    → Commands.register_broker cfg meta info ≡ err x
unfolding Commands.register_broker Commands.with_broker
single_refuses cfg meta info x e = rw (e, Commands.register_broker) refl

outcome : Option (Bool × List BrokerInfo) → Raft.Replacement
outcome none = Raft.absent
outcome (some (false, bs)) = Raft.unchanged
outcome (some (true, bs)) = Raft.replaced bs

same_fields-lem :
    (b info : BrokerInfo)
    → int_eq b.broker_id info.broker_id ≡ true
    → broker_info_equal b info ≡ Raft.same_fields b info
unfolding broker_info_equal
same_fields-lem b info e = rw e refl

outcome-step :
    (info b : BrokerInfo) (bs : List BrokerInfo) (c : Bool) (o : Option (Bool × List BrokerInfo))
    (q : Raft.Replacement)
    → int_eq b.broker_id info.broker_id ≡ c
    → outcome o ≡ q
    → outcome (elim c [
      | true ↦ if broker_info_equal b info then some (false, b ∷ bs) else some (true, info ∷ bs)
      | false ↦ elim o [ none ↦ none | some (changed, bs') ↦ some (changed, b ∷ bs') ]
    ])
      ≡ elim c [
        | true ↦ if Raft.same_fields b info then Raft.unchanged else Raft.replaced (info ∷ bs)
        | false ↦ Raft.behind b q
      ]
unfolding outcome
outcome-step info b bs true o q e k =
    rw (same_fields-lem b info e) (split (Raft.same_fields b info))
  where
    split :
        (d : Bool)
        → outcome (if d then some (false, b ∷ bs) else some (true, info ∷ bs))
          ≡ (if d then Raft.unchanged else Raft.replaced (info ∷ bs))
    split true = refl
    split false = refl
outcome-step info b bs false none q e k = rw (← k) refl
outcome-step info b bs false (some (true, bs')) q e k = rw (← k) refl
outcome-step info b bs false (some (false, bs')) q e k = rw (← k) refl

outcome-replace_broker :
    (info : BrokerInfo) (bs : List BrokerInfo)
    → outcome (Commands.replace_broker info bs) ≡ Raft.raft_replace_broker info bs
unfolding Commands.replace_broker Raft.raft_replace_broker
outcome-replace_broker info [] = unfold outcome in refl
outcome-replace_broker info (b ∷ bs) =
    outcome-step info b bs (int_eq b.broker_id info.broker_id) (Commands.replace_broker info bs)
      (Raft.raft_replace_broker info bs) refl (outcome-replace_broker info bs)

same_store :
    (meta : ClusterMetadata) (info : BrokerInfo) (o : Option (Bool × List BrokerInfo))
    → Raft.store_broker meta info (outcome o) ≡ Commands.with_broker meta info o
unfolding Raft.store_broker Commands.with_broker outcome
same_store meta info none = refl
same_store meta info (some (false, bs)) = refl
same_store meta info (some (true, bs)) = refl

pub raft_registers :
    (meta : ClusterMetadata) (info : BrokerInfo)
    → Raft.apply_register_broker meta info ≡ (
        if not_positive info.broker_id
        then err Commands.invalid_broker_id
        else ok (Commands.with_broker meta info (Commands.replace_broker info meta.brokers)))
unfolding Raft.apply_register_broker
raft_registers meta info =
    ap (λ m. if not_positive info.broker_id then err Commands.invalid_broker_id else ok m)
      (ap (Raft.store_broker meta info) (sym (outcome-replace_broker info meta.brokers))
        ∙ same_store meta info (Commands.replace_broker info meta.brokers))

pub registers_alike :
    (cfg : Commands.ControllerConfig) (meta : ClusterMetadata) (info : BrokerInfo)
    → Commands.refused_broker cfg info ≡ none
    → Raft.apply_register_broker meta info ≡ Commands.register_broker cfg meta info
registers_alike cfg meta info accepted =
    raft_registers meta info
    ∙ (rw (not_refused_positive cfg info accepted) refl
        ∙ sym (single_registers cfg meta info accepted))
