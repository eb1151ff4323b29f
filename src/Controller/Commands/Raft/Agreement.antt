-- ===== src/Controller/Commands/Raft/Agreement.antt =====
-- The state machine that Raft replicates and the controller of a single node do the same.
use wave_mq.Prelude.{◌≡◌, refl, [], ◌∷◌}
use wave_mq.Wire.{Bytes}
use wave_mq.Api.{ClusterMetadata, TopicConfig}
use wave_mq.Controller.Commands
use wave_mq.Controller.Commands.Raft

pub same_assign :
    (cfg : Commands.ControllerConfig) (meta : ClusterMetadata) (name : Bytes) (topic : TopicConfig)
    → Raft.apply_assign_topic cfg meta name topic ≡ Commands.assign_topic cfg meta name topic
unfolding Raft.apply_assign_topic Commands.assign_topic Commands.with_topic
same_assign cfg meta [] topic = refl
same_assign cfg meta (c ∷ cs) topic = refl
