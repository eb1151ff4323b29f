-- ===== src/Mqtt.antt =====
-- internal/mqtt: the MQTT 3.1.1 codec.
pub mod Length
pub mod Packets
pub mod Codec
mod Examples
