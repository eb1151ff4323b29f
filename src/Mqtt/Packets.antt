-- ===== src/Mqtt/Packets.antt =====
-- internal/mqtt/packets.go. A Go string is the list of its bytes.
use wave_mq.Prelude.{ℕ, Bool, Option, List}
use wave_mq.Wire.{Bytes}

pub record ConnectPacket : Type 0 where
  pub client_id : Bytes
  pub keep_alive_sec : ℕ
  pub clean_start : Bool
  pub username : Bytes
  pub auth_data : Option Bytes

pub record ConnackPacket : Type 0 where
  pub session_present : Bool
  pub return_code : ℕ

pub record Subscription : Type 0 where
  pub filter : Bytes
  pub qos : ℕ

pub record SubscribePacket : Type 0 where
  pub packet_id : ℕ
  pub topics : List Subscription

pub record SubackPacket : Type 0 where
  pub packet_id : ℕ
  pub granted : Bytes

pub record PublishPacket : Type 0 where
  pub topic : Bytes
  pub qos : ℕ
  pub duplicate : Bool
  pub packet_id : ℕ
  pub payload : Bytes

pub record PubackPacket : Type 0 where
  pub packet_id : ℕ

-- What `readPacket` may return.
pub data Packet : Type 0 where
  connect : ConnectPacket → Packet
  subscribe : SubscribePacket → Packet
  publish : PublishPacket → Packet
  puback : PubackPacket → Packet
  pingreq : Packet
  disconnect : Packet
