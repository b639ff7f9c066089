-- ===== src/Proto.antt =====
-- common/proto/messages.c and messages.h: the messages between the panel and the sensor node. The structs of
-- a sensor update are those of the node's data model.
pub mod Printf
pub mod Document
pub mod Json
pub mod Schema
pub mod Cjson
pub mod Decode
pub mod RoundTrip
pub mod Cbor
pub mod Tinycbor
pub mod Codec
pub mod Toy
mod Tests
use n32r.Prelude.{ℕ, Bool, false}

-- `proto_command_t`, with the fields of its two structs in it.
pub record Command : Type 0 where
  pub timestamp_ms : ℕ
  pub sequence_id : ℕ
  pub has_pwm_update : Bool
  pub channel : ℕ
  pub duty_cycle : ℕ
  pub has_pwm_frequency : Bool
  pub pwm_frequency : ℕ
  pub has_gpio_write : Bool
  pub device_index : ℕ
  pub port : ℕ
  pub mask : ℕ
  pub value : ℕ

-- After `memset` to zero.
abbrev pub cleared : Command
cleared = record {
  timestamp_ms = 0;
  sequence_id = 0;
  has_pwm_update = false;
  channel = 0;
  duty_cycle = 0;
  has_pwm_frequency = false;
  pwm_frequency = 0;
  has_gpio_write = false;
  device_index = 0;
  port = 0;
  mask = 0;
  value = 0;
}
