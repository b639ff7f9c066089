-- ===== src/Panel/Net.antt =====
-- hmi_node/main/net/ws_client.c: the commands that the panel sends, and the updates that it receives.
pub mod Size
pub mod Delivery
pub mod Updates
pub mod Discovery
pub mod Cache
pub mod Start
mod Tests
use n32r.Prelude.{
  ℕ, ◌+◌, ◌%◌, Bool, true, false, Option, none, some, List, [], ◌++◌, if◌then◌else◌, ltb, length,
  Result, Status, ok, err, invalid_state, invalid_response, invalid_size,
}
use n32r.Prelude.Words.{u32_mod}
use n32r.Prelude.Bytes.{le_bytes}
use n32r.Crypto.{Crypto}
use n32r.Node.DataModel.{Update}
use n32r.Panel.{Model, set_update, set_crc_status}
use n32r.Proto.{Command}
use n32r.Proto.Codec.{Libraries, proto_encode_command_into, proto_decode_sensor_update}
use n32r.Proto.Tinycbor.{Read, read, failed, unfinished}
use n32r.WsClient.State.{State}
use n32r.WsClient.Send.{ws_client_send}

-- `PROTO_MAX_COMMAND_SIZE`
abbrev pub max_command_size : ℕ
max_command_size = 512

module _ {E V Node Double F : Type 0} (lib : Libraries E V Node Double F) (s_use_cbor : Bool) where
  -- The number that the command gets, and the frame: the checksum, lowest byte first, and the message.
  unfoldable pub command_frame : ℕ → ℕ → Command → ℕ × Result (List ℕ)
  command_frame now s_next_command_seq cmd =
      let seq = (s_next_command_seq + 1) % u32_mod in
      let local : Command = record cmd { timestamp_ms = now; sequence_id = seq } in
      (
        seq,
        elim (proto_encode_command_into lib local s_use_cbor max_command_size) [
          | none ↦ err invalid_response
          | some (payload, crc) ↦
              if ltb (max_command_size + 4) (length payload + 4)
              then err invalid_size
              else ok (le_bytes 4 crc ++ payload)
        ],
      )

  -- The status, the number of the last command, and what `ws_client_send` leaves. Its nonce and the outcomes of
  -- its allocation and of the transport are arguments.
  unfoldable pub hmi_ws_client_send_command :
      Crypto
      → List ℕ
      → Bool
      → Bool
      → ℕ
      → Command
      → ℕ
      → State
      → Status × (ℕ × (State × Option (List ℕ)))
  hmi_ws_client_send_command c iv allocated sent now cmd s_next_command_seq st =
      if st.connected
      then (let (seq, frame) = command_frame now s_next_command_seq cmd in
          elim frame [
            | err e ↦ (err e, (seq, (st, none)))
            | ok bytes ↦
                let (status, rest) = ws_client_send c iv allocated sent bytes st in
                (status, (seq, rest))
          ])
      else (err invalid_state, (s_next_command_seq, (st, none)))

  -- The mutex of the data model is taken in time or not, for each call.
  unfoldable pub handle_sensor_update : ℕ → Bool → Bool → List ℕ → ℕ → Model F → Model F
  handle_sensor_update fuel first second payload crc model =
      let bad = set_crc_status first false model in
      elim (proto_decode_sensor_update lib fuel payload s_use_cbor crc) [
        | failed ↦ bad
        | unfinished ↦ bad
        | read update ↦ set_crc_status second true (set_update first update model)
      ]
