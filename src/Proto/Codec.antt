-- ===== src/Proto/Codec.antt =====
-- messages.c, its four public functions, of a build with CBOR: the choice of the format, and the test of the
-- checksum. `fuel` bounds the loops over CBOR containers.
use n32r.Prelude.{ℕ, Bool, Option, List, if◌then◌else◌}
use n32r.Node.DataModel.{Update}
use n32r.Proto.{Command}
use n32r.Proto.Cjson.{Cjson}
use n32r.Proto.Decode.{crc_accepted, decode_command_json, decode_sensor_update_json}
use n32r.Proto.Json.{encode_command_json_into, encode_sensor_update_json_into}
use n32r.Proto.Cbor.{Encoder, encode_command_cbor_into, encode_sensor_update_cbor_into}
use n32r.Proto.Tinycbor.{Reader, Read, failed, tried}
use n32r.Proto.Tinycbor.Command.{decode_command_cbor}
use n32r.Proto.Tinycbor.Sensor.{ScanIndex, decode_sensor_update_cbor}

-- The libraries that the codec stands on.
pub record Libraries (E V Node Double F : Type 0) : Type 0 where
  pub print_float : F → List ℕ
  pub encoder : Encoder E F
  pub cjson : Cjson Node Double F
  pub reader : Reader V Double
  pub scan_index : ScanIndex
  pub zero_float : F

module _ {E V Node Double F : Type 0} (lib : Libraries E V Node Double F) where
  unfoldable pub proto_encode_sensor_update_into : Update F → Bool → ℕ → Option (List ℕ × ℕ)
  proto_encode_sensor_update_into msg use_cbor buffer_len =
      if use_cbor
      then encode_sensor_update_cbor_into lib.encoder msg buffer_len
      else encode_sensor_update_json_into lib.print_float msg buffer_len

  unfoldable pub proto_encode_command_into : Command → Bool → ℕ → Option (List ℕ × ℕ)
  proto_encode_command_into msg use_cbor buffer_len =
      if use_cbor
      then encode_command_cbor_into lib.encoder msg buffer_len
      else encode_command_json_into msg buffer_len

  unfoldable pub proto_decode_command : ℕ → List ℕ → Bool → ℕ → Read Command
  proto_decode_command fuel payload is_cbor expected_crc32 =
      if crc_accepted expected_crc32 payload
      then (if is_cbor
          then decode_command_cbor lib.reader fuel payload
          else tried (decode_command_json lib.cjson payload))
      else failed

  unfoldable pub proto_decode_sensor_update : ℕ → List ℕ → Bool → ℕ → Read (Update F)
  proto_decode_sensor_update fuel payload is_cbor expected_crc32 =
      if crc_accepted expected_crc32 payload
      then (if is_cbor
          then decode_sensor_update_cbor lib.reader lib.cjson.to_float lib.cjson.scan_hex
              lib.scan_index lib.zero_float fuel payload
          else tried (decode_sensor_update_json lib.cjson lib.zero_float payload))
      else failed
