-- ===== src/Panel/Net/Updates.antt =====
-- A sensor update of the node reaches the state of the panel.
use n32r.Prelude.{Bool-cases, List, false, if◌then◌else◌, inl, inr, some, true, ℕ, ◌==◌, ◌||◌, ◌≡◌}
use n32r.Node.DataModel.{Update}
use n32r.Panel.{Model, set_update, set_crc_status}
use n32r.Proto.Document.{Document, render}
use n32r.Proto.Schema.{sensor_update_document}
use n32r.Proto.Cjson.{IsCjson}
use n32r.Proto.Decode.{crc_accepted}
use n32r.Proto.Decode.Updates.{IsReported}
use n32r.Proto.RoundTrip.{received_update, decode-encode_update}
use n32r.Proto.Tinycbor.{read, failed}
use n32r.Proto.Codec.{Libraries, proto_encode_sensor_update_into, proto_decode_sensor_update}
use n32r.Panel.Net.{handle_sensor_update}

module _ {E V Node Double F : Type 0} (lib : Libraries E V Node Double F) (node : Document → Node)
    (read_real : List ℕ → F) (laws : IsCjson lib.cjson node read_real) where
  decode_encoded :
      (msg : Update F) (buffer_len fuel sent : ℕ) {text : List ℕ} {crc : ℕ}
      → IsReported msg
      → lib.cjson.parse (render (sensor_update_document lib.print_float msg))
        ≡ some (node (sensor_update_document lib.print_float msg))
      → proto_encode_sensor_update_into lib msg false buffer_len ≡ some (text, crc)
      → proto_decode_sensor_update lib fuel text false sent ≡ (
          if sent == 0 || crc == sent
          then read
              (received_update lib.cjson node read_real laws lib.print_float lib.zero_float msg)
          else failed)
  unfolding proto_decode_sensor_update proto_encode_sensor_update_into crc_accepted
  decode_encoded msg buffer_len fuel sent reported reads e =
      let back =
        decode-encode_update lib.cjson node read_real laws lib.print_float lib.zero_float msg
          buffer_len reported reads e in
      simp (back.1, back.0)

  -- What the node encodes as JSON, whatever the size of its buffer, the panel takes over if it comes with its
  -- checksum or with the checksum 0: the last update is then the one sent, its floats as they are read back, it
  -- counts as new, the checksum as good, and all else stays. With any other checksum only the checksum counts as
  -- bad. The mutex is taken in time, the update is well-formed, and cJSON reads the printed text.
  pub update_delivered :
      (msg : Update F) (buffer_len fuel sent : ℕ) (model : Model F) {text : List ℕ} {crc : ℕ}
      → IsReported msg
      → lib.cjson.parse (render (sensor_update_document lib.print_float msg))
        ≡ some (node (sensor_update_document lib.print_float msg))
      → proto_encode_sensor_update_into lib msg false buffer_len ≡ some (text, crc)
      → handle_sensor_update lib false fuel true true text sent model ≡ (
          if sent == 0 || crc == sent
          then record model {
            last_update =
                received_update lib.cjson node read_real laws lib.print_float lib.zero_float msg;
            has_update = true;
            last_crc_ok = true;
          }
          else record model { last_crc_ok = false })
  unfolding handle_sensor_update set_update set_crc_status
  update_delivered msg buffer_len fuel sent model {text} {crc} reported reads e =
      let d = decode_encoded msg buffer_len fuel sent reported reads e in
      elim (Bool-cases (sent == 0 || crc == sent)) [
        | inl taken ↦ simp (d, taken, handle_sensor_update)
        | inr refused ↦ simp (d, refused, handle_sensor_update)
      ]
