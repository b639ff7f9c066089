-- ===== src/Proto/RoundTrip.antt =====
-- The two messages between the devices as JSON: what one device prints, the other decodes.
use n32r.Prelude.{
  length-map, All, All, List, [], ap, arith, false, length, length-take, ltb, map, min, refl,
  replicate, some, sym, take, ℕ, ◌++◌, ◌-◌, ◌<◌, ◌∙◌, ◌∷◌, ◌≡◌, ◌≤◌,
}
use n32r.Prelude.Bytes.{codes, bytes_eq}
use n32r.Util.Crc32.{proto_crc32}
use n32r.Node.DataModel.{Sht20, Ds18b20, Mcp23017, Update, zeroed}
use n32r.Proto.{Command}
use n32r.Proto.Printf.{hex}
use n32r.Proto.Document.{Document, num, real, str, bool, arr, obj, Fields, end, field, render}
use n32r.Proto.Json.{expander, encode_command_json_into, encode_sensor_update_json_into}
use n32r.Proto.Json.Laws.{fitted, encode_command-render, encode_sensor_update-render}
use n32r.Proto.Schema.{sht20_document, ds18b20_document, sensor_update_document, command_document}
use n32r.Proto.Cjson.{Cjson, IsCjson, find}
use n32r.Proto.Decode.{
  parse_rom, decode_ds18b20, decode_sht20, decode_command_json, decode_sensor_update_json,
  sensor_update_of,
}
use n32r.Proto.Decode.Laws.{u32_member, string_member, has, IsSent, received, command_lem}
use n32r.Proto.Decode.Updates.{
  IsRom, IsU16, IsReported, fill_lem, sht20_lem, elements_lem, gpio_lem, pwm_lem, All-take,
  expanders, length-hex, rom_bytes-hex, float_member,
}

-- What was written, where something was.
written :
    (x : Document) (buffer_len : ℕ) {text : List ℕ} {crc32 : ℕ}
    → fitted (render x) buffer_len ≡ some (text, crc32)
    → (text ≡ render x) × (crc32 ≡ proto_crc32 text) × (length text < buffer_len)
written x buffer_len e = (ground arith, ground arith, ground arith)

expander_ports :
    (mcp : List Mcp23017)
    → length mcp ≡ 2
    → All (λ (m : Mcp23017). IsU16 m.port_a × IsU16 m.port_b) mcp
    → (IsU16 (expander 0 mcp).port_a × IsU16 (expander 0 mcp).port_b)
      × (IsU16 (expander 1 mcp).port_a × IsU16 (expander 1 mcp).port_b)
expander_ports [] e all = absurd (omega arith)
expander_ports (a ∷ []) e all = absurd (omega arith)
expander_ports (a ∷ (b ∷ mcp)) e all = (all.0, all.1.0)

module _ {Node Double F : Type 0} (j : Cjson Node Double F) (node : Document → Node)
    (read_real : List ℕ → F) (laws : IsCjson j node read_real) where
  -- Of every command whose numbers fit their types and every size of buffer: where the text is written and cJSON
  -- reads it, the decoder gives the command back, with zero in the parts that are not flagged, and with the
  -- expander and the port as 0 or 1.
  pub decode-encode_command :
      (msg : Command) (buffer_len : ℕ) {text : List ℕ} {crc32 : ℕ}
      → IsSent msg
      → j.parse (render (command_document msg)) ≡ some (node (command_document msg))
      → encode_command_json_into msg buffer_len ≡ some (text, crc32)
      → (decode_command_json j text ≡ some (received msg))
        × (crc32 ≡ proto_crc32 text)
        × (length text < buffer_len)
  unfolding decode_command_json
  decode-encode_command msg buffer_len sent reads e =
      let w =
        written (command_document msg) buffer_len
          (sym (encode_command-render msg buffer_len) ∙ e) in
      (simp (w.0, reads, decode_command_json, command_lem j node read_real laws msg sent), w.1, w.2)

  module _ (print_float : F → List ℕ) where
    ds18b20_lem :
        (e : Ds18b20 F) (z : F)
        → IsRom e.rom_code
        → decode_ds18b20 j
            (node (ds18b20_document print_float e))
            (record { rom_code = replicate 8 0; temperature_c = z })
          ≡ record e { temperature_c = read_real (print_float e.temperature_c) }
    unfolding decode_ds18b20 find bytes_eq parse_rom
    ds18b20_lem e z (size, all) =
        let fs : Fields =
          field (codes "rom") (str (hex e.rom_code))
            (field (codes "t") (real (print_float e.temperature_c)) end) in
        let long : ltb (length (hex e.rom_code)) 16 ≡ false =
          (let k = length-hex e.rom_code in ground arith) in
        simp (
          string_member j node read_real laws fs (codes "rom") (hex e.rom_code) refl,
          float_member j node read_real laws fs (codes "t") (print_float e.temperature_c) refl,
          long,
          rom_bytes-hex j node read_real laws e.rom_code (replicate 8 0) all (sym size),
        )

    abbrev pub received_sht20 : Sht20 F → Sht20 F
    received_sht20 e = record e {
      temperature_c = read_real (print_float e.temperature_c);
      humidity_percent = read_real (print_float e.humidity_percent);
    }

    abbrev pub received_ds18b20 : Ds18b20 F → Ds18b20 F
    received_ds18b20 e = record e { temperature_c = read_real (print_float e.temperature_c) }

    -- The readings that count, with their floats printed and read back, and zero in the other slots.
    abbrev pub received_update : F → Update F → Update F
    received_update z msg = record msg {
      sht20 =
          map received_sht20 (take msg.sht20_count msg.sht20)
          ++ replicate (2 - msg.sht20_count)
              (record { id = []; temperature_c = z; humidity_percent = z; valid = false });
      ds18b20 =
          map received_ds18b20 (take msg.ds18b20_count msg.ds18b20)
          ++ replicate (4 - msg.ds18b20_count)
              (record { rom_code = replicate 8 0; temperature_c = z });
    }

    -- The fields of an update's document.
    fields_of : Update F → Fields
    fields_of msg = elim (sensor_update_document print_float msg) [
      | obj fs ↦ fs
      | num n ↦ end
      | real t ↦ end
      | str t ↦ end
      | bool b ↦ end
      | arr xs ↦ end
    ]

    update_lem :
        (z : F) (msg : Update F)
        → IsReported msg
        → sensor_update_of j z (some (node (sensor_update_document print_float msg)))
          ≡ received_update z msg
    unfolding sensor_update_of find bytes_eq zeroed fields_of
    update_lem z msg r =
        let sized = r.sized in
        let shts = take msg.sht20_count msg.sht20 in
        let dss = take msg.ds18b20_count msg.ds18b20 in
        let blank_sht : Sht20 F = record {
          id = [];
          temperature_c = z;
          humidity_percent = z;
          valid = false;
        } in
        let blank_ds : Ds18b20 F = record { rom_code = replicate 8 0; temperature_c = z } in
        let sht_count : length shts ≡ msg.sht20_count =
          omega (arith, length-take msg.sht20_count msg.sht20) in
        let ds_count : length dss ≡ msg.ds18b20_count =
          omega (arith, length-take msg.ds18b20_count msg.ds18b20) in
        let length_sht : min 2 (length (map (λ x. node (sht20_document print_float x)) shts))
            ≡ msg.sht20_count =
          omega (arith, length-map shts (λ x. node (sht20_document print_float x))) in
        let length_ds : min 4 (length (map (λ x. node (ds18b20_document print_float x)) dss))
            ≡ msg.ds18b20_count =
          omega (arith, length-map dss (λ x. node (ds18b20_document print_float x))) in
        let ports = expander_ports msg.mcp sized.mcp_size r.ports in
        let base : Update F = record (received_update z msg) {
          mcp = expander 0 msg.mcp ∷ (expander 1 msg.mcp ∷ []);
          frequency_hz = 0;
          duty_cycle = replicate 16 0;
        } in
        let fs : Fields = fields_of msg in
        rw
          (
            has j node read_real laws fs (codes "sht20") _ refl,
            has j node read_real laws fs (codes "ds18b20") _ refl,
            has j node read_real laws fs (codes "gpio") _ refl,
            has j node read_real laws fs (codes "pwm") _ refl,
            u32_member j node read_real laws fs (codes "ts") msg.timestamp_ms refl r.timestamp_ms,
            u32_member j node read_real laws fs (codes "seq") msg.sequence_id refl r.sequence_id,
            elements_lem j node read_real laws (sht20_document print_float) shts,
            elements_lem j node read_real laws (ds18b20_document print_float) dss,
            fill_lem (decode_sht20 j) (λ x. node (sht20_document print_float x)) received_sht20
                blank_sht (λ x. length x.id ≤ 15)
                (λ x h. sht20_lem j node read_real laws print_float x blank_sht h) shts 2
                (All-take (λ x. length x.id ≤ 15) msg.sht20_count msg.sht20 r.ids) (omega arith),
            fill_lem (decode_ds18b20 j) (λ x. node (ds18b20_document print_float x))
                received_ds18b20 blank_ds (λ x. IsRom x.rom_code) (λ x h. ds18b20_lem x z h) dss 4
                (All-take (λ x. IsRom x.rom_code) msg.ds18b20_count msg.ds18b20 r.roms)
                (omega arith),
            length_sht,
            length_ds,
            sht_count,
            ds_count,
            gpio_lem j node read_real laws (expander 0 msg.mcp) (expander 1 msg.mcp) _ ports.0
                ports.1,
            pwm_lem j node read_real laws msg.frequency_hz msg.duty_cycle base r.frequency_hz
                r.duties sized.duty_size refl,
          )
          (ap (λ mcp. record (received_update z msg) { mcp = mcp })
            (sym (expanders msg.mcp sized.mcp_size)))

    -- Of every sensor update whose arrays have their sizes and whose numbers and strings fit their types, and every
    -- size of buffer: where the text is written and cJSON reads it, the decoder gives the update back, its floats
    -- as the number that their text reads as and with zero in the slots past the counts.
    pub decode-encode_update :
        (z : F) (msg : Update F) (buffer_len : ℕ) {text : List ℕ} {crc32 : ℕ}
        → IsReported msg
        → j.parse (render (sensor_update_document print_float msg))
          ≡ some (node (sensor_update_document print_float msg))
        → encode_sensor_update_json_into print_float msg buffer_len ≡ some (text, crc32)
        → (decode_sensor_update_json j z text ≡ some (received_update z msg))
          × (crc32 ≡ proto_crc32 text)
          × (length text < buffer_len)
    unfolding decode_sensor_update_json
    decode-encode_update z msg buffer_len reported reads e =
        let x = sensor_update_document print_float msg in
        let w =
          written x buffer_len (sym (encode_sensor_update-render print_float msg buffer_len) ∙ e) in
        (simp (w.0, reads, decode_sensor_update_json, update_lem z msg reported), w.1, w.2)
