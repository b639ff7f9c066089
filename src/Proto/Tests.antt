-- ===== src/Proto/Tests.antt =====
-- Tests of the codec.
use n32r.Prelude.{Bool, [], arith, false, length, map, refl, replicate, some, true, ◌<◌, ◌∷◌, ◌≡◌}
use n32r.Prelude.Bytes.{codes}
use n32r.Util.Crc32.{proto_crc32}
use n32r.Node.DataModel.{Sht20, Ds18b20, Mcp23017, Update}
use n32r.Node.DataModel.Bounds.{IsSized}
use n32r.Proto.{Command}
use n32r.Proto.Document.{Document, render, items}
use n32r.Proto.Printf.{decimal, digits_from, hex}
use n32r.Proto.Schema.{command_document, sensor_update_document}
use n32r.Proto.Json.{encode_sensor_update_json_into}
use n32r.Proto.Json.Laws.{fitted, encode_sensor_update-render}
use n32r.Proto.Cbor
use n32r.Proto.Cbor.Laws.{sensor_update_calls-emit, emit_message, as_text}
use n32r.Proto.Decode.{decode_sensor_update_json}
use n32r.Proto.Decode.Updates.{IsReported}
use n32r.Proto.RoundTrip.{decode-encode_update, received_update}
use n32r.Proto.Tinycbor.Command.{decode_command_cbor}
use n32r.Proto.Schema.{pwm_freq_document}
use n32r.Proto.Tinycbor.Laws.{IsMisread, gpio_items, two_parts-IsMisread}
use n32r.Proto.Toy.{
  Text, toy_cjson, toy_cjson-IsCjson, toy_cjson_reads, toy_reader, toy_reader-IsReader,
}

abbrev reading : Bool → Sht20 Text
reading valid = record {
  id = codes "SHT20_1";
  temperature_c = codes "21.50";
  humidity_percent = codes "40.00";
  valid = valid;
}

abbrev device : Ds18b20 Text
device = record {
  rom_code = 40 ∷ (255 ∷ (0 ∷ (1 ∷ (2 ∷ (3 ∷ (4 ∷ (5 ∷ [])))))));
  temperature_c = codes "19.06";
}

abbrev ports : Mcp23017
ports = record { port_a = 3; port_b = 128 }

abbrev update : Update Text
update = record {
  timestamp_ms = 1000;
  sequence_id = 7;
  sht20_count = 1;
  sht20 = reading true ∷ (reading false ∷ []);
  ds18b20_count = 1;
  ds18b20 = device ∷ (device ∷ (device ∷ (device ∷ [])));
  mcp = ports ∷ (ports ∷ []);
  frequency_hz = 500;
  duty_cycle = replicate 16 100;
}

update-IsSized : IsSized update
update-IsSized = omega arith

update-IsReported : IsReported update
update-IsReported = omega arith

abbrev known : Document
known = sensor_update_document (λ (t : Text). t) update

encode_sensor_update-render_example :
    encode_sensor_update_json_into (λ (t : Text). t) update 600 ≡ fitted (render known) 600
encode_sensor_update-render_example = encode_sensor_update-render (λ (t : Text). t) update 600

sensor_update_calls-emit_example :
    map (as_text (λ (t : Text). t)) (Cbor.sensor_update_calls update) ≡ emit_message known
sensor_update_calls-emit_example = sensor_update_calls-emit (λ (t : Text). t) update update-IsSized

written_update :
    encode_sensor_update_json_into (λ (t : Text). t) update 600
    ≡ some (render known, proto_crc32 (render known))
unfolding render items hex decimal digits_from
written_update = encode_sensor_update-render (λ (t : Text). t) update 600

decode-encode_update_example :
    (decode_sensor_update_json (toy_cjson known) (codes "0") (render known)
      ≡ some (
          received_update
            (toy_cjson known)
            (λ x. x)
            (λ t. t)
            (toy_cjson-IsCjson known)
            (λ t. t)
            (codes "0")
            update))
    × (proto_crc32 (render known) ≡ proto_crc32 (render known))
    × (length (render known) < 600)
decode-encode_update_example =
    decode-encode_update (toy_cjson known) (λ x. x) (λ t. t) (toy_cjson-IsCjson known) (λ t. t)
      (codes "0") update 600 update-IsReported (toy_cjson_reads known) written_update

-- A command of all three parts.
abbrev command : Command
command = record {
  timestamp_ms = 5;
  sequence_id = 6;
  has_pwm_update = true;
  channel = 3;
  duty_cycle = 2048;
  has_pwm_frequency = true;
  pwm_frequency = 1000;
  has_gpio_write = true;
  device_index = 1;
  port = 1;
  mask = 15;
  value = 5;
}

command_text :
    render (command_document command)
    ≡ codes
        "{\"v\":1,\"type\":\"cmd\",\"ts\":5,\"seq\":6,\"set_pwm\":{\"ch\":3,\"duty\":2048},\"pwm_freq\":{\"freq\":1000},\"write_gpio\":{\"dev\":\"mcp1\",\"port\":\"B\",\"mask\":15,\"value\":5}}"
unfolding render decimal digits_from
command_text = refl

two_parts-IsMisread_example :
    IsMisread
      (toy_reader (command_document command))
      (λ v. v.0)
      (λ v. v.1)
      (toy_reader-IsReader (command_document command))
      (pwm_freq_document command)
      (gpio_items command)
      20
      (decode_command_cbor (toy_reader (command_document command)) 20 (1 ∷ []))
two_parts-IsMisread_example =
    two_parts-IsMisread (toy_reader (command_document command)) (λ v. v.0) (λ v. v.1)
      (toy_reader-IsReader (command_document command)) command 20 (1 ∷ [])
      (command_document command ∷ [], []) refl refl (omega arith) refl refl refl
