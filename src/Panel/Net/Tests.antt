-- ===== src/Panel/Net/Tests.antt =====
-- Tests of the messages between the devices.
use n32r.Prelude.{
  List, [], arith, false, if◌then◌else◌, ok, refl, replicate, some, true, ℕ, ◌++◌, ◌==◌, ◌||◌, ◌∷◌,
  ◌≡◌,
}
use n32r.Prelude.Bytes.{codes}
use n32r.Util.Crc32.{proto_crc32}
use n32r.Node.DataModel.{Sht20, Ds18b20, Update}
use n32r.Node.Tasks.Io.{IoCommand, set_pwm_duty, set_pwm_freq, write_gpio}
use n32r.Node.Tasks.Commands.{ws_rx}
use n32r.Panel.{Model}
use n32r.Panel.Net.{command_frame, handle_sensor_update}
use n32r.Panel.Net.Delivery.{asked, stamped, command_delivered}
use n32r.Panel.Net.Updates.{update_delivered}
use n32r.Proto.{Command, cleared}
use n32r.Proto.Document.{Document, render, items}
use n32r.Proto.Printf.{decimal, digits_from, hex}
use n32r.Proto.Schema.{command_document, sensor_update_document}
use n32r.Proto.Json.Laws.{encode_sensor_update-render}
use n32r.Proto.Decode.Laws.{IsSent}
use n32r.Proto.Decode.Updates.{IsReported}
use n32r.Proto.RoundTrip.{received_update}
use n32r.Proto.Codec.{proto_encode_sensor_update_into}
use n32r.Proto.Toy.{Text, toy, toy_cjson, toy_cjson-IsCjson, toy_cjson_reads}
use n32r.Server.Types.{binary, delivered}
use n32r.Server.Frames.{deliver}

abbrev command : Command
command = record cleared {
  has_pwm_update = true;
  channel = 3;
  duty_cycle = 2048;
  has_gpio_write = true;
  device_index = 1;
  mask = 15;
  value = 5;
}

command-IsSent : IsSent command
command-IsSent = omega arith

abbrev printed : Document
printed = command_document (stamped 1000 6 command)

abbrev waiting : List IoCommand
waiting = set_pwm_freq 500 ∷ []

command_delivered_example :
    (frame : List ℕ) × (text : List ℕ) × (crc : ℕ) × (command_frame
        (toy printed)
        false
        1000
        6
        command
      ≡ (7, ok frame))
    × (deliver binary frame ≡ delivered text crc)
    × (ws_rx (toy printed) false 0 text crc waiting ≡ waiting ++ asked command)
command_delivered_example =
    command_delivered (toy printed) (λ x. x) (λ t. t) (toy_cjson-IsCjson printed) 1000 6 0 command
      waiting (omega arith) command-IsSent (toy_cjson_reads printed) (omega arith)

asked_lem : asked command ≡ set_pwm_duty 3 2048 ∷ (write_gpio 1 0 15 5 ∷ [])
asked_lem = refl

abbrev reading : Sht20 Text
reading = record {
  id = codes "SHT20_1";
  temperature_c = codes "21.50";
  humidity_percent = codes "40.00";
  valid = true;
}

abbrev device : Ds18b20 Text
device = record { rom_code = replicate 8 40; temperature_c = codes "19.06" }

abbrev update : Update Text
update = record {
  timestamp_ms = 1000;
  sequence_id = 7;
  sht20_count = 2;
  sht20 = replicate 2 reading;
  ds18b20_count = 1;
  ds18b20 = replicate 4 device;
  mcp = replicate 2 (record { port_a = 3; port_b = 128 });
  frequency_hz = 500;
  duty_cycle = replicate 16 4000;
}

update-IsReported : IsReported update
update-IsReported = omega arith

abbrev known : Document
known = sensor_update_document (λ (t : Text). t) update

written_update :
    proto_encode_sensor_update_into (toy known) update false 1024
    ≡ some (render known, proto_crc32 (render known))
unfolding render items hex decimal digits_from proto_encode_sensor_update_into
written_update = encode_sensor_update-render (λ (t : Text). t) update 1024

abbrev model : Model Text
model = record {
  last_update = update;
  has_update = false;
  connected = true;
  last_crc_ok = false;
  preferences = record {
    ssid = [];
    password = [];
    mdns_target = [];
    dark_theme = false;
    use_fahrenheit = false;
    high_contrast = false;
    large_touch_targets = false;
    text_scale_percent = 100;
    language = 0;
  };
}

update_delivered_example :
    handle_sensor_update (toy known) false 0 true true (render known) 5 model ≡ (
      if 5 == 0 || proto_crc32 (render known) == 5
      then record model {
        last_update =
            received_update
              (toy_cjson known)
              (λ x. x)
              (λ t. t)
              (toy_cjson-IsCjson known)
              (λ t. t)
              (codes "0.00")
              update;
        has_update = true;
        last_crc_ok = true;
      }
      else record model { last_crc_ok = false })
update_delivered_example =
    update_delivered (toy known) (λ x. x) (λ t. t) (toy_cjson-IsCjson known) update 1024 0 5 model
      update-IsReported (toy_cjson_reads known) written_update
