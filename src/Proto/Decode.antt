-- ===== src/Proto/Decode.antt =====
-- messages.c, the decoders of JSON. A decoded message is the struct after `memset` with what is found in it.
pub mod Laws
pub mod Updates
use n32r.Prelude.{
  ℕ, zero, suc, ◌+◌, ◌%◌, ◌==◌, ◌&&◌, ◌||◌, Bool, true, false, Option, none, some, List, [], ◌∷◌,
  ◌++◌, if◌then◌else◌, get_or, set, take, drop, ltb, length, min,
}
use n32r.Prelude.Bytes.{codes, bytes_eq}
use n32r.Util.Crc32.{proto_crc32}
use n32r.Node.DataModel.{Sht20, Ds18b20, Mcp23017, Update, zeroed}
use n32r.Proto.{Command, cleared}
use n32r.Proto.Cjson.{Cjson}

-- The checksum that is sent is tested unless it is 0.
unfoldable pub crc_accepted : ℕ → List ℕ → Bool
crc_accepted expected_crc32 payload = expected_crc32 == 0 || proto_crc32 payload == expected_crc32

-- The nodes of an array from the first on, each read into its slot; the slots that are left stay.
unfoldable pub fill : {Node A : Type 0} → (Node → A → A) → List Node → List A → List A
fill read [] slots = slots
fill read (node ∷ nodes) [] = []
fill read (node ∷ nodes) (slot ∷ slots) = read node slot ∷ fill read nodes slots

module _ (scan_hex : List ℕ → Option ℕ) where
  -- The bytes of `out` are written as far as the text can be read.
  unfoldable pub rom_bytes : List ℕ → List ℕ → Bool × List ℕ
  rom_bytes rom_str [] = (true, [])
  rom_bytes rom_str (byte ∷ out) = elim (scan_hex rom_str) [
    | none ↦ (false, byte ∷ out)
    | some value ↦
        let (scanned, out') = rom_bytes (drop 2 rom_str) out in (scanned, value % 256 ∷ out')
  ]

  unfoldable pub parse_rom : List ℕ → List ℕ → Bool × List ℕ
  parse_rom rom_str out = if ltb (length rom_str) 16 then (false, out) else rom_bytes rom_str out

-- `test ? 1 : 0`
abbrev pub one_if : Bool → ℕ
one_if test = if test then 1 else 0

unfoldable pub is_mcp1 : Option (List ℕ) → Bool
is_mcp1 none = false
is_mcp1 (some dev) = bytes_eq dev (codes "mcp1")

unfoldable pub is_port_b : Option (List ℕ) → Bool
is_port_b none = false
is_port_b (some port) = get_or port 0 0 == b'B'

module _ {Node Double F : Type 0} (j : Cjson Node Double F) where
  -- `item && item->valuestring`
  unfoldable pub string_of : Option Node → Option (List ℕ)
  string_of none = none
  string_of (some node) = j.valuestring node

  unfoldable pub u16_at : Option Node → List ℕ → ℕ
  u16_at item key = j.to_u16 (j.get_number_value (j.get_object_item item key))

  unfoldable pub float_at : Option Node → List ℕ → F
  float_at item key = j.to_float (j.get_number_value (j.get_object_item item key))

  unfoldable pub decode_set_pwm : Option Node → Command → Command
  decode_set_pwm item msg =
      if j.is_object item
      then record msg {
        channel = j.to_u8 (j.get_number_value (j.get_object_item item (codes "ch")));
        duty_cycle = u16_at item (codes "duty");
        has_pwm_update = true;
      }
      else msg

  unfoldable pub decode_pwm_freq : Option Node → Command → Command
  decode_pwm_freq item msg =
      if j.is_object item
      then record msg { pwm_frequency = u16_at item (codes "freq"); has_pwm_frequency = true }
      else msg

  unfoldable pub decode_write_gpio : Option Node → Command → Command
  decode_write_gpio item msg =
      if j.is_object item
      then record msg {
        device_index = one_if (is_mcp1 (string_of (j.get_object_item item (codes "dev"))));
        port = one_if (is_port_b (string_of (j.get_object_item item (codes "port"))));
        mask = u16_at item (codes "mask");
        value = u16_at item (codes "value");
        has_gpio_write = true;
      }
      else msg

  unfoldable pub u32_at : Option Node → List ℕ → ℕ
  u32_at item key = j.to_u32 (j.get_number_value (j.get_object_item item key))

  unfoldable pub command_of : Option Node → Command
  command_of root = decode_write_gpio (j.get_object_item root (codes "write_gpio")) (
      decode_pwm_freq (j.get_object_item root (codes "pwm_freq")) (
        decode_set_pwm (j.get_object_item root (codes "set_pwm")) (record cleared {
          timestamp_ms = u32_at root (codes "ts");
          sequence_id = u32_at root (codes "seq");
        })))

  -- The part of `proto_decode_command` for JSON.
  unfoldable pub decode_command_json : List ℕ → Option Command
  decode_command_json payload = elim (j.parse payload) [
    | none ↦ none
    | some root ↦ some (command_of (some root))
  ]

  unfoldable pub decode_sht20 : Node → Sht20 F → Sht20 F
  decode_sht20 item slot = record {
    id = elim (string_of (j.get_object_item (some item) (codes "id"))) [
      | none ↦ slot.id
      | some id ↦ take 15 id
    ];
    temperature_c = float_at (some item) (codes "t");
    humidity_percent = float_at (some item) (codes "rh");
    valid = j.is_true (j.get_object_item (some item) (codes "ok"));
  }

  unfoldable pub decode_ds18b20 : Node → Ds18b20 F → Ds18b20 F
  decode_ds18b20 item slot = record {
    rom_code = elim (string_of (j.get_object_item (some item) (codes "rom"))) [
      | none ↦ slot.rom_code
      | some rom ↦ (parse_rom j.scan_hex rom slot.rom_code).1
    ];
    temperature_c = float_at (some item) (codes "t");
  }

  -- The children of an array, and none of anything else.
  abbrev pub elements : Option Node → List Node
  elements item = if j.is_array item then j.children item else []

  unfoldable pub decode_mcp : Option Node → ℕ → List Mcp23017 → List Mcp23017
  decode_mcp item i mcp =
      if j.is_object item
      then set mcp i (record { port_a = u16_at item (codes "A"); port_b = u16_at item (codes "B") })
      else mcp

  unfoldable pub decode_gpio : Option Node → List Mcp23017 → List Mcp23017
  decode_gpio gpio mcp =
      if j.is_object gpio
      then decode_mcp (j.get_object_item gpio (codes "mcp1")) 1
          (decode_mcp (j.get_object_item gpio (codes "mcp0")) 0 mcp)
      else mcp

  unfoldable pub decode_pca9685 : Option Node → Update F → Update F
  decode_pca9685 pca msg =
      if j.is_object pca
      then record msg {
        frequency_hz = u16_at pca (codes "freq");
        duty_cycle =
            fill (λ node _. j.to_u16 (j.get_number_value (some node)))
              (elements (j.get_object_item pca (codes "duty"))) msg.duty_cycle;
      }
      else msg

  unfoldable pub decode_pwm : Option Node → Update F → Update F
  decode_pwm pwm msg =
      if j.is_object pwm then decode_pca9685 (j.get_object_item pwm (codes "pca9685")) msg else msg

  -- `zero` is the float of all zero bits.
  unfoldable pub sensor_update_of : F → Option Node → Update F
  sensor_update_of z root =
      let sht = elements (j.get_object_item root (codes "sht20")) in
      let ds = elements (j.get_object_item root (codes "ds18b20")) in
      decode_pwm (j.get_object_item root (codes "pwm")) (record (zeroed z) {
        timestamp_ms = u32_at root (codes "ts");
        sequence_id = u32_at root (codes "seq");
        sht20 = fill decode_sht20 sht (zeroed z).sht20;
        sht20_count = min 2 (length sht);
        ds18b20 = fill decode_ds18b20 ds (zeroed z).ds18b20;
        ds18b20_count = min 4 (length ds);
        mcp = decode_gpio (j.get_object_item root (codes "gpio")) (zeroed z).mcp;
      })

  -- The part of `proto_decode_sensor_update` for JSON.
  unfoldable pub decode_sensor_update_json : F → List ℕ → Option (Update F)
  decode_sensor_update_json z payload = elim (j.parse payload) [
    | none ↦ none
    | some root ↦ some (sensor_update_of z (some root))
  ]
