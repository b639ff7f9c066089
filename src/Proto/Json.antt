-- ===== src/Proto/Json.antt =====
-- messages.c, the encoders to JSON. What each call of `json_append` prints stands in a list, in the order of
-- the calls. What a failed call leaves in the buffer is not modelled. The text of a float is a parameter.
pub mod Laws
use n32r.Prelude.{
  ℕ, zero, suc, ◌==◌, Bool, true, false, Option, none, some, List, [], ◌∷◌, ◌++◌, if◌then◌else◌,
  get_or,
}
use n32r.Prelude.Bytes.{codes}
use n32r.Util.Crc32.{proto_crc32}
use n32r.Node.DataModel.{Sht20, Ds18b20, Mcp23017, Update}
use n32r.Proto.{Command}
use n32r.Proto.Printf.{Cursor, append_all, decimal, hex}

abbrev pub called : Bool → List ℕ → List (List ℕ)
called test printed = if test then printed ∷ [] else []

abbrev pub device_name : ℕ → List ℕ
device_name index = if index == 0 then codes "mcp0" else codes "mcp1"

abbrev pub port_name : ℕ → List ℕ
port_name port = if port == 0 then codes "A" else codes "B"

-- The calls after the sequence number.
unfoldable pub optional_calls : Command → List (List ℕ)
optional_calls msg =
    called msg.has_pwm_update (
      codes ",\"set_pwm\":{\"ch\":"
      ++ (decimal msg.channel ++ (codes ",\"duty\":" ++ (decimal msg.duty_cycle ++ codes "}"))))
    ++ (called msg.has_pwm_frequency
          (codes ",\"pwm_freq\":{\"freq\":" ++ (decimal msg.pwm_frequency ++ codes "}"))
        ++ (called msg.has_gpio_write (
              codes ",\"write_gpio\":{\"dev\":\""
              ++ (device_name msg.device_index
                  ++ (codes "\",\"port\":\""
                      ++ (port_name msg.port
                          ++ (codes "\",\"mask\":"
                              ++ (decimal msg.mask
                                  ++ (codes ",\"value\":" ++ (decimal msg.value ++ codes "}"))))))))
            ++ (codes "}" ∷ [])))

unfoldable pub command_calls : Command → List (List ℕ)
command_calls msg =
    (codes "{\"v\":1,\"type\":\"cmd\",\"ts\":"
      ++ (decimal msg.timestamp_ms ++ (codes ",\"seq\":" ++ decimal msg.sequence_id)))
    ∷ optional_calls msg

-- The bytes in the buffer and their checksum; `none` is false.
unfoldable pub printed_all : List (List ℕ) → ℕ → Option (List ℕ × ℕ)
printed_all calls buffer_len =
    if buffer_len == 0
    then none
    else (elim (append_all calls (record { text = []; remaining = buffer_len })) [
      | none ↦ none
      | some cursor ↦ some (cursor.text, proto_crc32 cursor.text)
    ])

unfoldable pub encode_command_json_into : Command → ℕ → Option (List ℕ × ℕ)
encode_command_json_into msg buffer_len = printed_all (command_calls msg) buffer_len

-- The comma before each entry but the first.
abbrev pub comma : Bool → List ℕ
comma is_first = if is_first then [] else codes ","

module _ {F : Type 0} (print_float : F → List ℕ) where
  -- The entries that are left of `count`.
  unfoldable pub sht20_calls : Bool → ℕ → List (Sht20 F) → List (List ℕ)
  sht20_calls is_first zero entries = []
  sht20_calls is_first (suc left) [] = []
  sht20_calls is_first (suc left) (entry ∷ entries) =
      (comma is_first
        ++ (codes "{\"id\":\""
            ++ (entry.id
                ++ (codes "\",\"t\":"
                    ++ (print_float entry.temperature_c
                        ++ (codes ",\"rh\":"
                            ++ (print_float entry.humidity_percent
                                ++ (codes ",\"ok\":"
                                    ++ ((if entry.valid then codes "true" else codes "false")
                                        ++ codes "}")))))))))
      ∷ sht20_calls false left entries

  unfoldable pub ds18b20_calls : Bool → ℕ → List (Ds18b20 F) → List (List ℕ)
  ds18b20_calls is_first zero entries = []
  ds18b20_calls is_first (suc left) [] = []
  ds18b20_calls is_first (suc left) (entry ∷ entries) =
      (comma is_first
        ++ (codes "{\"rom\":\""
            ++ (hex entry.rom_code
                ++ (codes "\",\"t\":" ++ (print_float entry.temperature_c ++ codes "}")))))
      ∷ ds18b20_calls false left entries

-- The loop over the sixteen cycles.
unfoldable pub duty_calls : Bool → List ℕ → List (List ℕ)
duty_calls is_first [] = []
duty_calls is_first (duty ∷ duties) = (comma is_first ++ decimal duty) ∷ duty_calls false duties

-- Where there is no such expander, the answer is of no interest.
abbrev pub expander : ℕ → List Mcp23017 → Mcp23017
expander index mcp = get_or mcp index (record { port_a = 0; port_b = 0 })

module _ {F : Type 0} (print_float : F → List ℕ) where
  unfoldable pub sensor_update_calls : Update F → List (List ℕ)
  sensor_update_calls msg =
      (codes "{\"v\":1,\"type\":\"sensor_update\",\"ts\":"
        ++ (decimal msg.timestamp_ms
            ++ (codes ",\"seq\":" ++ (decimal msg.sequence_id ++ codes ",\"sht20\":["))))
      ∷ (sht20_calls print_float true msg.sht20_count msg.sht20
          ++ (codes "],\"ds18b20\":["
              ∷ (ds18b20_calls print_float true msg.ds18b20_count msg.ds18b20
                  ++ ((codes "],\"gpio\":{\"mcp0\":{\"A\":"
                        ++ (decimal (expander 0 msg.mcp).port_a
                            ++ (codes ",\"B\":"
                                ++ (decimal (expander 0 msg.mcp).port_b
                                    ++ (codes "},\"mcp1\":{\"A\":"
                                        ++ (decimal (expander 1 msg.mcp).port_a
                                            ++ (codes ",\"B\":"
                                                ++ (decimal (expander 1 msg.mcp).port_b
                                                    ++ (codes "}},\"pwm\":{\"pca9685\":{\"freq\":"
                                                        ++ (decimal msg.frequency_hz
                                                            ++ codes ",\"duty\":["))))))))))
                      ∷ (duty_calls true msg.duty_cycle ++ (codes "]}}}" ∷ []))))))

  unfoldable pub encode_sensor_update_json_into : Update F → ℕ → Option (List ℕ × ℕ)
  encode_sensor_update_json_into msg buffer_len = printed_all (sensor_update_calls msg) buffer_len
