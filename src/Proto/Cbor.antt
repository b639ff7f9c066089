-- ===== src/Proto/Cbor.antt =====
-- messages.c, the encoders to CBOR. TinyCBOR is a parameter; what the code calls of it stands in a list, in the
-- order of the calls. A call writes to the innermost container that is open.
pub mod Laws
use n32r.Prelude.{
  ℕ, zero, suc, ◌==◌, Bool, true, false, Option, none, some, List, [], ◌∷◌, ◌++◌, if◌then◌else◌,
  get_or,
}
use n32r.Prelude.Bytes.{codes}
use n32r.Util.Crc32.{proto_crc32}
use n32r.Node.DataModel.{Sht20, Ds18b20, Mcp23017, Update}
use n32r.Proto.{Command}
use n32r.Proto.Printf.{hex}
use n32r.Proto.Json.{device_name, port_name, expander}
use Prim.Native.String.{String}

-- A container is opened with its length, or as one of indefinite length.
pub data Call (F : Type 0) : Type 0 where
  create_map : Option ℕ → Call F
  create_array : ℕ → Call F
  close_container : Call F
  encode_text : List ℕ → Call F
  encode_uint : ℕ → Call F
  encode_float : F → Call F
  encode_boolean : Bool → Call F

-- An encoder on a buffer of some size: a call, `none` where it fails; the bytes that did not fit; what it wrote.
pub record Encoder (E F : Type 0) : Type 0 where
  pub init : ℕ → E
  pub call : Call F → E → Option E
  pub extra_bytes_needed : E → ℕ
  pub written : E → List ℕ

module _ {E F : Type 0} (cbor : Encoder E F) where
  -- `CBOR_CHECK` of each call.
  unfoldable pub checked_calls : List (Call F) → E → Option E
  checked_calls [] encoder = some encoder
  checked_calls (call ∷ calls) encoder = elim (cbor.call call encoder) [
    | none ↦ none
    | some encoder' ↦ checked_calls calls encoder'
  ]

  unfoldable pub encoded_all : List (Call F) → ℕ → Option (List ℕ × ℕ)
  encoded_all calls buffer_len =
      if buffer_len == 0 then none else (elim (checked_calls calls (cbor.init buffer_len)) [
        | none ↦ none
        | some encoder ↦
            if cbor.extra_bytes_needed encoder == 0
            then some (cbor.written encoder, proto_crc32 (cbor.written encoder))
            else none
      ])

module _ {F : Type 0} where
  abbrev pub key : String → Call F
  key name = encode_text (codes name)

  abbrev pub header : List ℕ → ℕ → ℕ → List (Call F)
  header type timestamp_ms sequence_id =
      create_map none
      ∷ (key "v"
          ∷ (encode_uint 1
              ∷ (key "type"
                  ∷ (encode_text type
                      ∷ (key "ts"
                          ∷ (encode_uint timestamp_ms
                              ∷ (key "seq" ∷ (encode_uint sequence_id ∷ []))))))))

  abbrev pub made : Bool → List (Call F) → List (Call F)
  made test calls = if test then calls else []

  unfoldable pub command_calls : Command → List (Call F)
  command_calls msg =
      header (codes "cmd") msg.timestamp_ms msg.sequence_id
      ++ (made msg.has_pwm_update (
            key "set_pwm"
            ∷ (create_map (some 2)
                ∷ (key "ch"
                    ∷ (encode_uint msg.channel
                        ∷ (key "duty" ∷ (encode_uint msg.duty_cycle ∷ (close_container ∷ [])))))))
          ++ (made msg.has_pwm_frequency (
                key "pwm_freq"
                ∷ (create_map (some 1)
                    ∷ (key "freq" ∷ (encode_uint msg.pwm_frequency ∷ (close_container ∷ [])))))
              ++ (made msg.has_gpio_write (
                    key "write_gpio"
                    ∷ (create_map (some 4)
                        ∷ (key "dev"
                            ∷ (encode_text (device_name msg.device_index)
                                ∷ (key "port"
                                    ∷ (encode_text (port_name msg.port)
                                        ∷ (key "mask"
                                            ∷ (encode_uint msg.mask
                                                ∷ (key "value"
                                                    ∷ (encode_uint msg.value
                                                        ∷ (close_container ∷ [])))))))))))
                  ++ (close_container ∷ []))))

  -- The entries that are left of `count`.
  unfoldable pub sht20_calls : ℕ → List (Sht20 F) → List (Call F)
  sht20_calls zero entries = []
  sht20_calls (suc left) [] = []
  sht20_calls (suc left) (entry ∷ entries) =
      create_map (some 4)
      ∷ (key "id"
          ∷ (encode_text entry.id
              ∷ (key "t"
                  ∷ (encode_float entry.temperature_c
                      ∷ (key "rh"
                          ∷ (encode_float entry.humidity_percent
                              ∷ (key "ok"
                                  ∷ (encode_boolean entry.valid
                                      ∷ (close_container ∷ sht20_calls left entries)))))))))

  unfoldable pub ds18b20_calls : ℕ → List (Ds18b20 F) → List (Call F)
  ds18b20_calls zero entries = []
  ds18b20_calls (suc left) [] = []
  ds18b20_calls (suc left) (entry ∷ entries) =
      create_map (some 2)
      ∷ (key "rom"
          ∷ (encode_text (hex entry.rom_code)
              ∷ (key "t"
                  ∷ (encode_float entry.temperature_c
                      ∷ (close_container ∷ ds18b20_calls left entries)))))

  unfoldable pub duty_calls : List ℕ → List (Call F)
  duty_calls [] = []
  duty_calls (duty ∷ duties) = encode_uint duty ∷ duty_calls duties

  -- One round of the loop over the two expanders.
  abbrev pub mcp_calls : List ℕ → Mcp23017 → List (Call F)
  mcp_calls name mcp =
      encode_text name
      ∷ (create_map (some 2)
          ∷ (key "A"
              ∷ (encode_uint mcp.port_a
                  ∷ (key "B" ∷ (encode_uint mcp.port_b ∷ (close_container ∷ []))))))

  unfoldable pub sensor_update_calls : Update F → List (Call F)
  sensor_update_calls msg =
      header (codes "sensor_update") msg.timestamp_ms msg.sequence_id
      ++ (key "sht20"
          ∷ (create_array msg.sht20_count
              ∷ (sht20_calls msg.sht20_count msg.sht20
                  ++ (close_container
                      ∷ (key "ds18b20"
                          ∷ (create_array msg.ds18b20_count
                              ∷ (ds18b20_calls msg.ds18b20_count msg.ds18b20
                                  ++ (close_container
                                      ∷ (key "gpio"
                                          ∷ (create_map (some 2)
                                              ∷ (mcp_calls (codes "mcp0") (expander 0 msg.mcp)
                                                  ++ (mcp_calls (codes "mcp1") (expander 1 msg.mcp)
                                                      ++ (close_container
                                                          ∷ (key "pwm"
                                                            ∷ (create_map (some 1)
                                                            ∷ (key "pca9685"
                                                            ∷ (create_map (some 2)
                                                            ∷ (key "freq"
                                                            ∷ (encode_uint msg.frequency_hz
                                                            ∷ (key "duty"
                                                            ∷ (create_array 16
                                                            ∷ (duty_calls msg.duty_cycle
                                                            ++ (close_container
                                                            ∷ (close_container
                                                            ∷ (close_container
                                                            ∷ (close_container
                                                            ∷ []))))))))))))))))))))))))))

  unfoldable pub encode_command_cbor_into :
      {E : Type 0} → Encoder E F → Command → ℕ → Option (List ℕ × ℕ)
  encode_command_cbor_into cbor msg buffer_len = encoded_all cbor (command_calls msg) buffer_len

  unfoldable pub encode_sensor_update_cbor_into :
      {E : Type 0} → Encoder E F → Update F → ℕ → Option (List ℕ × ℕ)
  encode_sensor_update_cbor_into cbor msg buffer_len =
      encoded_all cbor (sensor_update_calls msg) buffer_len
