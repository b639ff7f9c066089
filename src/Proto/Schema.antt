-- ===== src/Proto/Schema.antt =====
-- The documents of the two messages: which fields they have, in which order.
use n32r.Prelude.{ℕ, Bool, List, map, take, if◌then◌else◌}
use n32r.Prelude.Bytes.{codes}
use n32r.Node.DataModel.{Sht20, Ds18b20, Mcp23017, Update}
use n32r.Proto.{Command}
use n32r.Proto.Printf.{hex}
use n32r.Proto.Document.{Document, num, real, str, bool, arr, obj, items, Fields, end, field}
use n32r.Proto.Json.{expander, device_name, port_name}

abbrev pub optional : Bool → List ℕ → Document → Fields → Fields
optional test key x fs = if test then field key x fs else fs

abbrev pub set_pwm_document : Command → Document
set_pwm_document msg =
    obj (field (codes "ch") (num msg.channel) (field (codes "duty") (num msg.duty_cycle) end))

abbrev pub pwm_freq_document : Command → Document
pwm_freq_document msg = obj (field (codes "freq") (num msg.pwm_frequency) end)

abbrev pub write_gpio_document : Command → Document
write_gpio_document msg = obj (
    field (codes "dev") (str (device_name msg.device_index)) (
      field (codes "port") (str (port_name msg.port))
        (field (codes "mask") (num msg.mask) (field (codes "value") (num msg.value) end))))

abbrev pub command_tail : Command → Fields
command_tail msg = optional msg.has_pwm_update (codes "set_pwm") (set_pwm_document msg) (
    optional msg.has_pwm_frequency (codes "pwm_freq") (pwm_freq_document msg)
      (optional msg.has_gpio_write (codes "write_gpio") (write_gpio_document msg) end))

-- The document of a command.
abbrev pub command_document : Command → Document
command_document msg = obj (
    field (codes "v") (num 1) (
      field (codes "type") (str (codes "cmd")) (
        field (codes "ts") (num msg.timestamp_ms)
          (field (codes "seq") (num msg.sequence_id) (command_tail msg)))))

abbrev pub mcp_document : Mcp23017 → Document
mcp_document mcp = obj (field (codes "A") (num mcp.port_a) (field (codes "B") (num mcp.port_b) end))

module _ {F : Type 0} (print_float : F → List ℕ) where
  abbrev pub sht20_document : Sht20 F → Document
  sht20_document entry = obj (
      field (codes "id") (str entry.id) (
        field (codes "t") (real (print_float entry.temperature_c)) (
          field (codes "rh") (real (print_float entry.humidity_percent))
            (field (codes "ok") (bool entry.valid) end))))

  abbrev pub ds18b20_document : Ds18b20 F → Document
  ds18b20_document entry = obj (
      field (codes "rom") (str (hex entry.rom_code))
        (field (codes "t") (real (print_float entry.temperature_c)) end))

  -- The document of a sensor update.
  abbrev pub sensor_update_document : Update F → Document
  sensor_update_document msg = obj (
      field (codes "v") (num 1) (
        field (codes "type") (str (codes "sensor_update")) (
          field (codes "ts") (num msg.timestamp_ms) (
            field (codes "seq") (num msg.sequence_id) (
              field (codes "sht20")
                (arr (items (map sht20_document (take msg.sht20_count msg.sht20))))
                (field (codes "ds18b20")
                  (arr (items (map ds18b20_document (take msg.ds18b20_count msg.ds18b20))))
                  (field (codes "gpio")
                    (obj (
                      field (codes "mcp0") (mcp_document (expander 0 msg.mcp))
                        (field (codes "mcp1") (mcp_document (expander 1 msg.mcp)) end)))
                    (field (codes "pwm")
                      (obj (
                        field (codes "pca9685")
                          (obj (
                            field (codes "freq") (num msg.frequency_hz)
                              (field (codes "duty") (arr (items (map num msg.duty_cycle))) end)))
                          end))
                      end))))))))
