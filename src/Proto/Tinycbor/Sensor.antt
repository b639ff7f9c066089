-- ===== src/Proto/Tinycbor/Sensor.antt =====
-- `proto_decode_sensor_update`, the branch for CBOR. What is decoded so far of an array is the update with the
-- number of its entries that are read.
use n32r.Prelude.{
  ℕ, ◌+◌, ◌%◌, ◌==◌, false, List, Option, none, some, if◌then◌else◌, get_or, set, ltb, [],
}
use n32r.Prelude.Words.{u32_mod}
use n32r.Node.DataModel.{Sht20, Ds18b20, Mcp23017, Update, zeroed}
use n32r.Proto.Json.{expander}
use n32r.Proto.Tinycbor.{
  Reader, Read, read, ◌>>=◌, tried, always, is_key, or_zero, strict_key, within, part, outermost,
}
use n32r.Proto.Decode.{parse_rom}

-- The `i` in `mcp%zu`, as sscanf finds it.
abbrev pub ScanIndex : Type 0
ScanIndex = List ℕ → Option ℕ

module _ {V Double F : Type 0} (r : Reader V Double) (to_float : Double → F) where
  -- One round of the loop over a reading, which stands in its slot.
  unfoldable pub sht20_field : V → Sht20 F → Read (V × Sht20 F)
  sht20_field v slot = do
    (sub, v') ← strict_key r 7 v
    if is_key sub "id"
        then (let (_, (id, after)) = r.copy_text_string 15 v' in
            read (r.advance after, record slot { id = id }))
        else (if is_key sub "t"
            then read (r.advance v', record slot { temperature_c = to_float (r.get_double v') })
            else (if is_key sub "rh"
                then read
                    (r.advance v', record slot { humidity_percent = to_float (r.get_double v') })
                else (if is_key sub "ok"
                    then (do
                      ok ← tried (r.get_boolean v')
                      read (r.advance v', record slot { valid = ok }))
                    else read (r.advance v', slot))))

  unfoldable pub sht20_entry : ℕ → Sht20 F → V → Update F × ℕ → Read (V × (Update F × ℕ))
  sht20_entry fuel blank v (msg, idx) = do
    let slot = get_or msg.sht20 idx blank
    (v', slot') ← within r fuel always sht20_field v (record slot { valid = false })
    read (v', (record msg { sht20 = set msg.sht20 idx slot' }, idx + 1))

  unfoldable pub ds18b20_field : (List ℕ → Option ℕ) → V → Ds18b20 F → Read (V × Ds18b20 F)
  ds18b20_field scan_hex v slot = do
    (sub, v') ← strict_key r 7 v
    if is_key sub "rom"
        then (let (_, (rom, after)) = r.copy_text_string 16 v' in
            read (
              r.advance after,
              record slot { rom_code = (parse_rom scan_hex rom slot.rom_code).1 },
            ))
        else (if is_key sub "t"
            then read (r.advance v', record slot { temperature_c = to_float (r.get_double v') })
            else read (r.advance v', slot))

  unfoldable pub ds18b20_entry :
      (List ℕ → Option ℕ) → ℕ → Ds18b20 F → V → Update F × ℕ → Read (V × (Update F × ℕ))
  ds18b20_entry scan_hex fuel blank v (msg, idx) = do
    (v', slot') ← within r fuel always (ds18b20_field scan_hex) v (get_or msg.ds18b20 idx blank)
    read (v', (record msg { ds18b20 = set msg.ds18b20 idx slot' }, idx + 1))

module _ {V Double : Type 0} (r : Reader V Double) where
  unfoldable pub port_entry : V → Mcp23017 → Read (V × Mcp23017)
  port_entry v ports =
      let (_, (port_key, v')) = r.copy_text_string 1 v in
      let value = or_zero (r.get_uint64 v') % 65536 in
      read (
        r.advance v',
        if get_or port_key 0 0 == b'A'
            then record ports { port_a = value }
            else (if get_or port_key 0 0 == b'B' then record ports { port_b = value } else ports),
      )

  unfoldable pub gpio_entry : ScanIndex → ℕ → V → List Mcp23017 → Read (V × List Mcp23017)
  gpio_entry scan fuel v mcp =
      let (_, (dev_key, v')) = r.copy_text_string 5 v in
      let skipped = read (r.advance v', mcp) in
      elim (scan dev_key) [
        | none ↦ skipped
        | some idx ↦
            if ltb idx 2
            then (do
              (v'', ports) ← within r fuel always (port_entry) v' (expander idx mcp)
              read (v'', set mcp idx ports))
            else skipped
      ]

  unfoldable pub duty_entry : V → List ℕ × ℕ → Read (V × (List ℕ × ℕ))
  duty_entry v (duties, i) =
      read (r.advance v, (set duties i (or_zero (r.get_uint64 v) % 65536), i + 1))

module _ {V Double F : Type 0} (r : Reader V Double) where
  unfoldable pub pca9685_entry : ℕ → V → Update F → Read (V × Update F)
  pca9685_entry fuel v msg =
      let (_, (sub, v')) = r.copy_text_string 7 v in
      if is_key sub "freq"
      then read (r.advance v', record msg { frequency_hz = or_zero (r.get_uint64 v') % 65536 })
      else (if is_key sub "duty"
          then (do
            (v'', (duties, _)) ←
                within r fuel (λ (s : List ℕ × ℕ). ltb s.1 16) (duty_entry r) v' (msg.duty_cycle, 0)
            read (v'', record msg { duty_cycle = duties }))
          else read (r.advance v', msg))

  unfoldable pub pwm_entry : ℕ → V → Update F → Read (V × Update F)
  pwm_entry fuel v msg =
      let (_, (pwm_key, v')) = r.copy_text_string 11 v in
      if is_key pwm_key "pca9685"
      then within r fuel always (pca9685_entry fuel) v' msg
      else read (r.advance v', msg)

  module _ (to_float : Double → F) (scan_hex : List ℕ → Option ℕ) (scan : ScanIndex) (z : F) where
    -- One round of the outermost loop.
    unfoldable pub sensor_update_entry : ℕ → V → Update F → Read (V × Update F)
    sensor_update_entry fuel v msg = do
      (key, v') ← strict_key r 15 v
      if is_key key "ts"
          then (do
            n ← tried (r.get_uint64 v')
            read (r.advance v', record msg { timestamp_ms = n % u32_mod }))
          else (if is_key key "seq"
              then (do
                n ← tried (r.get_uint64 v')
                read (r.advance v', record msg { sequence_id = n % u32_mod }))
              else (if is_key key "sht20"
                  then (do
                    let blank : Sht20 F = record {
                      id = [];
                      temperature_c = z;
                      humidity_percent = z;
                      valid = false;
                    }
                    (v'', (msg', idx)) ←
                        part r fuel (λ (s : Update F × ℕ). ltb s.1 2)
                          (sht20_entry r to_float fuel blank) v' (msg, 0)
                    read (v'', record msg' { sht20_count = idx }))
                  else (if is_key key "ds18b20"
                      then (do
                        let blank : Ds18b20 F = record { rom_code = []; temperature_c = z }
                        (v'', (msg', idx)) ←
                            part r fuel (λ (s : Update F × ℕ). ltb s.1 4)
                              (ds18b20_entry r to_float scan_hex fuel blank) v' (msg, 0)
                        read (v'', record msg' { ds18b20_count = idx }))
                      else (if is_key key "gpio"
                          then (do
                            (v'', mcp) ← part r fuel always (gpio_entry r scan fuel) v' msg.mcp
                            read (v'', record msg { mcp = mcp }))
                          else (if is_key key "pwm"
                              then part r fuel always (pwm_entry fuel) v' msg
                              else read (r.advance v', msg))))))

    unfoldable pub decode_sensor_update_cbor : ℕ → List ℕ → Read (Update F)
    decode_sensor_update_cbor fuel payload =
        outermost r fuel (sensor_update_entry fuel) payload (zeroed z)
