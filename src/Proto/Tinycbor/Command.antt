-- ===== src/Proto/Tinycbor/Command.antt =====
-- `proto_decode_command`, the branch for CBOR.
use n32r.Prelude.{ℕ, ◌%◌, ◌==◌, true, List, if◌then◌else◌, get_or}
use n32r.Prelude.Words.{u32_mod}
use n32r.Proto.{Command, cleared}
use n32r.Proto.Decode.{one_if}
use n32r.Proto.Tinycbor.{
  Reader, Read, read, ◌>>=◌, tried, always, is_key, or_zero, strict_key, part, outermost,
}

module _ {V Double : Type 0} (r : Reader V Double) where
  -- One round of the loop over `set_pwm`.
  unfoldable pub set_pwm_entry : V → Command → Read (V × Command)
  set_pwm_entry v msg = do
    (sub, v') ← strict_key r 7 v
    let n = or_zero (r.get_uint64 v')
    let msg' : Command =
        if is_key sub "ch"
        then record msg { channel = n % 256 }
        else (if is_key sub "duty" then record msg { duty_cycle = n % 65536 } else msg)
    read (r.advance v', msg')

  -- The status of the copy is not read.
  unfoldable pub pwm_freq_entry : V → Command → Read (V × Command)
  pwm_freq_entry v msg =
      let (_, (sub, v')) = r.copy_text_string 7 v in
      read (
        r.advance v',
        if is_key sub "freq"
            then record msg {
              pwm_frequency = or_zero (r.get_uint64 v') % 65536;
              has_pwm_frequency = true;
            }
            else msg,
      )

  -- The strings of `dev` and `port` are copied, so the position moves on twice.
  unfoldable pub write_gpio_entry : V → Command → Read (V × Command)
  write_gpio_entry v msg =
      let (_, (sub, v')) = r.copy_text_string 11 v in
      let n = or_zero (r.get_uint64 v') in
      if is_key sub "dev"
      then (let (_, (dev, after)) = r.copy_text_string 7 v' in
          read (r.advance after, record msg { device_index = one_if (is_key dev "mcp1") }))
      else (if is_key sub "port"
          then (let (_, (port, after)) = r.copy_text_string 1 v' in
              read (r.advance after, record msg { port = one_if (get_or port 0 0 == b'B') }))
          else (if is_key sub "mask"
              then read (r.advance v', record msg { mask = n % 65536 })
              else (if is_key sub "value"
                  then read (r.advance v', record msg { value = n % 65536 })
                  else read (r.advance v', msg))))

  -- One round of the outermost loop.
  unfoldable pub command_entry : ℕ → V → Command → Read (V × Command)
  command_entry fuel v msg = do
    (key, v') ← strict_key r 15 v
    if is_key key "ts"
        then (do
          n ← tried (r.get_uint64 v')
          read (r.advance v', record msg { timestamp_ms = n % u32_mod }))
        else (if is_key key "seq"
            then (do
              n ← tried (r.get_uint64 v')
              read (r.advance v', record msg { sequence_id = n % u32_mod }))
            else (if is_key key "set_pwm"
                then (do
                  (v'', msg') ← part r fuel always set_pwm_entry v' msg
                  read (v'', record msg' { has_pwm_update = true }))
                else (if is_key key "pwm_freq"
                    then part r fuel always pwm_freq_entry v' msg
                    else (if is_key key "write_gpio"
                        then (do
                          (v'', msg') ← part r fuel always write_gpio_entry v' msg
                          read (v'', record msg' { has_gpio_write = true }))
                        else read (r.advance v', msg)))))

  unfoldable pub decode_command_cbor : ℕ → List ℕ → Read Command
  decode_command_cbor fuel payload = outermost r fuel (command_entry fuel) payload cleared
