-- ===== src/Proto/Decode/Laws.antt =====
-- A command that was printed is decoded to itself.
use n32r.Prelude.{
  Bool, List, choose, false, if◌then◌else◌, map, none, refl, some, true, ℕ, ◌<◌, ◌==◌, ◌≡◌, ap,
  Option, ◌∙◌, not, arith,
}
use n32r.Prelude.Words.{u32_mod}
use n32r.Prelude.Bytes.{codes, bytes_eq}
use n32r.Proto.{Command, cleared}
use n32r.Proto.Document.{Document, num, str, obj, Fields, end, field}
use n32r.Proto.Json.{device_name, port_name}
use n32r.Proto.Schema.{
  optional, command_document, command_tail, pwm_freq_document, write_gpio_document,
  set_pwm_document,
}
use n32r.Proto.Cjson.{Cjson, IsCjson, find, map_option, lower}
use n32r.Proto.Decode.{
  decode_set_pwm, decode_pwm_freq, decode_write_gpio, string_of, is_mcp1, is_port_b, u32_at, u16_at,
  one_if, command_of,
}

-- The numbers fit the types of the struct.
pub record IsSent (msg : Command) : Type 0 where
  pub timestamp_ms : msg.timestamp_ms < u32_mod
  pub sequence_id : msg.sequence_id < u32_mod
  pub channel : msg.channel < 256
  pub duty_cycle : msg.duty_cycle < 65536
  pub pwm_frequency : msg.pwm_frequency < 65536
  pub mask : msg.mask < 65536
  pub value : msg.value < 65536

-- What arrives: the parts that are flagged, with the expander and the port as 0 or 1, and zero elsewhere.
abbrev pub received : Command → Command
received msg = record msg {
  channel = if msg.has_pwm_update then msg.channel else 0;
  duty_cycle = if msg.has_pwm_update then msg.duty_cycle else 0;
  pwm_frequency = if msg.has_pwm_frequency then msg.pwm_frequency else 0;
  device_index = if msg.has_gpio_write then one_if (not (msg.device_index == 0)) else 0;
  port = if msg.has_gpio_write then one_if (not (msg.port == 0)) else 0;
  mask = if msg.has_gpio_write then msg.mask else 0;
  value = if msg.has_gpio_write then msg.value else 0;
}

find-optional_ne :
    (test : Bool) (key name : List ℕ) (x : Document) (fs : Fields)
    → bytes_eq (map lower key) (map lower name) ≡ false
    → find key (optional test name x fs) ≡ find key fs
unfolding find
find-optional_ne false key name x fs e = refl
find-optional_ne true key name x fs e = rw e refl

find-optional_self :
    (test : Bool) (key : List ℕ) (x : Document) (fs : Fields)
    → bytes_eq (map lower key) (map lower key) ≡ true
    → find key fs ≡ none
    → find key (optional test key x fs) ≡ (if test then some x else none)
unfolding find
find-optional_self false key x fs e f = f
find-optional_self true key x fs e f = rw e refl

device_lem : (index : ℕ) → one_if (is_mcp1 (some (device_name index))) ≡ one_if (not (index == 0))
unfolding is_mcp1 bytes_eq
device_lem index =
    choose (λ (name : List ℕ). one_if (is_mcp1 (some name)) ≡ one_if (not (index == 0)))
      (index == 0) (λ e. rw e refl) (λ e. rw e refl)

port_lem : (port : ℕ) → one_if (is_port_b (some (port_name port))) ≡ one_if (not (port == 0))
unfolding is_port_b
port_lem port =
    choose (λ (name : List ℕ). one_if (is_port_b (some name)) ≡ one_if (not (port == 0)))
      (port == 0) (λ e. rw e refl) (λ e. rw e refl)

-- The parts of a command that are flagged are found in its document.
find-set_pwm :
    (msg : Command)
    → find (codes "set_pwm") (command_tail msg)
      ≡ (if msg.has_pwm_update then some (set_pwm_document msg) else none)
unfolding find bytes_eq
find-set_pwm msg = find-optional_self msg.has_pwm_update (codes "set_pwm") _ _ refl (
    find-optional_ne msg.has_pwm_frequency (codes "set_pwm") _ _ _ refl
    ∙ find-optional_ne msg.has_gpio_write (codes "set_pwm") _ _ _ refl)

find-pwm_freq :
    (msg : Command)
    → find (codes "pwm_freq") (command_tail msg)
      ≡ (if msg.has_pwm_frequency then some (pwm_freq_document msg) else none)
unfolding find bytes_eq
find-pwm_freq msg =
    find-optional_ne msg.has_pwm_update (codes "pwm_freq") _ _ _ refl
    ∙ find-optional_self msg.has_pwm_frequency (codes "pwm_freq") _ _ refl
        (find-optional_ne msg.has_gpio_write (codes "pwm_freq") _ _ _ refl)

find-write_gpio :
    (msg : Command)
    → find (codes "write_gpio") (command_tail msg)
      ≡ (if msg.has_gpio_write then some (write_gpio_document msg) else none)
unfolding find bytes_eq
find-write_gpio msg =
    find-optional_ne msg.has_pwm_update (codes "write_gpio") _ _ _ refl
    ∙ (find-optional_ne msg.has_pwm_frequency (codes "write_gpio") _ _ _ refl
        ∙ find-optional_self msg.has_gpio_write (codes "write_gpio") _ _ refl refl)

module _ {Node Double F : Type 0} (j : Cjson Node Double F) (node : Document → Node)
    (read_real : List ℕ → F) (laws : IsCjson j node read_real) where
  u8_member :
      (fs : Fields) (key : List ℕ) (n : ℕ)
      → find key fs ≡ some (num n)
      → n < 256
      → j.to_u8 (j.get_number_value (j.get_object_item (some (node (obj fs))) key)) ≡ n
  u8_member fs key n e h = rw (laws.get_member fs key, e) (laws.u8_node n h)

  pub u16_member :
      (fs : Fields) (key : List ℕ) (n : ℕ)
      → find key fs ≡ some (num n)
      → n < 65536
      → u16_at j (some (node (obj fs))) key ≡ n
  unfolding u16_at
  u16_member fs key n e h =
      ap (λ item. j.to_u16 (j.get_number_value item))
        (laws.get_member fs key ∙ ap (map_option node) e)
      ∙ laws.u16_node n h

  pub u32_member :
      (fs : Fields) (key : List ℕ) (n : ℕ)
      → find key fs ≡ some (num n)
      → n < u32_mod
      → u32_at j (some (node (obj fs))) key ≡ n
  unfolding u32_at
  u32_member fs key n e h =
      ap (λ item. j.to_u32 (j.get_number_value item))
        (laws.get_member fs key ∙ ap (map_option node) e)
      ∙ laws.u32_node n h

  pub string_member :
      (fs : Fields) (key s : List ℕ)
      → find key fs ≡ some (str s)
      → string_of j (j.get_object_item (some (node (obj fs))) key) ≡ some s
  unfolding string_of
  string_member fs key s e = rw (laws.get_member fs key, e) (laws.string_node s)

  set_pwm_lem :
      (test : Bool) (ch duty : ℕ) (msg : Command)
      → ch < 256
      → duty < 65536
      → decode_set_pwm j
          (map_option node (
            if test
            then some (obj (field (codes "ch") (num ch) (field (codes "duty") (num duty) end)))
            else none))
          msg
        ≡ (if test
            then record msg { channel = ch; duty_cycle = duty; has_pwm_update = true }
            else msg)
  unfolding decode_set_pwm find bytes_eq
  set_pwm_lem false ch duty msg h k = simp (laws.is_object_null)
  set_pwm_lem true ch duty msg h k =
      let fs = field (codes "ch") (num ch) (field (codes "duty") (num duty) end) in
      rw
        (
          laws.is_object_node (obj fs),
          u8_member fs (codes "ch") ch refl h,
          u16_member fs (codes "duty") duty refl k,
        )
        refl

  pwm_freq_lem :
      (test : Bool) (freq : ℕ) (msg : Command)
      → freq < 65536
      → decode_pwm_freq j
          (map_option node
            (if test then some (obj (field (codes "freq") (num freq) end)) else none))
          msg
        ≡ (if test then record msg { pwm_frequency = freq; has_pwm_frequency = true } else msg)
  unfolding decode_pwm_freq find bytes_eq
  pwm_freq_lem false freq msg h = simp (laws.is_object_null)
  pwm_freq_lem true freq msg h =
      let fs = field (codes "freq") (num freq) end in
      rw (laws.is_object_node (obj fs), u16_member fs (codes "freq") freq refl h) refl

  write_gpio_lem :
      (test : Bool) (index port mask value : ℕ) (msg : Command)
      → mask < 65536
      → value < 65536
      → decode_write_gpio j
          (map_option node (
            if test
            then some (
                obj (
                  field (codes "dev") (str (device_name index)) (
                    field
                      (codes "port")
                      (str (port_name port))
                      (field (codes "mask") (num mask) (field (codes "value") (num value) end)))))
            else none))
          msg
        ≡ (if test
            then record msg {
              device_index = one_if (not (index == 0));
              port = one_if (not (port == 0));
              mask = mask;
              value = value;
              has_gpio_write = true;
            }
            else msg)
  unfolding decode_write_gpio find bytes_eq
  write_gpio_lem false index port mask value msg h k = simp (laws.is_object_null)
  write_gpio_lem true index port mask value msg h k =
      let fs = field (codes "dev") (str (device_name index)) (
        field (codes "port") (str (port_name port))
          (field (codes "mask") (num mask) (field (codes "value") (num value) end))) in
      rw
        (
          laws.is_object_node (obj fs),
          string_member fs (codes "dev") (device_name index) refl,
          string_member fs (codes "port") (port_name port) refl,
          device_lem index,
          port_lem port,
          u16_member fs (codes "mask") mask refl h,
          u16_member fs (codes "value") value refl k,
        )
        refl

  pub has :
      (fs : Fields) (key : List ℕ) (found : Option Document)
      → find key fs ≡ found
      → j.get_object_item (some (node (obj fs))) key ≡ map_option node found
  has fs key found e = laws.get_member fs key ∙ ap (map_option node) e

  pub command_lem :
      (msg : Command)
      → IsSent msg
      → command_of j (some (node (command_document msg))) ≡ received msg
  unfolding command_of find bytes_eq
  command_lem msg sent =
      let fs : Fields = field (codes "v") (num 1) (
        field (codes "type") (str (codes "cmd")) (
          field (codes "ts") (num msg.timestamp_ms)
            (field (codes "seq") (num msg.sequence_id) (command_tail msg)))) in
      let base : Command = record cleared {
        timestamp_ms = msg.timestamp_ms;
        sequence_id = msg.sequence_id;
      } in
      rw
        (
          has fs (codes "write_gpio") _ (find-write_gpio msg),
          has fs (codes "pwm_freq") _ (find-pwm_freq msg),
          has fs (codes "set_pwm") _ (find-set_pwm msg),
          u32_member fs (codes "ts") msg.timestamp_ms refl sent.timestamp_ms,
          u32_member fs (codes "seq") msg.sequence_id refl sent.sequence_id,
          set_pwm_lem msg.has_pwm_update msg.channel msg.duty_cycle base sent.channel
              sent.duty_cycle,
          pwm_freq_lem msg.has_pwm_frequency msg.pwm_frequency _ sent.pwm_frequency,
          write_gpio_lem msg.has_gpio_write msg.device_index msg.port msg.mask msg.value _ sent.mask
              sent.value,
        )
        (ground arith)
