-- ===== src/Node/DataModel.antt =====
-- sensor_node/main/data_model.c: the readings of the node and the frame that is staged for sending.
-- A float is an element of a type that is never computed with, and the comparison of
-- `value_changed` is a parameter, as is the encoder. `locked` says whether the mutex was obtained in
-- time; pointers are not null.
pub mod Bounds
pub mod Publish
mod Tests
use n32r.Prelude.{
  ℕ, zero, suc, ◌+◌, ◌-◌, ◌%◌, Bool, true, false, not, ◌&&◌, ◌||◌, Option, none, some, List, [],
  ◌∷◌, ◌++◌, length, take, drop, set, replicate, ltb, ◌==◌, min, if◌then◌else◌, get_elem?,
}
use n32r.Prelude.Words.{u32_mod}
use n32r.Prelude.Bytes.{bytes_eq}

-- A string is its characters before the terminator.
pub record Sht20 (F : Type 0) : Type 0 where
  pub id : List ℕ
  pub temperature_c : F
  pub humidity_percent : F
  pub valid : Bool

pub record Ds18b20 (F : Type 0) : Type 0 where
  pub rom_code : List ℕ
  pub temperature_c : F

pub record Mcp23017 : Type 0 where
  pub port_a : ℕ
  pub port_b : ℕ

-- `proto_sensor_update_t`, with the fields of `pwm` in it.
pub record Update (F : Type 0) : Type 0 where
  pub timestamp_ms : ℕ
  pub sequence_id : ℕ
  pub sht20_count : ℕ
  pub sht20 : List (Sht20 F)
  pub ds18b20_count : ℕ
  pub ds18b20 : List (Ds18b20 F)
  pub mcp : List Mcp23017
  pub frequency_hz : ℕ
  pub duty_cycle : List ℕ

pub record Model (F : Type 0) : Type 0 where
  pub current : Update F
  pub last_published : Update F
  pub initialized : Bool
  pub encode_buffers : List (List ℕ)
  pub next_encode_index : ℕ

abbrev pub buffer_count : ℕ
buffer_count = 2

-- `index + 1` where that is more than the count.
abbrev pub grown : ℕ → ℕ → ℕ
grown index count = if ltb count (index + 1) then index + 1 else count

-- `memcmp` on the port states.
unfoldable pub mcp_eq : List Mcp23017 → List Mcp23017 → Bool
mcp_eq [] [] = true
mcp_eq [] (b ∷ last) = false
mcp_eq (a ∷ now) [] = false
mcp_eq (a ∷ now) (b ∷ last) = a.port_a == b.port_a && a.port_b == b.port_b && mcp_eq now last

module _ {F : Type 0} where
  -- After `memset` to zero; the argument is the float of all zero bits.
  unfoldable pub zeroed : F → Update F
  zeroed z = record {
    timestamp_ms = 0;
    sequence_id = 0;
    sht20_count = 0;
    sht20 =
        replicate 2 (record { id = []; temperature_c = z; humidity_percent = z; valid = false });
    ds18b20_count = 0;
    ds18b20 = replicate 4 (record { rom_code = replicate 8 0; temperature_c = z });
    mcp = replicate 2 (record { port_a = 0; port_b = 0 });
    frequency_hz = 0;
    duty_cycle = replicate 16 0;
  }

  unfoldable pub init : F → Model F
  init z = record {
    current = record (zeroed z) { frequency_hz = 500 };
    last_published = zeroed z;
    initialized = true;
    encode_buffers = replicate buffer_count [];
    next_encode_index = 0;
  }

  -- The guards that every setter starts with.
  abbrev pub guarded : Bool → Bool → (Update F → Update F) → Model F → Model F
  guarded locked in_range change model =
      if model.initialized && (in_range && locked)
      then record model { current = change model.current }
      else model

  unfoldable pub set_sht20 : Bool → ℕ → Sht20 F → Model F → Model F
  set_sht20 locked index reading = guarded locked (ltb index 2) (λ u. record u {
    sht20 = set u.sht20 index (record reading { id = take 15 reading.id });
    sht20_count = grown index u.sht20_count;
  })

  unfoldable pub set_ds18b20 : Bool → ℕ → Ds18b20 F → Model F → Model F
  set_ds18b20 locked index reading = guarded locked (ltb index 4) (λ u. record u {
    ds18b20 = set u.ds18b20 index reading;
    ds18b20_count = grown index u.ds18b20_count;
  })

  unfoldable pub set_gpio : Bool → ℕ → Mcp23017 → Model F → Model F
  set_gpio locked index ports =
      guarded locked (ltb index 2) (λ u. record u { mcp = set u.mcp index ports })

  -- The first `count` of `duty`, 16 at most, replace the first cycles.
  unfoldable pub set_pwm : Bool → List ℕ → ℕ → Model F → Model F
  set_pwm locked duty frequency_hz = guarded locked true (λ u. record u {
    duty_cycle = take 16 duty ++ drop (length (take 16 duty)) u.duty_cycle;
    frequency_hz = frequency_hz;
  })

  unfoldable pub set_timestamp : Bool → ℕ → Model F → Model F
  set_timestamp locked timestamp_ms =
      guarded locked true (λ u. record u { timestamp_ms = timestamp_ms })

  unfoldable pub increment_seq : Bool → Model F → Model F
  increment_seq locked =
      guarded locked true (λ u. record u { sequence_id = (u.sequence_id + 1) % u32_mod })

  module _ (value_changed : F → F → F → Bool) where
    -- The first loop of `data_model_should_publish`, with `count` readings left to compare.
    unfoldable pub sht20_changed : F → F → ℕ → List (Sht20 F) → List (Sht20 F) → Bool
    sht20_changed dt dh zero now last = false
    sht20_changed dt dh (suc count) [] last = false
    sht20_changed dt dh (suc count) (a ∷ now) [] = false
    sht20_changed dt dh (suc count) (a ∷ now) (b ∷ last) =
        value_changed a.temperature_c b.temperature_c dt
        || value_changed a.humidity_percent b.humidity_percent dh
        || sht20_changed dt dh count now last

    unfoldable pub ds18b20_changed : F → ℕ → List (Ds18b20 F) → List (Ds18b20 F) → Bool
    ds18b20_changed dt zero now last = false
    ds18b20_changed dt (suc count) [] last = false
    ds18b20_changed dt (suc count) (a ∷ now) [] = false
    ds18b20_changed dt (suc count) (a ∷ now) (b ∷ last) =
        value_changed a.temperature_c b.temperature_c dt || ds18b20_changed dt count now last

    unfoldable pub should_publish : Bool → F → F → Model F → Bool
    should_publish locked dt dh model =
        let now = model.current in
        let last = model.last_published in
        model.initialized
        && locked
        && (last.sequence_id == 0
            || sht20_changed dt dh now.sht20_count now.sht20 last.sht20
            || ds18b20_changed dt now.ds18b20_count now.ds18b20 last.ds18b20
            || not (mcp_eq now.mcp last.mcp)
            || not (bytes_eq now.duty_cycle last.duty_cycle)
            || not (now.frequency_hz == last.frequency_hz))

  -- The index of the staging buffer that was filled, and the model after it. The encoder gives what
  -- it leaves in the buffer, and whether it succeeded.
  unfoldable pub build : (Update F → List ℕ × Bool) → Bool → Model F → Option ℕ × Model F
  build encode locked model =
      if not (model.initialized && locked)
      then (none, model)
      else (let index = model.next_encode_index % buffer_count in
          let (bytes, encoded) = encode model.current in
          let model' : Model F = record model {
            encode_buffers = set model.encode_buffers index bytes;
          } in
          if encoded
          then (
            some index,
            record model' {
              last_published = model.current;
              next_encode_index = (index + 1) % buffer_count;
            },
          )
          else (none, model'))
