-- ===== src/Node/Tasks/Sensors.antt =====
-- sensor_node/main/tasks/t_sensors.c, the task that reads the sensors, in the build for the SHT20. Floats are
-- elements of a type; the filter step, the synthetic temperature, NAN and zero are parameters. The ticks and the
-- answers of the buses in one round are an argument. `none` is an access to an array that is out of bounds.
pub mod Laws
pub mod First
use n32r.Prelude.{
  ℕ, zero, suc, ◌+◌, ◌-◌, ◌%◌, ◌==◌, Bool, true, false, not, ◌&&◌, ◌||◌, Option, none, some, List,
  [], ◌∷◌, ◌++◌, if◌then◌else◌, get_elem?, set, replicate, length, ltb, leb, take, Result, Status,
  ok, err, not_supported, min, ◌^◌,
}
use n32r.Node.Tasks.Checked.{◌>>=◌, put, first_of}
use n32r.Prelude.Words.{u32_mod, add32, sub32}
use n32r.Prelude.Bytes.{codes}
use n32r.Proto.Printf.{decimal}
use n32r.Node.DataModel.{Model, Sht20, Ds18b20, set_sht20, set_ds18b20}
use n32r.Node.Drivers.{Bus, Write}
use n32r.Node.Drivers.Tca9548a.{Channel, Selection, tca9548a_select}
use n32r.Node.Drivers.Sht20.{Attempt, sht20_read_temperature_humidity}
use n32r.Node.Drivers.Ds18b20.{
  Wire, ds18b20_start_conversion, ds18b20_conversion_time_ms, ds18b20_check_conversion,
  ds18b20_read_temperature,
}

pub data SensorType : Type 0 where
  sht20 : SensorType
  bme280 : SensorType
  no_sensor : SensorType

pub record Ambient : Type 0 where
  pub type : SensorType
  pub address : ℕ
  pub mux_address : ℕ
  pub mux_channel : Channel

-- `prev + 0.25 * (sample - prev)`, the words of the two sensors as floats, NAN, zero, and the synthetic value of a
-- tick and a device; milliseconds as ticks.
pub record Platform (F : Type 0) : Type 0 where
  pub step : F → F → F
  pub temperature : ℕ → F
  pub humidity : ℕ → F
  pub sixteenths : ℕ → F
  pub nan : F
  pub zero_float : F
  pub synthetic : ℕ → ℕ → F
  pub to_ticks : ℕ → ℕ

-- `sensors_task_ctx_t`; a device is its code.
pub record Context (F : Type 0) : Type 0 where
  pub ds_devices : List (List ℕ)
  pub ds_count : ℕ
  pub ds_conversion_pending : Bool
  pub ds_ready_tick : ℕ
  pub next_ds_scan_tick : ℕ
  pub ambient_count : ℕ
  pub ambient_temp_ema : List F
  pub ambient_hum_ema : List F
  pub ambient_initialized : List Bool

-- What one round meets: whether the mutex is taken in time, the ticks that are read, once for each purpose, the
-- attempts to read each ambient sensor, the devices that a new search on the one-wire bus gives, and its answers.
pub record Round : Type 0 where
  pub locked : Bool
  pub scan_tick : ℕ
  pub read_tick : ℕ
  pub kick_tick : ℕ
  pub first : ℕ → ℕ → Attempt
  pub second : ℕ → ℕ → Attempt
  pub searched : Result (List (List ℕ))
  pub check_wire : Wire
  pub read_wire : ℕ → Wire
  pub kick_wire : Wire

abbrev pub sensor_name : SensorType → List ℕ
sensor_name sht20 = codes "SHT20"
sensor_name bme280 = codes "BME280"
sensor_name no_sensor = codes "AMBIENT"

-- The selected channel, unless the sensor has no multiplexer.
unfoldable pub select_ambient_channel : Bus → Ambient → Selection → Status × Selection
select_ambient_channel bus sensor last = elim sensor.mux_channel [
  | none ↦ (ok tt, last)
  | some channel ↦
      if sensor.mux_address == 0
      then (ok tt, last)
      else (let (status, (last', _)) = tca9548a_select bus sensor.mux_address (some channel) last in
          (status, last'))
]

unfoldable pub ambient_sensor_init : Bus → Ambient → Selection → Status × Selection
ambient_sensor_init bus sensor last = elim sensor.type [
  | sht20 ↦ select_ambient_channel bus sensor last
  | bme280 ↦ (err not_supported, last)
  | no_sensor ↦ (err not_supported, last)
]

-- onewire_bus_manager.c: the devices that the search gives go into the array, from a place on. The place behind the
-- last, and the array.
unfoldable pub scan_from : ℕ → ℕ → List (List ℕ) → List (List ℕ) → Option (ℕ × List (List ℕ))
scan_from zero i found devices = some (i, devices)
scan_from (suc left) i [] devices = some (i, devices)
scan_from (suc left) i (rom_code ∷ found) devices =
    put devices i rom_code >>= λ devices'. scan_from left (i + 1) found devices'

-- The number of devices, and the array. The search is the outcome of `onewire_new_device_iter` with the devices that
-- the iterator gives.
unfoldable pub onewire_bus_scan :
    Result (List (List ℕ)) → ℕ → List (List ℕ) → Option (Result ℕ × List (List ℕ))
onewire_bus_scan searched max_devices devices = elim searched [
  | err e ↦ some (err e, devices)
  | ok found ↦ do
    (count, devices') ← scan_from max_devices 0 found devices
    some (ok count, devices')
]

module _ {F : Type 0} (platform : Platform F) where
  unfoldable pub ema_update : F → F → Bool → F × Bool
  ema_update prev sample initialized =
      if not initialized then (sample, true) else (platform.step prev sample, initialized)

  unfoldable pub ambient_sensor_read :
      Bus → Ambient → (ℕ → Attempt) → (ℕ → Attempt) → Selection → Result (F × F) × Selection
  ambient_sensor_read bus sensor first second last = elim sensor.type [
    | sht20 ↦
        let (status, last') = select_ambient_channel bus sensor last in
        (
          elim status [
            | err e ↦ err e
            | ok _ ↦
                sht20_read_temperature_humidity platform.temperature platform.humidity first second
          ],
          last',
        )
    | bme280 ↦ (err not_supported, last)
    | no_sensor ↦ (err not_supported, last)
  ]

  -- What a reading makes of the filters of its channel, given what they hold, and the two values that are published.
  unfoldable pub smoothed : ℕ → Result (F × F) → F → F → Bool → Context F → Context F × (F × F)
  smoothed i (ok (temp, hum)) temp_ema hum_ema initialized ctx =
      let (filtered_temp, initialized') = ema_update temp_ema temp initialized in
      let (filtered_hum, initialized'') = ema_update hum_ema hum initialized' in
      (
        record ctx {
          ambient_temp_ema = set ctx.ambient_temp_ema i filtered_temp;
          ambient_hum_ema = set ctx.ambient_hum_ema i filtered_hum;
          ambient_initialized = set ctx.ambient_initialized i initialized'';
        },
        (filtered_temp, filtered_hum),
      )
  smoothed i (err e) temp_ema hum_ema initialized ctx =
      (ctx, if not initialized then (platform.nan, platform.nan) else (temp_ema, hum_ema))

  -- The three arrays are read, and written at the same place.
  unfoldable pub filtered : ℕ → Result (F × F) → Context F → Option (Context F × (F × F))
  filtered i reading ctx = do
    temp_ema ← get_elem? ctx.ambient_temp_ema i
    hum_ema ← get_elem? ctx.ambient_hum_ema i
    initialized ← get_elem? ctx.ambient_initialized i
    some (smoothed i reading temp_ema hum_ema initialized ctx)

  abbrev pub is_ok : Result (F × F) → Bool
  is_ok (ok _) = true
  is_ok (err e) = false

  unfoldable pub publish_reading :
      Bool → ℕ → SensorType → Result (F × F) → Context F → Model F → Option (Context F × Model F)
  publish_reading locked i type reading ctx model = do
    (ctx', (temp, hum)) ← filtered i reading ctx
    some (
      ctx',
      set_sht20 locked i
          (record {
            id = take 15 (sensor_name type ++ (codes "_" ++ decimal (i + 1)));
            temperature_c = temp;
            humidity_percent = hum;
            valid = is_ok reading;
          })
          model,
    )

  -- The sensors from a number on, `left` of them.
  unfoldable pub update_ambient_from :
      Bus
      → Round
      → ℕ
      → ℕ
      → List Ambient
      → Selection
      → Context F
      → Model F
      → Option (Selection × (Context F × Model F))
  update_ambient_from bus round zero i sensors last ctx model = some (last, (ctx, model))
  update_ambient_from bus round (suc left) i [] last ctx model = none
  update_ambient_from bus round (suc left) i (sensor ∷ sensors) last ctx model =
      let (reading, last') = ambient_sensor_read bus sensor (round.first i) (round.second i) last in
      publish_reading round.locked i sensor.type reading ctx model >>= λ (ctx', model').
      update_ambient_from bus round left (i + 1) sensors last' ctx' model'

  unfoldable pub update_ambient_readings :
      Bus
      → Round
      → List Ambient
      → Selection
      → Context F
      → Model F
      → Option (Selection × (Context F × Model F))
  update_ambient_readings bus round sensors last ctx model =
      update_ambient_from bus round (min ctx.ambient_count 2) 0 sensors last ctx model

  -- A scan at most every minute, unless there is no device. One that fails leaves the devices as they are.
  unfoldable pub ensure_ds18b20_devices : Round → Context F → Option (Context F)
  ensure_ds18b20_devices round ctx =
      if ltb 0 ctx.ds_count && ltb round.scan_tick ctx.next_ds_scan_tick then some ctx else (do
        (scanned, devices) ← onewire_bus_scan round.searched 4 ctx.ds_devices
        some (record ctx {
          ds_devices = devices;
          ds_count = elim scanned [ ok count ↦ count | err e ↦ ctx.ds_count ];
          next_ds_scan_tick = add32 round.scan_tick (platform.to_ticks 60000);
        }))

  unfoldable pub kick_ds18b20_conversion : Round → Context F → Option (Context F)
  kick_ds18b20_conversion round ctx =
      if ctx.ds_count == 0 || ctx.ds_conversion_pending then some ctx else (do
        devices ← first_of ctx.ds_count ctx.ds_devices
        some (elim (ds18b20_start_conversion round.kick_wire devices 12) [
          | err e ↦ ctx
          | ok _ ↦ record ctx {
            ds_ready_tick =
                add32 round.kick_tick (platform.to_ticks (ds18b20_conversion_time_ms 12));
            ds_conversion_pending = true;
          }
        ]))

  -- The difference of the ticks is read as a signed number.
  unfoldable pub ds18b20_conversion_complete : Round → Context F → Bool
  ds18b20_conversion_complete round ctx =
      ctx.ds_conversion_pending
      && (ltb (sub32 round.read_tick ctx.ds_ready_tick) (2 ^ 31)
          || (elim (ds18b20_check_conversion round.check_wire) [
            | ok ready ↦ ready
            | err e ↦ false
          ]))

  -- The devices from a number on, `left` of them.
  unfoldable pub read_from : Round → ℕ → ℕ → List (List ℕ) → Model F → Option (Model F)
  read_from round zero i devices model = some model
  read_from round (suc left) i [] model = none
  read_from round (suc left) i (rom_code ∷ devices) model =
      let temp : F =
        elim (ds18b20_read_temperature platform.sixteenths (round.read_wire i) rom_code) [
          | ok temp ↦ temp
          | err e ↦ platform.synthetic round.read_tick i
        ] in
      read_from round left (i + 1) devices
        (set_ds18b20 round.locked i (record { rom_code = rom_code; temperature_c = temp }) model)

  unfoldable pub read_ds18b20_temperatures :
      Round → Context F → Model F → Option (Context F × Model F)
  read_ds18b20_temperatures round ctx model =
      if ds18b20_conversion_complete round ctx
      then (do
        model' ← read_from round (min ctx.ds_count 4) 0 ctx.ds_devices model
        some (record ctx { ds_conversion_pending = false }, model'))
      else some (ctx, model)

  -- What runs before the loop, up to the first conversion. The outcomes of `ambient_sensor_init` are only logged.
  unfoldable pub sensors_task_start : Round → ℕ → ℕ → Option (Context F)
  sensors_task_start round now ambient_count = do
    ctx ← ensure_ds18b20_devices round (record {
      ds_devices = replicate 4 (replicate 8 0);
      ds_count = 0;
      ds_conversion_pending = false;
      ds_ready_tick = 0;
      next_ds_scan_tick = now;
      ambient_count = min ambient_count 2;
      ambient_temp_ema = replicate 2 platform.zero_float;
      ambient_hum_ema = replicate 2 platform.zero_float;
      ambient_initialized = replicate 2 false;
    })
    kick_ds18b20_conversion round ctx

  -- One round of the loop.
  unfoldable pub sensors_round :
      Bus
      → Round
      → List Ambient
      → Selection
      → Context F
      → Model F
      → Option (Selection × (Context F × Model F))
  sensors_round bus round sensors last ctx model = do
    (last', (ctx1, model1)) ← update_ambient_readings bus round sensors last ctx model
    ctx2 ← ensure_ds18b20_devices round ctx1
    (ctx3, model2) ← read_ds18b20_temperatures round ctx2 model1
    ctx4 ← kick_ds18b20_conversion round ctx3
    some (last', (ctx4, model2))
