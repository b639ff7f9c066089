-- ===== src/Node/Tasks/Sensors/Laws.antt =====
-- The task stays within its arrays, and what it keeps has its sizes.
use n32r.Prelude.{
  refl, Bool, List, Result, Result-cases, [], arith, choose, err, get_elem?, length, length-set,
  ltb, min, ok, some, suc, zero, Option-cases, ◌<◌, inl, inr, ℕ, ◌&&◌, ◌+◌, ◌==◌, ◌||◌, ◌∙◌, ◌∷◌,
  ◌≡◌, ◌≤◌, ◌<◌,
}
use mathlib.Core.Path.{subst}
use n32r.Prelude.Words.{add32}
use n32r.Node.DataModel.{Model}
use n32r.Node.DataModel.Bounds.{IsValid, op_sht20, op_ds18b20, run, run-IsValid}
use n32r.Node.Drivers.{Bus}
use n32r.Node.Drivers.Tca9548a.{Selection}
use n32r.Node.Drivers.Ds18b20.{ds18b20_start_conversion}
use n32r.Node.Tasks.Checked.{
  put, first_of, Always, bind-Always, get_elem?-Always, put-Always, first_of-Always,
}
use n32r.Node.Tasks.Sensors.{
  Ambient, Platform, Context, Round, SensorType, filtered, publish_reading, smoothed, scan_from,
  onewire_bus_scan, update_ambient_from, update_ambient_readings, ambient_sensor_read,
  ensure_ds18b20_devices, kick_ds18b20_conversion, ds18b20_conversion_complete, read_from,
  read_ds18b20_temperatures, sensors_round, sensors_task_start,
}

-- What the task keeps has its sizes.
pub record IsKept {F : Type 0} (ctx : Context F) : Type 0 where
  pub devices : length ctx.ds_devices ≡ 4
  pub used : ctx.ds_count ≤ 4
  pub temps : length ctx.ambient_temp_ema ≡ 2
  pub hums : length ctx.ambient_hum_ema ≡ 2
  pub flags : length ctx.ambient_initialized ≡ 2

-- Both states are well-formed.
abbrev pub AreKept : {F : Type 0} → Context F × Model F → Type 0
AreKept (ctx, model) = IsKept ctx × IsValid model

-- So are they beside what is remembered of the multiplexer.
abbrev pub RoundIsKept : {F : Type 0} → Selection × (Context F × Model F) → Type 0
RoundIsKept (last, state) = AreKept state

-- A scan fills places of the array only, and counts them.
abbrev Scanned : ℕ → ℕ → ℕ × List (List ℕ) → Type 0
Scanned most places (count, devices) = (count ≤ most) × (length devices ≡ places)

scan_from-Scanned :
    (left i : ℕ) (found devices : List (List ℕ))
    → i + left ≤ length devices
    → Always (Scanned (i + left) (length devices)) (scan_from left i found devices)
unfolding scan_from
scan_from-Scanned zero i found devices fits = omega arith
scan_from-Scanned (suc left) i [] devices fits = omega arith
scan_from-Scanned (suc left) i (rom_code ∷ found) devices fits =
    bind-Always (λ devices'. length devices' ≡ length devices)
      (Scanned (i + suc left) (length devices)) (put devices i rom_code)
      (put-Always devices i rom_code (omega arith)) _
      (λ devices' same.
        subst (λ n. Always (Scanned n (length devices)) (scan_from left (i + 1) found devices'))
          (omega arith)
          (subst (λ n. Always (Scanned (i + 1 + left) n) (scan_from left (i + 1) found devices'))
            same (scan_from-Scanned left (i + 1) found devices' (omega arith))))

-- The same for what the scan reports.
abbrev Reported : ℕ → ℕ → Result ℕ × List (List ℕ) → Type 0
Reported most places (ok count, devices) = (count ≤ most) × (length devices ≡ places)
Reported most places (err e, devices) = length devices ≡ places

onewire_bus_scan-Reported :
    (searched : Result (List (List ℕ))) (max_devices : ℕ) (devices : List (List ℕ))
    → max_devices ≤ length devices
    → Always (Reported max_devices (length devices)) (onewire_bus_scan searched max_devices devices)
unfolding onewire_bus_scan
onewire_bus_scan-Reported (ok found) max_devices devices fits =
    bind-Always (Scanned (0 + max_devices) (length devices)) (Reported max_devices (length devices))
      (scan_from max_devices 0 found devices)
      (scan_from-Scanned max_devices 0 found devices (omega arith)) _
      (λ (count, devices') (few, same). (omega arith, same))
onewire_bus_scan-Reported (err e) max_devices devices fits = refl

module _ {F : Type 0} (platform : Platform F) where
  smoothed-IsKept :
      (i : ℕ) (reading : Result (F × F)) (temp_ema hum_ema : F) (initialized : Bool)
      (ctx : Context F)
      → IsKept ctx
      → IsKept (smoothed platform i reading temp_ema hum_ema initialized ctx).0
  unfolding smoothed
  smoothed-IsKept i (ok (temp, hum)) temp_ema hum_ema initialized ctx k = record {
    devices = k.devices;
    used = k.used;
    temps = length-set ctx.ambient_temp_ema i _ ∙ k.temps;
    hums = length-set ctx.ambient_hum_ema i _ ∙ k.hums;
    flags = length-set ctx.ambient_initialized i _ ∙ k.flags;
  }
  smoothed-IsKept i (err e) temp_ema hum_ema initialized ctx k = k

  -- A place that an array has.
  reads-Always :
      {A : Type 0} (xs : List A) (i : ℕ)
      → i < 2
      → length xs ≡ 2
      → Always (λ v. Unit {0}) (get_elem? xs i)
  reads-Always xs i small size = elim (Option-cases (get_elem? xs i)) [
    | inl e ↦
        absurd
          (subst (Always (λ v. get_elem? xs i ≡ some v)) e (get_elem?-Always xs i (omega arith)))
    | inr (v, e) ↦ rw e tt
  ]

  filtered-IsKept :
      (i : ℕ) (reading : Result (F × F)) (ctx : Context F)
      → i < 2
      → IsKept ctx
      → Always (λ (ctx', _). IsKept ctx') (filtered platform i reading ctx)
  unfolding filtered
  filtered-IsKept i reading ctx small k =
      bind-Always (λ v. Unit {0}) (λ (ctx', _). IsKept ctx') (get_elem? ctx.ambient_temp_ema i)
        (reads-Always ctx.ambient_temp_ema i small k.temps) _
        (λ temp_ema _.
          bind-Always (λ v. Unit {0}) (λ (ctx', _). IsKept ctx') (get_elem? ctx.ambient_hum_ema i)
            (reads-Always ctx.ambient_hum_ema i small k.hums) _
            (λ hum_ema _.
              bind-Always (λ v. Unit {0}) (λ (ctx', _). IsKept ctx')
                (get_elem? ctx.ambient_initialized i)
                (reads-Always ctx.ambient_initialized i small k.flags) _
                (λ initialized _. smoothed-IsKept i reading temp_ema hum_ema initialized ctx k)))

  publish-AreKept :
      (locked : Bool) (i : ℕ) (type : SensorType) (reading : Result (F × F)) (ctx : Context F)
      (model : Model F)
      → i < 2
      → IsKept ctx
      → IsValid model
      → Always AreKept (publish_reading platform locked i type reading ctx model)
  unfolding publish_reading run
  publish-AreKept locked i type reading ctx model small k v =
      bind-Always (λ (ctx', _). IsKept ctx') AreKept (filtered platform i reading ctx)
        (filtered-IsKept i reading ctx small k) _
        (λ (ctx', values) k'. (k', run-IsValid (op_sht20 locked i _) v))

  update_ambient-AreKept :
      (bus : Bus) (round : Round) (left i : ℕ) (sensors : List Ambient) (last : Selection)
      (ctx : Context F) (model : Model F)
      → i + left ≤ 2
      → left ≤ length sensors
      → IsKept ctx
      → IsValid model
      → Always RoundIsKept (update_ambient_from platform bus round left i sensors last ctx model)
  unfolding update_ambient_from
  update_ambient-AreKept bus round zero i sensors last ctx model room there k v = (k, v)
  update_ambient-AreKept bus round (suc left) i [] last ctx model room there k v = omega arith
  update_ambient-AreKept bus round (suc left) i (sensor ∷ sensors) last ctx model room there k v =
      let (reading, last') =
        ambient_sensor_read platform bus sensor (round.first i) (round.second i) last in
      bind-Always AreKept RoundIsKept
        (publish_reading platform round.locked i sensor.type reading ctx model)
        (publish-AreKept round.locked i sensor.type reading ctx model (omega arith) k v) _
        (λ (ctx', model') (k', v').
          update_ambient-AreKept bus round left (i + 1) sensors last' ctx' model' (omega arith)
            (omega arith) k' v')

  counted-IsKept :
      (round : Round) (ctx : Context F) (scanned : Result ℕ) (devices : List (List ℕ))
      → IsKept ctx
      → Reported 4 (length ctx.ds_devices) (scanned, devices)
      → IsKept (record ctx {
        ds_devices = devices;
        ds_count = elim scanned [ ok count ↦ count | err e ↦ ctx.ds_count ];
        next_ds_scan_tick = add32 round.scan_tick (platform.to_ticks 60000);
      })
  counted-IsKept round ctx (ok count) devices k (few, same) = record {
    devices = same ∙ k.devices;
    used = few;
    temps = k.temps;
    hums = k.hums;
    flags = k.flags;
  }
  counted-IsKept round ctx (err e) devices k same = record {
    devices = same ∙ k.devices;
    used = k.used;
    temps = k.temps;
    hums = k.hums;
    flags = k.flags;
  }

  ensure-IsKept :
      (round : Round) (ctx : Context F)
      → IsKept ctx
      → Always IsKept (ensure_ds18b20_devices platform round ctx)
  unfolding ensure_ds18b20_devices
  ensure-IsKept round ctx k =
      choose (Always IsKept) (ltb 0 ctx.ds_count && ltb round.scan_tick ctx.next_ds_scan_tick)
        (λ _. k)
        (λ _.
          bind-Always (Reported 4 (length ctx.ds_devices)) IsKept
            (onewire_bus_scan round.searched 4 ctx.ds_devices)
            (onewire_bus_scan-Reported round.searched 4 ctx.ds_devices (omega arith)) _
            (λ (scanned, devices') reported. counted-IsKept round ctx scanned devices' k reported))

  kick-IsKept :
      (round : Round) (ctx : Context F)
      → IsKept ctx
      → Always IsKept (kick_ds18b20_conversion platform round ctx)
  unfolding kick_ds18b20_conversion
  kick-IsKept round ctx k =
      choose (Always IsKept) (ctx.ds_count == 0 || ctx.ds_conversion_pending) (λ _. k)
        (λ _.
          bind-Always (λ devices. length devices ≡ ctx.ds_count) IsKept
            (first_of ctx.ds_count ctx.ds_devices)
            (first_of-Always ctx.ds_count ctx.ds_devices (omega arith)) _
            (λ devices _.
              elim (Result-cases (ds18b20_start_conversion round.kick_wire devices 12)) [
                | inl (_, e) ↦ rw e (record {
                  devices = k.devices;
                  used = k.used;
                  temps = k.temps;
                  hums = k.hums;
                  flags = k.flags;
                })
                | inr (error, e) ↦ rw e k
              ]))

  read_from-IsValid :
      (round : Round) (left i : ℕ) (devices : List (List ℕ)) (model : Model F)
      → left ≤ length devices
      → IsValid model
      → Always IsValid (read_from platform round left i devices model)
  unfolding read_from run
  read_from-IsValid round zero i devices model there v = v
  read_from-IsValid round (suc left) i [] model there v = omega arith
  read_from-IsValid round (suc left) i (rom ∷ devices) model there v =
      read_from-IsValid round left (i + 1) devices _ (omega arith)
        (run-IsValid (op_ds18b20 round.locked i _) v)

  read-AreKept :
      (round : Round) (ctx : Context F) (model : Model F)
      → IsKept ctx
      → IsValid model
      → Always AreKept (read_ds18b20_temperatures platform round ctx model)
  unfolding read_ds18b20_temperatures
  read-AreKept round ctx model k v =
      choose (Always AreKept) (ds18b20_conversion_complete platform round ctx)
        (λ _.
          bind-Always IsValid AreKept
            (read_from platform round (min ctx.ds_count 4) 0 ctx.ds_devices model)
            (read_from-IsValid round (min ctx.ds_count 4) 0 ctx.ds_devices model (omega arith) v) _
            (λ model' v'. (
              record {
                devices = k.devices;
                used = k.used;
                temps = k.temps;
                hums = k.hums;
                flags = k.flags;
              },
              v',
            )))
        (λ _. (k, v))

  -- A round of the task, whatever the buses answer and whatever the ticks are, makes no access out of the bounds of
  -- its arrays and of the table of the two ambient sensors; it keeps the sizes of its arrays, counts at most four
  -- devices, and keeps the data model well-formed.
  pub sensors_round-AreKept :
      (bus : Bus) (round : Round) (sensors : List Ambient) (last : Selection) (ctx : Context F)
      (model : Model F)
      → length sensors ≡ 2
      → IsKept ctx
      → IsValid model
      → Always RoundIsKept (sensors_round platform bus round sensors last ctx model)
  unfolding sensors_round update_ambient_readings
  sensors_round-AreKept bus round sensors last ctx model table k v =
      bind-Always RoundIsKept RoundIsKept
        (update_ambient_from platform bus round (min ctx.ambient_count 2) 0 sensors last ctx model)
        (update_ambient-AreKept bus round (min ctx.ambient_count 2) 0 sensors last ctx model
          (omega arith) (omega arith) k v)
        _
        (λ (last', (ctx1, model1)) (k1, v1).
          bind-Always IsKept RoundIsKept (ensure_ds18b20_devices platform round ctx1)
            (ensure-IsKept round ctx1 k1) _
            (λ ctx2 k2.
              bind-Always AreKept RoundIsKept (read_ds18b20_temperatures platform round ctx2 model1)
                (read-AreKept round ctx2 model1 k2 v1) _
                (λ (ctx3, model2) (k3, v3).
                  bind-Always IsKept RoundIsKept (kick_ds18b20_conversion platform round ctx3)
                    (kick-IsKept round ctx3 k3) _ (λ ctx4 k4. (k4, v3)))))

  -- The task starts within its arrays, and with their sizes.
  sensors_task_start-IsKept :
      (round : Round) (now ambient_count : ℕ)
      → Always IsKept (sensors_task_start platform round now ambient_count)
  unfolding sensors_task_start
  sensors_task_start-IsKept round now ambient_count =
      bind-Always IsKept IsKept _
        (ensure-IsKept round _
          (record { devices = refl; used = omega arith; temps = refl; hums = refl; flags = refl }))
        _ (λ ctx k. kick-IsKept round ctx k)
