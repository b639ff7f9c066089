-- ===== src/Node/Tasks/Tests.antt =====
-- Tests of the tasks of the node.
use n32r.Prelude.{
  inl, inr, timeout, err, List, [], arith, false, get_or, none, ok, refl, replicate, some, suc,
  true, zero, ℕ, ◌+◌, ◌-◌, ◌/◌, ◌<◌, ◌∷◌, ◌≡◌,
}
use n32r.Node.DataModel.{Model, init}
use n32r.Node.DataModel.Bounds.{IsValid, run, run_all, run_all-IsValid, op_sht20, run-IsValid}
use n32r.Proto.Printf.{decimal, digits_from}
use n32r.Prelude.Bytes.{codes}
use n32r.Node.Drivers.{Bus}
use n32r.Node.Drivers.Tca9548a.{Selection}
use n32r.Node.Drivers.Sht20.{Attempt}
use n32r.Node.Drivers.Ds18b20.{
  Wire, ds18b20_start_conversion, configure_all, ds18b20_select_device, ds18b20_conversion_time_ms,
}
use n32r.Node.Tasks.Io.{IoCommand, set_pwm_duty, set_pwm_freq, write_gpio, IoMap, Pwm, drain}
use n32r.Node.Tasks.Io.Laws.{InStep, told, drain-InStep}
use n32r.Node.Tasks.Sensors.{
  sht20, Ambient, Platform, Context, Round, sensors_round, sensors_task_start,
  ensure_ds18b20_devices, kick_ds18b20_conversion, onewire_bus_scan, scan_from, publish_reading,
  filtered, smoothed, ema_update,
}
use n32r.Node.Tasks.Sensors.Laws.{IsKept, RoundIsKept, sensors_round-AreKept}
use n32r.Node.Tasks.Sensors.First.{Reading, Publishes, publish_all, first_published}
use n32r.Node.Tasks.Checked.{Always}

abbrev bus : Bus
bus = record { write = λ addr bytes. ok tt; read16 = λ addr reg. ok (3, 0) }

abbrev board : IoMap
board = record {
  is_pca9685 = true;
  pca9685_address = 64;
  mcp23017_first = 32;
  mcp23017_second = 33;
}

abbrev off : Pwm
off = record { s_pwm = replicate 16 0; s_pwm_freq = 500 }

small : (c : ℕ) → c < 16 → ◌≡◌ {A = ℕ} (get_or (replicate 16 0) c 0) 0
small c h = blank 16 c
  where
    blank : (n c : ℕ) → ◌≡◌ {A = ℕ} (get_or (replicate n 0) c 0) 0
    blank zero c = refl
    blank (suc n) zero = refl
    blank (suc n) (suc c) = blank n c

off-InStep : InStep off (λ c. 0)
off-InStep = (refl, λ c h. (omega (arith, small c h), omega (arith, small c h)))

abbrev queue : List IoCommand
queue =
    set_pwm_duty 19 1000 ∷ (set_pwm_freq 800 ∷ (write_gpio 0 1 15 5 ∷ (set_pwm_duty 3 4095 ∷ [])))

drain-InStep_example :
    InStep
      (drain bus (λ hz. hz) board queue off).0
      (told bus 64 (drain bus (λ hz. hz) board queue off).1 (λ c. 0))
drain-InStep_example =
    drain-InStep bus (λ hz. hz) board (λ bytes. refl) queue off (λ c. 0) refl (omega arith)
      off-InStep

-- Floats as numbers.
abbrev platform : Platform ℕ
platform = record {
  step = λ prev sample. prev + (sample - prev) / 4;
  temperature = λ n. n;
  humidity = λ n. n;
  sixteenths = λ n. n;
  nan = 65535;
  zero_float = 0;
  synthetic = λ ticks i. 21;
  to_ticks = λ ms. ms;
}

abbrev fresh : Context ℕ
fresh = record {
  ds_devices = replicate 4 (replicate 8 0);
  ds_count = 0;
  ds_conversion_pending = false;
  ds_ready_tick = 0;
  next_ds_scan_tick = 0;
  ambient_count = 2;
  ambient_temp_ema = replicate 2 0;
  ambient_hum_ema = replicate 2 0;
  ambient_initialized = replicate 2 false;
}

fresh-IsKept : IsKept fresh
fresh-IsKept = omega arith

abbrev attempt : Attempt
attempt = record { command = ok tt; raw_bytes = ok (96 ∷ (0 ∷ (0 ∷ []))); reset = ok tt }

abbrev wire : Wire
wire = record { reset = ok tt; write = λ bytes. ok tt; scratch = ok (80 ∷ (5 ∷ [])); bit = ok true }

abbrev round : Round
round = record {
  locked = true;
  scan_tick = 10;
  read_tick = 11;
  kick_tick = 12;
  first = λ i n. attempt;
  second = λ i n. attempt;
  searched = ok (replicate 8 40 ∷ []);
  check_wire = wire;
  read_wire = λ i. wire;
  kick_wire = wire;
}

abbrev sensor : ℕ → Ambient
sensor channel = record {
  type = sht20;
  address = 64;
  mux_address = 112;
  mux_channel = some channel;
}

abbrev sensors : List Ambient
sensors = sensor 0 ∷ (sensor 1 ∷ [])

abbrev unselected : Selection
unselected = record { last_addr = 0; last_channel = none; has_state = false }

abbrev blank_model : Model ℕ
blank_model = run_all [] (init 0)

ready : IsValid blank_model
ready = run_all-IsValid {F = ℕ} 0 []

sensors_round-AreKept_example :
    Always RoundIsKept (sensors_round platform bus round sensors unselected fresh blank_model)
sensors_round-AreKept_example =
    sensors_round-AreKept platform bus round sensors unselected fresh blank_model refl fresh-IsKept
      ready

-- The search gives one device, and the conversion starts.
abbrev started : Context ℕ
started = record fresh {
  ds_devices = replicate 8 40 ∷ replicate 3 (replicate 8 0);
  ds_count = 1;
  ds_conversion_pending = true;
  ds_ready_tick = 762;
  next_ds_scan_tick = 60010;
}

task_starts : sensors_task_start platform round 9 2 ≡ some started
unfolding sensors_task_start ensure_ds18b20_devices kick_ds18b20_conversion onewire_bus_scan
    scan_from ds18b20_start_conversion configure_all ds18b20_select_device
    ds18b20_conversion_time_ms
task_starts = refl

-- Of the second channel, and one that fails.
abbrev earlier : List (Reading ℕ)
earlier =
    record { channel = 1; type = sht20; result = ok (18, 40) }
    ∷ (record { channel = 0; type = sht20; result = err timeout } ∷ [])

abbrev heard : Context ℕ
heard = record started {
  ambient_temp_ema = 0 ∷ (18 ∷ []);
  ambient_hum_ema = 0 ∷ (10 ∷ []);
  ambient_initialized = false ∷ (true ∷ []);
}

abbrev heard_model : Model ℕ
heard_model =
    run
      (op_sht20 true 0 (record {
        id = codes "SHT20_1";
        temperature_c = 65535;
        humidity_percent = 65535;
        valid = false;
      }))
      (run
        (op_sht20 true 1 (record {
          id = codes "SHT20_2";
          temperature_c = 18;
          humidity_percent = 10;
          valid = true;
        }))
        blank_model)

heard-IsValid : IsValid heard_model
heard-IsValid = run-IsValid (op_sht20 true 0 _) (run-IsValid (op_sht20 true 1 _) ready)

earlier_published : publish_all platform earlier (started, blank_model) ≡ some (heard, heard_model)
unfolding publish_all publish_reading filtered smoothed ema_update run decimal digits_from
earlier_published = refl

first_published_example :
    Always
      (Publishes platform 0 20 12)
      (publish_reading platform true 0 sht20 (ok (20, 48)) heard heard_model)
first_published_example =
    first_published platform round 9 2 0 sht20 earlier 20 48 started heard blank_model heard_model
      (omega arith) task_starts earlier_published (inl (omega arith), (inr refl, tt)) heard-IsValid
