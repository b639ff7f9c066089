-- ===== src/Node/Tasks/Sensors/First.antt =====
-- The first humidity that the task publishes for a channel.
use n32r.Prelude.{
  All, Bool, List, Option, Result, [], arith, err, ◌∙◌, false, get_elem?, get_elem?-set_self,
  get_elem?-set_ne, ok, some, true, ℕ, ◌<◌, ◌≡◌, ◌≢◌, ◌∷◌, ◌⊎◌, inl, inr, replicate, choose,
  Result-cases, suc, zero, ltb, ◌==◌, ◌&&◌, ◌||◌, refl, take, lt→ltb,
}
use n32r.Node.DataModel.{Model, Sht20, set_sht20}
use n32r.Node.DataModel.Bounds.{IsValid}
use n32r.Node.Tasks.Checked.{◌>>=◌, Always, bind-Whenever, any-Whenever, Whenever, first_of}
use n32r.Node.Tasks.Sensors.{
  Platform, Context, Round, SensorType, ema_update, smoothed, filtered, publish_reading, is_ok,
  sensors_task_start, ensure_ds18b20_devices, kick_ds18b20_conversion, onewire_bus_scan,
}
use mathlib.Core.Path.{subst}
use n32r.Node.Drivers.Ds18b20.{ds18b20_start_conversion}

-- A reading of a channel.
pub record Reading (F : Type 0) : Type 0 where
  pub channel : ℕ
  pub type : SensorType
  pub result : Result (F × F)

module _ {F : Type 0} (platform : Platform F) where
  -- Readings published one after the other; the mutex of the data model is taken in time.
  unfoldable pub publish_all : List (Reading F) → Context F × Model F → Option (Context F × Model F)
  publish_all [] state = some state
  publish_all (r ∷ readings) (ctx, model) =
      publish_reading platform true r.channel r.type r.result ctx model >>= publish_all readings

  -- No reading of the channel has succeeded.
  record IsBlank (i : ℕ) (ctx : Context F) : Type 0 where
    temp : F
    reads_temp : get_elem? ctx.ambient_temp_ema i ≡ some temp
    reads_hum : get_elem? ctx.ambient_hum_ema i ≡ some platform.zero_float
    reads_flag : get_elem? ctx.ambient_initialized i ≡ some false

  -- It is another channel's, or it has failed.
  abbrev pub IsOther : ℕ → Reading F → Type 0
  IsOther i r = (r.channel ≢ i) ⊎ (is_ok platform r.result ≡ false)

  smoothed-IsBlank :
      (i j : ℕ) (reading : Result (F × F)) (temp_ema hum_ema : F) (initialized : Bool)
      (ctx : Context F)
      → (j ≢ i) ⊎ (is_ok platform reading ≡ false)
      → IsBlank i ctx
      → IsBlank i (smoothed platform j reading temp_ema hum_ema initialized ctx).0
  unfolding smoothed
  smoothed-IsBlank i j (ok (temp, hum)) temp_ema hum_ema initialized ctx (inl other) b = record {
    temp = b.temp;
    reads_temp = get_elem?-set_ne ctx.ambient_temp_ema _ other ∙ b.reads_temp;
    reads_hum = get_elem?-set_ne ctx.ambient_hum_ema _ other ∙ b.reads_hum;
    reads_flag = get_elem?-set_ne ctx.ambient_initialized _ other ∙ b.reads_flag;
  }
  smoothed-IsBlank i j (ok (temp, hum)) temp_ema hum_ema initialized ctx (inr failed) b = cc
  smoothed-IsBlank i j (err e) temp_ema hum_ema initialized ctx other b = b

  BothBlank : ℕ → Context F × Model F → Type 0
  BothBlank i (ctx, model) = IsBlank i ctx

  publish-IsBlank :
      (i : ℕ) (r : Reading F) (ctx : Context F) (model : Model F)
      → IsOther i r
      → IsBlank i ctx
      → Whenever (BothBlank i) (publish_reading platform true r.channel r.type r.result ctx model)
  unfolding publish_reading filtered BothBlank
  publish-IsBlank i r ctx model other b =
      let Here : Context F × (F × F) → Type 0 = λ (ctx', values). IsBlank i ctx' in
      bind-Whenever Here (BothBlank i) (filtered platform r.channel r.result ctx)
        (bind-Whenever (λ v. Unit {0}) Here (get_elem? ctx.ambient_temp_ema r.channel)
          (any-Whenever (get_elem? ctx.ambient_temp_ema r.channel)) _
          (λ temp_ema _.
            bind-Whenever (λ v. Unit {0}) Here (get_elem? ctx.ambient_hum_ema r.channel)
              (any-Whenever (get_elem? ctx.ambient_hum_ema r.channel)) _
              (λ hum_ema _.
                bind-Whenever (λ v. Unit {0}) Here (get_elem? ctx.ambient_initialized r.channel)
                  (any-Whenever (get_elem? ctx.ambient_initialized r.channel)) _
                  (λ initialized _.
                    smoothed-IsBlank i r.channel r.result temp_ema hum_ema initialized ctx other
                      b))))
        _ (λ (ctx', values) b'. b')

  publish_all-IsBlank :
      (i : ℕ) (readings : List (Reading F)) (ctx : Context F) (model : Model F)
      → All (IsOther i) readings
      → IsBlank i ctx
      → Whenever (BothBlank i) (publish_all readings (ctx, model))
  unfolding publish_all BothBlank
  publish_all-IsBlank i [] ctx model others b = b
  publish_all-IsBlank i (r ∷ readings) ctx model others b =
      bind-Whenever (BothBlank i) (BothBlank i)
        (publish_reading platform true r.channel r.type r.result ctx model)
        (publish-IsBlank i r ctx model others.0 b) (publish_all readings)
        (λ (ctx', model') b'. publish_all-IsBlank i readings ctx' model' others.1 b')

  get_elem?-replicate : {A : Type 0} (i : ℕ) (v : A) → i < 2 → get_elem? (replicate 2 v) i ≡ some v
  get_elem?-replicate zero v h = refl
  get_elem?-replicate (suc zero) v h = refl
  get_elem?-replicate (suc (suc i)) v h = absurd (omega arith)

  -- What changes neither the filters nor their marks.
  kick-IsBlank :
      (i : ℕ) (round : Round) (ctx : Context F)
      → IsBlank i ctx
      → Whenever (IsBlank i) (kick_ds18b20_conversion platform round ctx)
  unfolding kick_ds18b20_conversion
  kick-IsBlank i round ctx b =
      choose (Whenever (IsBlank i)) (ctx.ds_count == 0 || ctx.ds_conversion_pending) (λ _. b)
        (λ _.
          bind-Whenever (λ devices. Unit {0}) (IsBlank i) (first_of ctx.ds_count ctx.ds_devices)
            (any-Whenever (first_of ctx.ds_count ctx.ds_devices)) _
            (λ devices _.
              elim (Result-cases (ds18b20_start_conversion round.kick_wire devices 12)) [
                | inl (_, e) ↦ rw e (record {
                  temp = b.temp;
                  reads_temp = b.reads_temp;
                  reads_hum = b.reads_hum;
                  reads_flag = b.reads_flag;
                })
                | inr (error, e) ↦ rw e b
              ]))

  ensure-IsBlank :
      (i : ℕ) (round : Round) (ctx : Context F)
      → IsBlank i ctx
      → Whenever (IsBlank i) (ensure_ds18b20_devices platform round ctx)
  unfolding ensure_ds18b20_devices
  ensure-IsBlank i round ctx b =
      choose (Whenever (IsBlank i))
        (ltb 0 ctx.ds_count && ltb round.scan_tick ctx.next_ds_scan_tick) (λ _. b)
        (λ _.
          bind-Whenever (λ scan. Unit {0}) (IsBlank i)
            (onewire_bus_scan round.searched 4 ctx.ds_devices)
            (any-Whenever (onewire_bus_scan round.searched 4 ctx.ds_devices)) _
            (λ (scanned, devices) _. record {
              temp = b.temp;
              reads_temp = b.reads_temp;
              reads_hum = b.reads_hum;
              reads_flag = b.reads_flag;
            }))

  start-IsBlank :
      (i : ℕ) (round : Round) (now ambient_count : ℕ)
      → i < 2
      → Whenever (IsBlank i) (sensors_task_start platform round now ambient_count)
  unfolding sensors_task_start
  start-IsBlank i round now ambient_count small =
      bind-Whenever (IsBlank i) (IsBlank i) _
        (ensure-IsBlank i round _ (record {
          temp = platform.zero_float;
          reads_temp = get_elem?-replicate i platform.zero_float small;
          reads_hum = get_elem?-replicate i platform.zero_float small;
          reads_flag = get_elem?-replicate i false small;
        }))
        _ (λ ctx b. kick-IsBlank i round ctx b)

  -- What the model holds for a channel.
  abbrev pub Publishes : ℕ → F → F → Context F × Model F → Type 0
  Publishes i temp hum (ctx, model) =
      (id : List ℕ) × (get_elem? model.current.sht20 i
        ≡ some (record { id = id; temperature_c = temp; humidity_percent = hum; valid = true }))

  set_sht20-get :
      (i : ℕ) (reading : Sht20 F) (model : Model F)
      → i < 2
      → IsValid model
      → get_elem? (set_sht20 true i reading model).current.sht20 i
        ≡ some (record reading { id = take 15 reading.id })
  unfolding set_sht20
  set_sht20-get i reading model small valid =
      let within : ltb i 2 ≡ true = lt→ltb i 2 small in
      simp (valid.ready, within)
        (get_elem?-set_self model.current.sht20 i (record reading { id = take 15 reading.id })
          (omega arith))

  -- From the start of the task, after any readings of which none of this channel has succeeded, the first one that
  -- succeeds is published in the data model with the temperature itself, but with a humidity that is one filter step
  -- from zero: the temperature has marked the channel as initialized already. The channel is one of the two, the
  -- mutex is taken in time, and the model is well-formed.
  pub first_published :
      (round : Round) (now ambient_count i : ℕ) (type : SensorType) (earlier : List (Reading F))
      (temp hum : F) (ctx ctx' : Context F) (model model' : Model F)
      → i < 2
      → sensors_task_start platform round now ambient_count ≡ some ctx
      → publish_all earlier (ctx, model) ≡ some (ctx', model')
      → All (IsOther i) earlier
      → IsValid model'
      → Always
          (Publishes i temp (platform.step platform.zero_float hum))
          (publish_reading platform true i type (ok (temp, hum)) ctx' model')
  unfolding publish_reading filtered smoothed ema_update BothBlank
  first_published round now ambient_count i type earlier temp hum ctx ctx' model model' small
        started published others valid =
      let b0 : IsBlank i ctx =
        subst (Whenever (IsBlank i)) started (start-IsBlank i round now ambient_count small) in
      let b : IsBlank i ctx' =
        subst (Whenever (BothBlank i)) published
          (publish_all-IsBlank i earlier ctx model others b0) in
      simp (b.reads_temp, b.reads_hum, b.reads_flag) (_, set_sht20-get i _ model' small valid)
