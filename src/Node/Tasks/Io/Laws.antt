-- ===== src/Node/Tasks/Io/Laws.antt =====
-- The duties that the expander was told are those that the task remembers.
use n32r.Prelude.{
  All, All, Bool, List, Result-cases, Status, [], arith, err, get_or, if◌then◌else◌, inl, inr, leb,
  length, length-set, ltb, ok, refl, set, suc, true, zero, ℕ, ◌%◌, ◌&&◌, ◌*◌, ◌++◌, ◌+◌, ◌-◌, ◌<◌,
  ◌==◌, ◌∙◌, ◌∷◌, ◌≡◌, ◌≤◌, false,
}
use n32r.Node.Drivers.{Bus, Write, i2c_write, ◌then◌}
use n32r.Node.Drivers.Pca9685.{
  pca9685_init, pca9685_set_pwm, pca9685_write8, pca9685_bytes, off_time,
}
use n32r.Node.Drivers.Mcp23017.{mcp23017_write_gpio, mcp23017_write16, mcp23017_read16}
use n32r.Node.Tasks.Io.{
  restore_from, IoMap, ltb, handle, Pwm, drain, IoCommand, pwm_hw_available, true, set_pwm_duty,
  set_pwm_freq, write_gpio, false,
}

abbrev is_done : Status → Bool
is_done (ok _) = true
is_done (err e) = false

-- A write of a channel's four registers that the device acknowledges.
abbrev pub is_duty : Bus → ℕ → ℕ → Write → Bool
is_duty bus addr channel w =
    w.addr == addr
    && (get_or w.bytes 0 0 == 6 + 4 * channel
        && (length w.bytes == 5 && is_done (bus.write w.addr w.bytes)))

-- The off time that a channel was last told, after what it was told before.
unfoldable pub told : Bus → ℕ → List Write → (ℕ → ℕ) → ℕ → ℕ
told bus addr [] before channel = before channel
told bus addr (w ∷ writes) before channel =
    told bus addr writes (λ c. if is_duty bus addr c w then off_time w.bytes else before c) channel

-- Every write to the device is acknowledged.
abbrev pub Acknowledges : Bus → ℕ → Type 0
Acknowledges bus addr = (bytes : List ℕ) → bus.write addr bytes ≡ ok tt

-- The off time that the driver writes for a duty: see `set_pwm_lem`.
abbrev off_time_of : ℕ → ℕ
off_time_of duty = if leb 4096 duty then 0 else duty

told-append :
    (bus : Bus) (addr : ℕ) (ws ws' : List Write) (before : ℕ → ℕ) (channel : ℕ)
    → told bus addr (ws ++ ws') before channel ≡ told bus addr ws' (told bus addr ws before) channel
unfolding told
told-append bus addr [] ws' before channel = refl
told-append bus addr (w ∷ ws) ws' before channel = told-append bus addr ws ws' _ channel

get_or-set :
    (xs : List ℕ) (i j v : ℕ)
    → i < length xs
    → get_or (set xs i v) j 0 ≡ (if j == i then v else get_or xs j 0)
get_or-set [] i j v h = absurd (omega arith)
get_or-set (x ∷ xs) zero zero v h = refl
get_or-set (x ∷ xs) zero (suc j) v h = ground arith
get_or-set (x ∷ xs) (suc i) zero v h = ground arith
get_or-set (x ∷ xs) (suc i) (suc j) v h = ground (arith, get_or-set xs i j v)

-- Writes that are too short for a channel's registers.
abbrev IsShort : Write → Type 0
IsShort w = length w.bytes < 5

told-IsShort :
    (bus : Bus) (addr : ℕ) (ws : List Write) (before : ℕ → ℕ) (c : ℕ)
    → All IsShort ws
    → told bus addr ws before c ≡ before c
unfolding told
told-IsShort bus addr [] before c all = refl
told-IsShort bus addr (w ∷ ws) before c all =
    told-IsShort bus addr ws _ c all.1 ∙ (let h = all.0 in ground arith)

then-IsShort :
    (a b : Status × List Write) → All IsShort a.1 → All IsShort b.1 → All IsShort (a then b).1
then-IsShort (err e, ws) b all all' = all
then-IsShort (ok _, []) b all all' = all'
then-IsShort (ok done, w ∷ ws) b all all' = (all.0, then-IsShort (ok done, ws) b all.1 all')

module _ (bus : Bus) (addr : ℕ) where
  told-set_pwm :
      Acknowledges bus addr
      → (channel duty : ℕ) (before : ℕ → ℕ) (c : ℕ) → channel < 16
      → told bus addr (pca9685_set_pwm bus addr channel duty).1 before c
        ≡ (if c == channel then off_time_of duty else before c)
  unfolding told pca9685_set_pwm i2c_write pca9685_bytes
  told-set_pwm answers channel duty before c h = ground (
    arith,
    answers (pca9685_bytes ((6 + 4 * channel) % 256) 0 (if leb 4096 duty then 4096 else duty)),
  )

  told-init :
      (prescale_val : ℕ) (before : ℕ → ℕ) (c : ℕ)
      → told bus addr (pca9685_init bus addr prescale_val).1 before c ≡ before c
  unfolding pca9685_init i2c_write pca9685_write8
  told-init prescale_val before c =
      let one = pca9685_write8 bus addr 0 16 in
      let two = pca9685_write8 bus addr 254 prescale_val in
      let three = pca9685_write8 bus addr 0 161 in
      let four = pca9685_write8 bus addr 1 4 in
      told-IsShort bus addr (pca9685_init bus addr prescale_val).1 before c (
        then-IsShort (one then two then three) four
          (then-IsShort (one then two) three (then-IsShort one two (omega arith) (omega arith))
            (omega arith))
          (omega arith))

  write_gpio-IsShort :
      (device mask value : ℕ) → All IsShort (mcp23017_write_gpio bus device mask value).1
  unfolding mcp23017_write_gpio mcp23017_write16 i2c_write
  write_gpio-IsShort device mask value = elim (Result-cases (mcp23017_read16 bus device 20)) [
    | inl (current, e) ↦ simp (e, mcp23017_write_gpio) (omega arith)
    | inr (error, e) ↦ simp (e, mcp23017_write_gpio) tt
  ]

told-write_gpio :
    (bus : Bus) (addr device mask value : ℕ) (before : ℕ → ℕ) (c : ℕ)
    → told bus addr (mcp23017_write_gpio bus device mask value).1 before c ≡ before c
told-write_gpio bus addr device mask value before c =
    told-IsShort bus addr _ before c (write_gpio-IsShort bus addr device mask value)

get_or-later :
    (duty : ℕ) (duties : List ℕ) (c i : ℕ)
    → i < c
    → get_or (duty ∷ duties) (c - i) 0 ≡ get_or duties (c - (i + 1)) 0
get_or-later duty duties c i h = (let e : c - i ≡ suc (c - (i + 1)) = omega arith in rw e refl)

get_or-here :
    (duty : ℕ) (duties : List ℕ) (c i : ℕ) → c ≡ i → get_or (duty ∷ duties) (c - i) 0 ≡ duty
get_or-here duty duties c i h = (let e : c - i ≡ 0 = omega arith in rw e refl)

-- The duties of a channel and of those after it.
abbrev told_from : ℕ → List ℕ → (ℕ → ℕ) → ℕ → ℕ
told_from i duties before c =
    if ltb c i
    then before c
    else (if ltb c (i + length duties) then off_time_of (get_or duties (c - i) 0) else before c)

-- The duties that are remembered have twelve bits, and the expander was told them.
abbrev pub InStep : Pwm → (ℕ → ℕ) → Type 0
InStep pwm before =
    (length pwm.s_pwm ≡ 16)
    × ((c : ℕ) → c < 16 → (get_or pwm.s_pwm c 0 < 4096) × (before c ≡ get_or pwm.s_pwm c 0))

-- A duty that is set has twelve bits.
abbrev pub IsDuty : IoCommand → Type 0
IsDuty (set_pwm_duty channel duty) = duty < 4096
IsDuty (set_pwm_freq frequency_hz) = Unit {0}
IsDuty (write_gpio device_index port mask value) = Unit {0}

module _ (bus : Bus) (prescale : ℕ → ℕ) (map : IoMap)
    (answers : Acknowledges bus map.pca9685_address) where
  told-restore_from :
      (i : ℕ) (duties : List ℕ) (before : ℕ → ℕ) (c : ℕ)
      → i + length duties ≤ 16
      → told bus map.pca9685_address (restore_from bus prescale map i duties) before c
        ≡ told_from i duties before c
  unfolding told restore_from
  told-restore_from i [] before c fits = ground arith
  told-restore_from i (duty ∷ duties) before c fits =
      let first = (pca9685_set_pwm bus map.pca9685_address i duty).1 in
      ground (
        arith,
        told-append bus map.pca9685_address first (restore_from bus prescale map (i + 1) duties)
            before c,
        told-restore_from (i + 1) duties (told bus map.pca9685_address first before) c,
        told-set_pwm bus map.pca9685_address answers i duty before c,
        get_or-later duty duties c i,
        get_or-here duty duties c i,
      )

  handle-InStep :
      (cmd : IoCommand) (pwm : Pwm) (before : ℕ → ℕ)
      → pwm_hw_available bus prescale map ≡ true
      → IsDuty cmd
      → InStep pwm before
      → InStep
          (handle bus prescale map cmd pwm).0
          (told bus map.pca9685_address (handle bus prescale map cmd pwm).1 before)
  unfolding handle
  handle-InStep (set_pwm_duty channel duty) pwm before on twelve (size, same) = (
    omega (arith, length-set pwm.s_pwm (channel % 16) duty),
    λ c h. (
      ground (arith, (same c h).0, get_or-set pwm.s_pwm (channel % 16) c duty),
      rw on (
          ground (
            arith,
            told-set_pwm bus map.pca9685_address answers (channel % 16) duty before c,
            (same c h).1,
            get_or-set pwm.s_pwm (channel % 16) c duty,
          )),
    ),
  )
  handle-InStep (set_pwm_freq frequency_hz) pwm before on twelve (size, same) =
      let start = (pca9685_init bus map.pca9685_address (prescale frequency_hz)).1 in
      (
        size,
        λ c h. (
          (same c h).0,
          rw on (
              told-append bus map.pca9685_address start (restore_from bus prescale map 0 pwm.s_pwm)
                before c
              ∙ ground (
                arith,
                (same c h).0,
                told-restore_from 0 pwm.s_pwm (told bus map.pca9685_address start before) c,
              )),
        ),
      )
  handle-InStep (write_gpio device_index port mask value) pwm before on twelve (size, same) = (
    size,
    λ c h. ((same c h).0, told-write_gpio bus map.pca9685_address _ _ _ before c ∙ (same c h).1),
  )

  -- Where the PWM hardware is there and acknowledges every write: if the expander was told of each of the sixteen
  -- channels the duty that the task remembers, below 4096, then so it is after any commands that set duties below
  -- 4096, in whatever order, a change of the frequency included, and the task remembers sixteen duties.
  pub drain-InStep :
      (queue : List IoCommand) (pwm : Pwm) (before : ℕ → ℕ)
      → pwm_hw_available bus prescale map ≡ true
      → All IsDuty queue
      → InStep pwm before
      → InStep
          (drain bus prescale map queue pwm).0
          (told bus map.pca9685_address (drain bus prescale map queue pwm).1 before)
  unfolding drain told
  drain-InStep [] pwm before on twelve i = i
  drain-InStep (cmd ∷ queue) pwm before on twelve i =
      let later =
        drain-InStep queue (handle bus prescale map cmd pwm).0 _ on twelve.1
          (handle-InStep cmd pwm before on twelve.0 i) in
      (
        later.0,
        λ c h. (
          (later.1 c h).0,
          told-append bus map.pca9685_address (handle bus prescale map cmd pwm).1 _ before c
              ∙ (later.1 c h).1,
        ),
      )
