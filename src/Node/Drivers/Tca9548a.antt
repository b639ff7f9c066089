-- ===== src/Node/Drivers/Tca9548a.antt =====
-- sensor_node/main/drivers/tca9548a.c, the bus multiplexer, which remembers its last selection.
use n32r.Prelude.{
  Bool, List, Option, Result-cases, Status, [], ap, arith, choose, err, false, get_or,
  if◌then◌else◌, inl, inr, invalid_arg, ltb, none, ok, refl, some, sym, true, ℕ, ◌%◌, ◌&&◌, ◌==◌,
  ◌^◌, ◌||◌, ◌∙◌, ◌∷◌, ◌≡◌,
}
use mathlib.Core.Bool.{false≢true}
use n32r.Prelude.{choose}
use n32r.Node.Drivers.{Bus, Write, i2c_write}

-- A channel, or none; the type rules out the numbers below -1.
abbrev pub Channel : Type 0
Channel = Option ℕ

-- The static variables.
pub record Selection : Type 0 where
  pub last_addr : ℕ
  pub last_channel : Channel
  pub has_state : Bool

unfoldable pub channel_eq : Channel → Channel → Bool
channel_eq none none = true
channel_eq none (some n) = false
channel_eq (some m) none = false
channel_eq (some m) (some n) = m == n

unfoldable pub is_bad_channel : Channel → Bool
is_bad_channel none = false
is_bad_channel (some n) = ltb 7 n

unfoldable pub payload : Channel → ℕ
payload none = 0
payload (some n) = 2 ^ n % 256

unfoldable pub tca9548a_select : Bus → ℕ → Channel → Selection → Status × (Selection × List Write)
tca9548a_select bus addr channel last =
    if is_bad_channel channel || (ltb addr 8 || ltb 119 addr)
    then (err invalid_arg, (last, []))
    else (if channel_eq channel last.last_channel && ((addr == last.last_addr) && last.has_state)
        then (ok tt, (last, []))
        else (let (status, writes) = i2c_write bus addr (payload channel ∷ []) in
            elim status [
              | ok _ ↦ (
                ok tt,
                (record { last_addr = addr; last_channel = channel; has_state = true }, writes),
              )
              | err e ↦ (err e, (last, writes))
            ]))

-- A multiplexer holds the byte of the last write that it has acknowledged.
abbrev pub after : Bus → List Write → (ℕ → ℕ) → ℕ → ℕ
after bus [] regs addr = regs addr
after bus (write ∷ writes) regs addr =
    after bus writes
      (λ at. elim (bus.write write.addr write.bytes) [
        | ok _ ↦ if at == write.addr then get_or write.bytes 0 0 else regs at
        | err e ↦ regs at
      ])
      addr

-- What is remembered is what the multiplexer of that address holds.
abbrev pub Coherent : Selection → (ℕ → ℕ) → Type 0
Coherent last regs = last.has_state ≡ true → regs last.last_addr ≡ payload last.last_channel

-- On success the channel is selected, else what is remembered stays; it is true in both cases.
abbrev pub Selected :
    Bus → ℕ → Channel → Selection → (ℕ → ℕ) → Status × (Selection × List Write) → Type 0
Selected bus addr channel last regs (ok _, (now, writes)) =
    (after bus writes regs addr ≡ payload channel) × Coherent now (after bus writes regs)
Selected bus addr channel last regs (err e, (now, writes)) =
    (now ≡ last) × Coherent now (after bus writes regs)

channel_eq_sound : (a b : Channel) → channel_eq a b ≡ true → a ≡ b
unfolding channel_eq
channel_eq_sound none none e = refl
channel_eq_sound none (some n) e = absurd (false≢true e)
channel_eq_sound (some m) none e = absurd (false≢true e)
channel_eq_sound (some m) (some n) e = ap some (ground arith)

remembered :
    (addr : ℕ) (channel : Channel) (last : Selection) (regs : ℕ → ℕ)
    → Coherent last regs
    → (channel_eq channel last.last_channel && ((addr == last.last_addr) && last.has_state)) ≡ true
    → regs addr ≡ payload channel
remembered addr channel last regs i e =
    let at : addr ≡ last.last_addr = ground arith in
    let same = channel_eq_sound channel last.last_channel (ground arith) in
    ap regs at ∙ i (ground arith) ∙ ap payload (sym same)

equal_self : (n : ℕ) → (n == n) ≡ true
equal_self n = ground arith

-- The cache of the multiplexer's driver tells the truth: where what it remembers is what the multiplexer
-- holds, a selection that succeeds leaves the channel selected, whether or not it wrote to the bus, and after
-- any selection, also one that fails, the memory is again what the multiplexer holds.
pub select-Selected :
    (bus : Bus) (addr : ℕ) (channel : Channel) (last : Selection) (regs : ℕ → ℕ)
    → Coherent last regs
    → Selected bus addr channel last regs (tca9548a_select bus addr channel last)
unfolding tca9548a_select i2c_write
select-Selected bus addr channel last regs i =
    choose (Selected bus addr channel last regs)
      (is_bad_channel channel || (ltb addr 8 || ltb 119 addr)) (λ _. (refl, i))
      (λ _.
        choose (Selected bus addr channel last regs)
          (channel_eq channel last.last_channel && ((addr == last.last_addr) && last.has_state))
          (λ e. (remembered addr channel last regs i e, i))
          (λ _. elim (Result-cases (bus.write addr (payload channel ∷ []))) [
            | inl (_, f) ↦ simp (f, equal_self addr) (refl, λ _. refl)
            | inr (e, f) ↦ simp (f) (refl, i)
          ]))
