-- ===== src/Util/Totp.antt =====
-- common/util/totp.c: time-based one-time passwords. A null secret and an empty one take the same
-- branch everywhere, so both are the empty list. Pointers to results are never null here.
pub mod Window
pub mod Digits
mod Tests
use n32r.Prelude.{
  ℕ, zero, suc, ◌+◌, ◌-◌, ◌*◌, ◌/◌, ◌%◌, ◌^◌, Bool, true, false, ◌||◌, Option, none, some, List, [],
  ◌∷◌, get_or, length, ltb, ◌==◌, if◌then◌else◌, EspErr, esp_fail, invalid_arg, Result, ok, err,
}
use n32r.Prelude.Words.{u32_mod, u64_mod}
use n32r.Crypto.{Crypto}

-- `totp_config_t`
pub record Config : Type 0 where
  pub secret : List ℕ
  pub period_s : ℕ
  pub digits : ℕ

-- One multiplication for each round left.
pow10_u32_from : ℕ → ℕ → ℕ
pow10_u32_from value zero = value
pow10_u32_from value (suc digits) = pow10_u32_from (value * 10 % u32_mod) digits

unfoldable pub pow10_u32 : ℕ → ℕ
unfolding pow10_u32_from
pow10_u32 digits = pow10_u32_from 1 digits

-- The eight bytes of the counter, highest first: byte `i` is written in the round that shifts by
-- 8 * (7 - i).
abbrev counter_bytes_from : ℕ → ℕ → List ℕ → List ℕ
counter_bytes_from zero counter bytes = bytes
counter_bytes_from (suc i) counter bytes =
    counter_bytes_from i (counter / 2 ^ 8) (counter % 2 ^ 8 ∷ bytes)

unfoldable pub counter_bytes : ℕ → List ℕ
counter_bytes counter = counter_bytes_from 8 counter []

-- The 31 bits at the offset that the digest's last byte names; the four fields do not overlap, so
-- `|` is a sum.
unfoldable pub dynamic_truncation : List ℕ → ℕ
dynamic_truncation digest =
    let offset = get_or digest 19 0 % 2 ^ 4 in
    get_or digest offset 0 % 2 ^ 7 * 2 ^ 24
    + get_or digest (offset + 1) 0 % 2 ^ 8 * 2 ^ 16
    + get_or digest (offset + 2) 0 % 2 ^ 8 * 2 ^ 8
    + get_or digest (offset + 3) 0 % 2 ^ 8

unfoldable pub is_invalid : Config → Bool
is_invalid cfg = length cfg.secret == 0 || ltb cfg.digits 6 || ltb 8 cfg.digits || cfg.period_s == 0

-- The time that the loop of `totp_verify` tries at offset `i - window`, or `none` where it
-- continues. Times are `uint64_t`.
unfoldable pub adjusted_time : Config → ℕ → ℕ → ℕ → Option ℕ
adjusted_time cfg unix_time window i =
    if ltb i window
    then (if ltb unix_time ((window - i) * cfg.period_s)
        then none
        else some (unix_time - (window - i) * cfg.period_s))
    else some ((unix_time + (i - window) * cfg.period_s) % u64_mod)

-- `(int32_t)window` is negative from 2 ^ 31 on, and then the loop makes no round. At 2 ^ 31 - 1
-- itself the C loop counter overflows.
unfoldable pub rounds : ℕ → ℕ
rounds window = if ltb window (2 ^ 31) then 2 * window + 1 else 0

module _ (c : Crypto) where
  unfoldable pub compute : Config → ℕ → Result ℕ
  unfolding is_invalid
  compute cfg unix_time =
      if is_invalid cfg
      then err invalid_arg
      else (elim (c.hmac_sha1 cfg.secret (counter_bytes (unix_time / cfg.period_s))) [
        | none ↦ err esp_fail
        | some digest ↦ ok (dynamic_truncation digest % pow10_u32 cfg.digits)
      ])

  -- The rounds from `i` on, `left` of them.
  unfoldable pub verify_from : Config → ℕ → ℕ → ℕ → ℕ → ℕ → Result Bool
  verify_from cfg unix_time window code i zero = ok false
  verify_from cfg unix_time window code i (suc left) =
      let rest = verify_from cfg unix_time window code (i + 1) left in
      elim (adjusted_time cfg unix_time window i) [
        | none ↦ rest
        | some t ↦ elim (compute cfg t) [
          | err e ↦ err e
          | ok expected ↦ if expected == code then ok true else rest
        ]
      ]

  unfoldable pub verify : Config → ℕ → ℕ → ℕ → Result Bool
  unfolding verify_from rounds adjusted_time compute
  verify cfg unix_time window code =
      if length cfg.secret == 0
      then err invalid_arg
      else verify_from cfg unix_time window code 0 (rounds window)
