-- ===== src/Util/Totp/Tests.antt =====
-- Tests of the one-time passwords.
use n32r.Prelude.{ℕ, ◌≡◌, ◌↔◌, refl, [], ◌∷◌, true, arith, ok}
use n32r.Crypto.Toy.{toy, digest}
use n32r.Util.Totp.{
  Config, dynamic_truncation, counter_bytes, compute, verify, is_invalid, pow10_u32,
}
use n32r.Util.Totp.Window.{InWindow, verify_iff}

abbrev cfg : Config
cfg = record { secret = 1 ∷ 2 ∷ 3 ∷ []; period_s = 30; digits = 6 }

compute_at_59 : compute toy cfg 59 ≡ ok 909056
unfolding compute digest dynamic_truncation counter_bytes pow10_u32
compute_at_59 = refl

total : (t : ℕ) → (e : ℕ) × (compute toy cfg t ≡ ok e)
unfolding compute
total t = (_, refl)

verify_iff_example :
    (verify toy cfg 59 1 909056 ≡ ok true)
    ↔ ((t : ℕ) × InWindow cfg 59 1 t × (compute toy cfg t ≡ ok 909056))
unfolding is_invalid
verify_iff_example = verify_iff toy cfg 59 1 909056 refl (omega arith) (omega arith) total
