-- ===== src/Security/Init.antt =====
-- What a successful `ws_security_context_init` has set up.
use n32r.Prelude.{◌⊎◌, ◌≡◌, false, some, arith, ok}
use n32r.Prelude.Bytes.{codes}
use n32r.Crypto.{Crypto}
use n32r.Util.Totp
use n32r.Security.{
  Config, Context, zeroed, context_init, init_handshake, init_encryption, init_totp, derive_key,
  totp_config,
}

-- The enabled features are those of the configuration, each with its key.
pub record Ready (c : Crypto) (config : Config) (ctx : Context) : Type 0 where
  pub handshake : ctx.handshake_enabled ≡ config.enable_handshake
  pub encryption : ctx.encryption_enabled ≡ config.enable_encryption
  pub totp : ctx.totp_enabled ≡ config.enable_totp
  pub handshake_key :
      (config.enable_handshake ≡ false)
      ⊎ (derive_key c config.secret (codes "ws-handshake") 32 ≡ ok ctx.handshake_key)
  pub frame_key :
      (config.enable_encryption ≡ false)
      ⊎ (derive_key c config.secret (codes "ws-frame") 32 ≡ ok ctx.frame_key)
  pub totp_valid : (config.enable_totp ≡ false) ⊎ (Totp.is_invalid (totp_config ctx) ≡ false)
  pub counter : ctx.tx_counter ≡ 0

-- A successful `ws_security_context_init` enables exactly the features that were asked for, with the
-- keys derived under their own labels, a valid one-time-password configuration and a fresh counter.
pub context_init-Ready :
    (c : Crypto) (config : Config) {ctx : Context}
    → context_init c (some config) ≡ (ok tt, ctx)
    → Ready c config ctx
unfolding context_init zeroed init_handshake init_encryption init_totp Totp.is_invalid totp_config
context_init-Ready c config h = ground arith
