-- ===== src/Server/Authorize/Tests.antt =====
-- Tests of the authorization, over the toy cipher and codec.
use n32r.Prelude.{ℕ, ◌≡◌, refl, inr, some, List, [], ◌∷◌, ◌++◌, true, false, arith, replicate, none}
use n32r.Prelude.Words.{add32}
use n32r.Prelude.Bytes.{bytes_eq}
use n32r.Crypto.Toy.{toy, digest}
use n32r.Util.Base64.{decode}
use n32r.Util.Base64.Toy.{copying}
use n32r.Security.{Context, verify_handshake}
use n32r.Server.Types.{NonceEntry}
use n32r.Server.Headers.{parse_nonce_hex}
use n32r.Server.Nonces.{nonce_is_duplicate, nonce_store, find_slot}
use n32r.Server.Nonces.Laws.{stored}
use n32r.Server.Authorize.{
  Headers, bearer, authorize_request, check_bearer, check_handshake, signed_nonce, check_totp,
}
use n32r.Server.Authorize.Laws.{Authorized, authorize_sound, authorize_replay}

abbrev ctx : Context
ctx = record {
  handshake_enabled = true;
  encryption_enabled = false;
  totp_enabled = false;
  handshake_key = replicate 32 1;
  frame_key = replicate 32 0;
  tx_counter = 0;
  totp_secret = [];
  totp_period_s = 0;
  totp_digits = 0;
  totp_window = 0;
}

abbrev token : List ℕ
token = 116 ∷ []

abbrev request : Headers
request = record {
  authorization = some (bearer ++ token);
  nonce = some (replicate 32 b'0');
  signature = some (replicate 32 1);
  totp = none;
}

abbrev cache : List NonceEntry
cache = record { valid = false; timestamp = 0; nonce = [] } ∷ []

let_in :
    authorize_request toy copying ctx token 50 10 1000 request cache
    ≡ (true, stored (replicate 16 0) 10 ∷ [])
unfolding authorize_request check_bearer bytes_eq check_handshake signed_nonce parse_nonce_hex
    decode nonce_is_duplicate verify_handshake digest check_totp nonce_store find_slot
let_in = refl

authorize_sound_example :
    Authorized toy copying ctx token 50 10 1000 request cache (stored (replicate 16 0) 10 ∷ [])
authorize_sound_example = authorize_sound toy copying ctx token 50 10 1000 request cache let_in

authorize_replay_example :
    (authorize_request toy copying ctx token 50
      (add32 10 7)
      2000
      request
      (stored (replicate 16 0) 10 ∷ [])).0
    ≡ false
authorize_replay_example =
    authorize_replay toy copying ctx token 50 10 7 1000 2000 request request cache refl
      (omega arith) (omega arith) (omega arith) (inr (omega arith)) let_in refl
