-- ===== src/WsClient/State.antt =====
-- `ws_client_config_t` and the static variables of ws_client.c. A pointer that the code only tests
-- is a Boolean; a null string or key counts as an empty one, except for the URI.
use n32r.Security.{Context}
use n32r.Prelude.{List}
use n32r.Prelude.{Bool, ℕ, Option}

pub record Config : Type 0 where
  pub has_uri : Bool
  pub auth_token : List ℕ
  pub reconnect_min_delay_ms : ℕ
  pub reconnect_max_delay_ms : ℕ
  pub has_error_cb : Bool
  pub crypto_secret : List ℕ
  pub enable_frame_encryption : Bool
  pub enable_handshake_token : Bool
  pub enable_totp : Bool
  pub totp_secret : List ℕ
  pub totp_period_s : ℕ
  pub totp_digits : ℕ
  pub totp_window : ℕ
  pub has_time_fn : Bool

-- A line `name: value` of the header block, which ends with a carriage return and a line feed.
pub record Field : Type 0 where
  pub name : List ℕ
  pub value : List ℕ

-- `headers` is `none` where the text of the block is not complete.
pub record State : Type 0 where
  pub has_client : Bool
  pub has_rx_cb : Bool
  pub has_error_cb : Bool
  pub connected : Bool
  pub should_run : Bool
  pub has_timer : Bool
  pub reconnect_delay_ms : ℕ
  pub reconnect_min_ms : ℕ
  pub reconnect_max_ms : ℕ
  pub has_header_block : Bool
  pub headers : Option (List Field)
  pub security : Context
  pub rx_counter : ℕ
  pub token : List ℕ
  pub header_len : ℕ
  pub handshake_enabled : Bool
  pub totp_enabled : Bool
  pub totp_digits : ℕ
  pub has_time_fn : Bool
