-- ===== src/WsClient/Tests.antt =====
-- Tests of the client, over the toy cipher and the copying codec.
use n32r.Util.Totp
use n32r.Util.Base64
use n32r.Server.Frames
use n32r.Server.Nonces.{nonce_is_duplicate}
use n32r.Server.Frames.{receive, heard}
use n32r.Server.Types.{Client, binary}
use n32r.Server.Clients.{update_client}
use n32r.Server.Broadcast.{frame_of}
use n32r.Server.Authorize.{authorize_request}
use n32r.WsClient.Authorized.{Paired, authorize-build_fields}
use n32r.WsClient.Authorized.Reader.{received, value_of, value_of-IsReader}
use n32r.WsClient.Headers.{add_authorization, add_signature, add_totp, add_field}
use n32r.WsClient.Decimal.{print_padded, decimal}
use n32r.WsClient.Events.{
  Event, disconnected, arrived, ignored, delivered, deliver, on_data, handle_all,
}
use n32r.WsClient.Events.Backoff.{InBounds, AllBetween, backoff}
use n32r.WsClient.Events.Receive.{on_data_twice}
use n32r.WsClient.Send.{ws_client_send}
use n32r.WsClient.Send.Transfer.{receive-ws_client_send, on_data-encrypt}
use n32r.WsClient.Lifecycle.{ws_client_stop}
use n32r.WsClient.Lifecycle.Laws.{Stopped, ws_client_stop-Stopped}
use n32r.Security.{
  totp_config, totp_digits, compute_handshake_signature, compute_totp, decrypt, open_frame,
}
use n32r.Security.Frame.{header, frame}
use n32r.Prelude.Bytes.{le_value, le_bytes, bytes_eq}
use n32r.Crypto.Toy.{toy-IsCrypto}
use n32r.Util.Base64.Toy.{copying-IsCodec}
use n32r.Prelude.{ℕ, ◌≡◌, refl, List, ◌∷◌, some, arith, replicate, true, [], false, none, ok, ◌++◌}
use n32r.WsClient.{bytes_to_hex, codes}
use n32r.WsClient.Hex.{AllBytes}
use n32r.WsClient.State.{State}
use n32r.Security.{Context}
use n32r.WsClient.State.{Field}
use n32r.WsClient.Headers.{build_fields}
use n32r.Crypto.Toy.{toy, digest}
use n32r.Util.Base64.Toy.{copying}

abbrev nonce : List ℕ
nonce = 250 ∷ (31 ∷ replicate 14 7)

nonce-AllBytes : AllBytes nonce
nonce-AllBytes = ground arith

abbrev security : Context
security = record {
  handshake_enabled = true;
  encryption_enabled = true;
  totp_enabled = true;
  handshake_key = replicate 32 4;
  frame_key = replicate 32 6;
  tx_counter = 0;
  totp_secret = 9 ∷ [];
  totp_period_s = 30;
  totp_digits = 6;
  totp_window = 1;
}

abbrev client : State
client = record {
  has_client = true;
  has_rx_cb = true;
  has_error_cb = false;
  connected = true;
  should_run = true;
  has_timer = true;
  reconnect_delay_ms = 2000;
  reconnect_min_ms = 2000;
  reconnect_max_ms = 60000;
  has_header_block = true;
  headers = none;
  security = security;
  rx_counter = 0;
  token = codes "t0";
  header_len = 400;
  handshake_enabled = true;
  totp_enabled = true;
  totp_digits = 6;
  has_time_fn = false;
}

total : (t : ℕ) → (e : ℕ) × (Totp.compute toy (totp_config security) t ≡ ok e)
unfolding Totp.compute totp_config
total t = (_, refl)

built : (fields : List Field) × (build_fields toy copying nonce 59 client ≡ ok fields)
unfolding build_fields add_authorization add_signature add_totp add_field
    compute_handshake_signature digest Base64.encode bytes_to_hex compute_totp Totp.compute
    print_padded decimal Totp.dynamic_truncation Totp.counter_bytes Totp.pow10_u32
built = (_, refl)

paired : Paired security client
unfolding totp_digits
paired = record {
  handshake = refl;
  handshake_key = refl;
  totp = refl;
  digits = refl;
  secret = refl;
}

authorize-build_fields_example :
    (authorize_request toy copying security (codes "t0") 1000 5 60 (received value_of built.0) []).0
    ≡ true
unfolding totp_config nonce_is_duplicate
authorize-build_fields_example =
    authorize-build_fields value_of-IsReader toy-IsCrypto copying-IsCodec security client nonce 59
      60 5 1000 [] built.0 paired (omega arith) nonce-AllBytes refl refl (omega arith) (omega arith)
      (omega arith, omega arith) total built.1

client-InBounds : InBounds client
client-InBounds = record { least = omega arith; most = omega arith; word = omega arith }

abbrev iv : List ℕ
iv = replicate 12 5

abbrev text : List ℕ
text = 1 ∷ 0 ∷ 0 ∷ 0 ∷ 9 ∷ []

-- A connection that breaks and a message.
abbrev events : List Event
events = disconnected ∷ arrived binary text ∷ ignored ∷ []

backoff_example :
    InBounds (handle_all toy events client).0
    × AllBetween client.reconnect_min_ms client.reconnect_max_ms (handle_all toy events client).1
backoff_example = backoff toy events client client-InBounds

abbrev tag : List ℕ
tag = digest 16 security.frame_key (header 1 ++ text)

abbrev f : List ℕ
f = frame 1 iv text tag

heard_once :
    on_data toy binary f client ≡ (record client { rx_counter = 1 }, delivered (9 ∷ []) 1 ∷ [])
unfolding on_data deliver decrypt open_frame le_value le_bytes digest bytes_eq
heard_once = refl

on_data_twice_example :
    on_data toy binary f (handle_all toy events (record client { rx_counter = 1 })).0
    ≡ ((handle_all toy events (record client { rx_counter = 1 })).0, [])
on_data_twice_example =
    on_data_twice toy f events client (record client { rx_counter = 1 }) (delivered (9 ∷ []) 1) refl
      heard_once tt

on_data-encrypt_example :
    (g : List ℕ) × (frame_of toy iv true security text ≡ (ok g, record security { tx_counter = 1 }))
    × (on_data toy binary g client ≡ (record client { rx_counter = 1 }, deliver binary text ∷ []))
on_data-encrypt_example =
    on_data-encrypt toy-IsCrypto security client iv text text tag refl refl refl refl refl
      (omega arith) (omega arith) refl (omega arith)

abbrev peer : Client
peer = record {
  fd = some 3;
  last_seen = 0;
  awaiting_pong = false;
  handshake_verified = true;
  last_counter = 0;
}

receive-ws_client_send_example :
    (g : List ℕ) × (ws_client_send toy iv true true text client
      ≡ (ok tt, (record client { security = record security { tx_counter = 1 } }, some g)))
    × (receive toy security (some 3) binary g peer (peer ∷ []) ≡ (
      ok tt,
      (update_client (some 3) (heard (some 1)) (peer ∷ []), Frames.deliver binary text ∷ []),
    ))
receive-ws_client_send_example =
    receive-ws_client_send toy-IsCrypto security client peer (peer ∷ []) (some 3) iv text text tag
      refl refl refl refl refl refl refl (omega arith) (omega arith) refl (omega arith)

ws_client_stop-Stopped_example :
    Stopped (ws_client_stop client) × ((ws_client_stop client).should_run ≡ false)
ws_client_stop-Stopped_example = ws_client_stop-Stopped client
