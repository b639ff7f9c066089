-- ===== src/Server/Frames/Tests.antt =====
-- Tests of the frame handler, over the toy cipher.
use n32r.Prelude.{
  ℕ, ◌≡◌, refl, some, List, [], ◌∷◌, true, false, arith, replicate, ok, err, invalid_response,
}
use n32r.Prelude.Bytes.{le_bytes, le_value, bytes_eq}
use n32r.Crypto.Toy.{toy, digest}
use n32r.Security.{Context, decrypt, open_frame}
use n32r.Security.Frame.{frame}
use n32r.Server.Types.{Client, binary, closed, fd_eq}
use n32r.Server.Clients.{find_client, update_client, drop_client_locked}
use n32r.Server.Frames.{deliver, on_frame}
use n32r.Server.Frames.Laws.{Accepted, Judged, on_frame_lem, on_frame_twice}

abbrev ctx : Context
ctx = record {
  handshake_enabled = false;
  encryption_enabled = true;
  totp_enabled = false;
  handshake_key = replicate 32 0;
  frame_key = replicate 32 1;
  tx_counter = 0;
  totp_secret = [];
  totp_period_s = 0;
  totp_digits = 0;
  totp_window = 0;
}

abbrev payload : List ℕ
payload = frame 6 (replicate 12 5) (7 ∷ 8 ∷ []) (replicate 16 1)

abbrev client : Client
client = record {
  fd = some 4;
  last_seen = 100;
  awaiting_pong = true;
  handshake_verified = true;
  last_counter = 5;
}

abbrev heard_client : Client
heard_client = record client { last_seen = 120; awaiting_pong = false; last_counter = 6 }

on_frame_lem_example :
    Judged toy ctx
      (some 4)
      120
      payload
      (client ∷ [])
      (on_frame toy ctx (some 4) true 120 binary payload (client ∷ []))
on_frame_lem_example = on_frame_lem toy ctx (some 4) refl 120 payload (client ∷ [])

taken :
    Accepted toy ctx
      (some 4)
      120
      payload
      (client ∷ [])
      (ok tt)
      (heard_client ∷ [])
      (deliver binary (7 ∷ 8 ∷ []) ∷ [])
unfolding find_client decrypt open_frame digest bytes_eq le_bytes le_value fd_eq
taken = record {
  client = client;
  plaintext = 7 ∷ 8 ∷ [];
  found = refl;
  verified = refl;
  decrypted = refl;
  grown = omega arith;
  returned = refl;
  done = refl;
  after = refl;
}

on_frame_twice_example : on_frame toy ctx (some 4) true 130 binary payload (heard_client ∷ []) ≡ (
  err invalid_response,
  (
    drop_client_locked false
        (some 4)
        (update_client (some 4) (λ c. record c { last_seen = 130 }) (heard_client ∷ [])),
    closed (some 4) ∷ [],
  ),
)
unfolding find_client le_value le_bytes fd_eq
on_frame_twice_example =
    on_frame_twice toy ctx (some 4) 120 130 payload (client ∷ []) (heard_client ∷ []) (ok tt)
      (heard_client ∷ []) (deliver binary (7 ∷ 8 ∷ []) ∷ []) heard_client refl taken refl refl
      (omega arith)
