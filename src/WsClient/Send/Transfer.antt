-- ===== src/WsClient/Send/Transfer.antt =====
-- What one endpoint sends in a protected frame, the other's callback receives.
use n32r.Prelude.{
  List, Option, [], arith, length, ltb, ok, refl, some, tests, true, ℕ, ◌+◌, ◌<◌, ◌∷◌, ◌≡◌, ◌≤◌,
}
use n32r.Crypto.{Crypto, IsCrypto}
use n32r.Security.{Context, encrypted_size, encrypt, decrypt}
use n32r.Security.Frame.{header, decrypt-encrypt}
use n32r.Server.Types.{Client, binary}
use n32r.Server.Clients.{update_client}
use n32r.Server.Frames.{receive, heard}
use n32r.Server.Frames
use n32r.WsClient.State.{State}
use n32r.WsClient.Events.{on_data}
use n32r.WsClient.Events
use n32r.WsClient.Send.{ws_client_send}
use n32r.Prelude.Words.{u64_mod, u32_mod}
use n32r.Server.Broadcast.{frame_of}

module _ (c : Crypto) where
  send_on :
      (iv payload f : List ℕ) (ctx' : Context) (st : State)
      → st.has_client ≡ true
      → st.connected ≡ true
      → st.security.encryption_enabled ≡ true
      → encrypt c iv st.security payload (encrypted_size st.security (length payload))
        ≡ (ok f, ctx')
      → ws_client_send c iv true true payload st ≡ (ok tt, (record st { security = ctx' }, some f))
  unfolding ws_client_send
  send_on iv payload f ctx' st client connected on e = simp (client, connected, on, e) refl

  receive_on :
      (ctx : Context) (fd : Option ℕ) (f text : List ℕ) (n : ℕ) (client : Client)
      (clients : List Client)
      → ctx.encryption_enabled ≡ true
      → client.handshake_verified ≡ true
      → decrypt c ctx f (some client.last_counter) ≡ ok (text, some n)
      → receive c ctx fd binary f client clients
        ≡ (ok tt, (update_client fd (heard (some n)) clients, Frames.deliver binary text ∷ []))
  unfolding receive
  receive_on ctx fd f text n client clients on verified e = simp (on, verified, e, receive) refl

  on_data_on :
      (f text : List ℕ) (n : ℕ) (st : State)
      → st.has_rx_cb ≡ true
      → 0 < length f
      → st.security.encryption_enabled ≡ true
      → decrypt c st.security f (some st.rx_counter) ≡ ok (text, some n)
      → on_data c binary f st ≡ (record st { rx_counter = n }, Events.deliver binary text ∷ [])
  unfolding on_data
  on_data_on f text n st cb long on e =
      let l : ltb 0 (length f) ≡ true = omega tests in simp (cb, l, on, e) refl

  frame_on :
      (iv payload f : List ℕ) (ctx ctx' : Context)
      → ctx.encryption_enabled ≡ true
      → encrypt c iv ctx payload (encrypted_size ctx (length payload)) ≡ (ok f, ctx')
      → frame_of c iv true ctx payload ≡ (ok f, ctx')
  unfolding frame_of
  frame_on iv payload f ctx ctx' on e = simp (on, e) refl

  long_frame :
      (ctx : Context) (n m : ℕ)
      → ctx.encryption_enabled ≡ true
      → 38 + n < u32_mod
      → m ≡ encrypted_size ctx n
      → 0 < m
  unfolding encrypted_size
  long_frame ctx n m on small e = ground arith

-- A message that a connected client sends is received by the server: it hands the transport a frame
-- and steps its counter, and the server, which has the same frame key and has seen smaller counters
-- only from this client, delivers the message and notes the counter. Encryption is enabled on both
-- sides, the client's handshake is verified, the nonce has 12 bytes, allocation, transport and cipher
-- succeed, and neither the counter nor the length wraps.
pub receive-ws_client_send :
    {c : Crypto} (laws : IsCrypto c) (ctx : Context) (st : State) (client : Client)
    (clients : List Client) (fd : Option ℕ) (iv payload ciphertext tag : List ℕ)
    → st.has_client ≡ true
    → st.connected ≡ true
    → st.security.encryption_enabled ≡ true
    → ctx.encryption_enabled ≡ true
    → client.handshake_verified ≡ true
    → ctx.frame_key ≡ st.security.frame_key
    → length iv ≡ 12
    → st.security.tx_counter + 1 < u64_mod
    → 38 + length payload < u32_mod
    → c.gcm_crypt_and_tag st.security.frame_key iv (header (st.security.tx_counter + 1)) payload
      ≡ some (ciphertext, tag)
    → client.last_counter ≤ st.security.tx_counter
    → (f : List ℕ) × (ws_client_send c iv true true payload st ≡ (
      ok tt,
      (
        record st { security = record st.security { tx_counter = st.security.tx_counter + 1 } },
        some f,
      ),
    ))
      × (receive c ctx fd binary f client clients ≡ (
        ok tt,
        (
          update_client fd (heard (some (st.security.tx_counter + 1))) clients,
          Frames.deliver binary payload ∷ [],
        ),
      ))
receive-ws_client_send {c} laws ctx st client clients fd iv payload ciphertext tag has_client
      connected tx_on rx_on verified key iv_ok no_wrap small crypt seen =
    let (f, e, _, d) =
      decrypt-encrypt laws st.security ctx iv payload ciphertext tag
        (encrypted_size st.security (length payload)) client.last_counter tx_on rx_on key iv_ok
        no_wrap small (omega arith) crypt seen in
    (
      f,
      send_on c iv payload f _ st has_client connected tx_on e,
      receive_on c ctx fd f payload (st.security.tx_counter + 1) client clients rx_on verified d,
    )

-- A message in the server's protected frame reaches the callback of a client that has the same frame
-- key and has seen smaller counters only, and the client notes the counter. Encryption is enabled on both
-- sides, the nonce has 12 bytes, the cipher succeeds, and neither the counter nor the length wraps.
pub on_data-encrypt :
    {c : Crypto} (laws : IsCrypto c) (ctx : Context) (st : State)
    (iv payload ciphertext tag : List ℕ)
    → st.has_rx_cb ≡ true
    → st.security.encryption_enabled ≡ true
    → ctx.encryption_enabled ≡ true
    → st.security.frame_key ≡ ctx.frame_key
    → length iv ≡ 12
    → ctx.tx_counter + 1 < u64_mod
    → 38 + length payload < u32_mod
    → c.gcm_crypt_and_tag ctx.frame_key iv (header (ctx.tx_counter + 1)) payload
      ≡ some (ciphertext, tag)
    → st.rx_counter ≤ ctx.tx_counter
    → (f : List ℕ) × (frame_of c iv true ctx payload
        ≡ (ok f, record ctx { tx_counter = ctx.tx_counter + 1 }))
      × (on_data c binary f st
          ≡ (record st { rx_counter = ctx.tx_counter + 1 }, Events.deliver binary payload ∷ []))
on_data-encrypt {c} laws ctx st iv payload ciphertext tag cb rx_on tx_on key iv_ok no_wrap small
      crypt seen =
    let (f, e, len, d) =
      decrypt-encrypt laws ctx st.security iv payload ciphertext tag
        (encrypted_size ctx (length payload)) st.rx_counter tx_on rx_on key iv_ok no_wrap small
        (omega arith) crypt seen in
    (
      f,
      frame_on c iv payload f ctx _ tx_on e,
      on_data_on c f payload (ctx.tx_counter + 1) st cb
          (long_frame c ctx (length payload) (length f) tx_on small len) rx_on d,
    )
