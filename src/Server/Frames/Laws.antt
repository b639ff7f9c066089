-- ===== src/Server/Frames/Laws.antt =====
-- What an encrypted frame must show to reach the callback.
use n32r.Prelude.{
  ℕ, ◌≡◌, ◌<◌, ◌≤◌, refl, sym, ap, ◌∙◌, ◌⊎◌, inl, inr, Bool-cases, Option-cases, Result-cases, true,
  false, Option, some, none, List, [], ◌∷◌, Status, ok, err, EspErr, invalid_response,
  invalid_state,
}
use n32r.Crypto.{Crypto}
use n32r.Security.{Context, decrypt}
use n32r.Security.Replay.{counter_of, decrypt_grows, decrypt_twice}
use n32r.Server.Types.{Client, Action, closed, binary, fd_eq}
use n32r.Server.Clients.{find_client, update_client, drop_client_locked}
use n32r.Server.Clients.Laws.{fd_eq→≡}
use n32r.Server.Sweep.Find.{find_hit, find_miss}
use n32r.Server.Frames.{heard, deliver, receive, on_frame}

-- An update that keeps the descriptors changes the client that is found.
find-update :
    (fd : Option ℕ) (f : Client → Client) (clients : List Client) (client : Client)
    → ((c : Client) → (f c).fd ≡ c.fd)
    → find_client fd clients ≡ some client
    → find_client fd (update_client fd f clients) ≡ some (f client)
unfolding find_client update_client
find-update fd f [] client keeps h = cc h
find-update fd f (c ∷ clients) client keeps h = elim (Bool-cases (fd_eq c.fd fd)) [
  | inl hit ↦
      let at : c.fd ≡ fd = fd_eq→≡ c.fd fd hit in
      let same : some c ≡ some client = sym (find_hit fd c clients at) ∙ h in
      rw hit (find_hit fd (f c) clients (keeps c ∙ at) ∙ (cc same))
  | inr miss ↦ rw miss (
      find_miss fd c (update_client fd f clients) miss
      ∙ find-update fd f clients client keeps (sym (find_miss fd c clients miss) ∙ h))
]

module _ (c : Crypto) (ctx : Context) (fd : Option ℕ) where
  -- What was taken from an encrypted frame that has been delivered.
  pub record Accepted (now : ℕ) (payload : List ℕ) (clients : List Client) (status : Status)
      (clients' : List Client) (actions : List Action) : Type 0 where
    pub client : Client
    pub plaintext : List ℕ
    pub found : find_client fd clients ≡ some client
    pub verified : client.handshake_verified ≡ true
    pub decrypted :
        decrypt c ctx payload (some client.last_counter) ≡ ok (plaintext, some (counter_of payload))
    pub grown : client.last_counter < counter_of payload
    pub returned : status ≡ ok tt
    pub done : actions ≡ deliver binary plaintext ∷ []
    pub after :
        find_client fd clients'
        ≡ some (record client {
          last_seen = now;
          awaiting_pong = false;
          last_counter = counter_of payload;
        })

  -- A frame that has not reached the callback.
  abbrev pub Refused : Status → List Action → Type 0
  Refused status actions =
      (e : EspErr) × (status ≡ err e) × ((actions ≡ []) ⊎ (actions ≡ closed fd ∷ []))

  -- One or the other.
  abbrev pub Judged : ℕ → List ℕ → List Client → Status × (List Client × List Action) → Type 0
  Judged now payload clients (status, (clients', actions)) =
      Accepted now payload clients status clients' actions ⊎ Refused status actions

  module _ (on : ctx.encryption_enabled ≡ true) (now : ℕ) (payload : List ℕ) where
    unknown :
        (clients : List Client)
        → find_client fd clients ≡ none
        → on_frame c ctx fd true now binary payload clients ≡ (err invalid_state, (clients, []))
    unfolding on_frame
    unknown clients e = rw (e, on_frame) refl

    on_frame-receive :
        (client : Client) (clients : List Client)
        → find_client fd clients ≡ some client
        → on_frame c ctx fd true now binary payload clients
          ≡ receive c ctx fd binary payload client
              (update_client fd (λ c. record c { last_seen = now }) clients)
    unfolding on_frame
    on_frame-receive client clients e = rw (e, on_frame) refl

    unverified :
        (client : Client) (clients : List Client)
        → client.handshake_verified ≡ false
        → receive c ctx fd binary payload client clients ≡ (err invalid_state, (clients, []))
    unfolding receive
    unverified client clients v = rw (v, on, receive) refl

    undecrypted :
        (client : Client) (clients : List Client) (e : EspErr)
        → client.handshake_verified ≡ true
        → decrypt c ctx payload (some client.last_counter) ≡ err e
        → receive c ctx fd binary payload client clients
          ≡ (err e, (drop_client_locked ctx.handshake_enabled fd clients, closed fd ∷ []))
    unfolding receive
    undecrypted client clients e v d = rw (d, v, on, receive) refl

    receive-decrypt :
        (client : Client) (clients : List Client) (plaintext : List ℕ) (counter : ℕ)
        → client.handshake_verified ≡ true
        → decrypt c ctx payload (some client.last_counter) ≡ ok (plaintext, some counter)
        → receive c ctx fd binary payload client clients ≡ (
          ok tt,
          (update_client fd (heard (some counter)) clients, deliver binary plaintext ∷ []),
        )
    unfolding receive
    receive-decrypt client clients plaintext counter v d = rw (d, v, on, receive) refl

    accepted :
        (client : Client) (clients : List Client) (plaintext : List ℕ) {counter : Option ℕ}
        → find_client fd clients ≡ some client
        → client.handshake_verified ≡ true
        → decrypt c ctx payload (some client.last_counter) ≡ ok (plaintext, counter)
        → Judged now payload clients (on_frame c ctx fd true now binary payload clients)
    accepted client clients plaintext {counter} at v d =
        let (state, grown) = decrypt_grows c ctx on payload d in
        let d' : decrypt c ctx payload (some client.last_counter)
            ≡ ok (plaintext, some (counter_of payload)) =
          d ∙ ap (λ s. ok (plaintext, s)) state in
        let seen : Client → Client = λ c. record c { last_seen = now } in
        let clients' = update_client fd seen clients in
        rw
          (on_frame-receive client clients at
            ∙ receive-decrypt client clients' plaintext (counter_of payload) v d')
          (inl (record {
            client = client;
            plaintext = plaintext;
            found = at;
            verified = v;
            decrypted = d';
            grown = grown;
            returned = refl;
            done = refl;
            after =
                find-update fd (heard (some (counter_of payload))) clients' (seen client)
                  (λ c. refl) (find-update fd seen clients client (λ c. refl) at);
          }))

    -- With encryption enabled, a binary frame reaches the callback only from a verified client, after
    -- authenticated decryption and with a counter above the last one, which it then replaces.
    -- Otherwise the handler fails, and nothing is delivered.
    pub on_frame_lem :
        (clients : List Client)
        → Judged now payload clients (on_frame c ctx fd true now binary payload clients)
    on_frame_lem clients = elim (Option-cases (find_client fd clients)) [
      | inl e ↦ rw (unknown clients e) (inr (_, refl, inl refl))
      | inr (client, at) ↦ elim (Bool-cases client.handshake_verified) [
        | inr v ↦
            rw (on_frame-receive client clients at ∙ unverified client _ v)
              (inr (_, refl, inl refl))
        | inl v ↦ elim (Result-cases (decrypt c ctx payload (some client.last_counter))) [
          | inr (e, d) ↦
              rw (on_frame-receive client clients at ∙ undecrypted client _ e v d)
                (inr (_, refl, inr refl))
          | inl ((plaintext, counter), d) ↦ accepted client clients plaintext at v d
        ]
      ]
    ]

  -- With encryption enabled, a frame that has been accepted is refused as a replay when it comes
  -- again on the same descriptor, from a verified client whose counter is at least that of the
  -- frame; the client is dropped and its session closed.
  pub on_frame_twice :
      (now now' : ℕ) (payload : List ℕ) (clients later : List Client) (status : Status)
      (clients' : List Client) (actions : List Action) (client : Client)
      → ctx.encryption_enabled ≡ true
      → Accepted now payload clients status clients' actions
      → find_client fd later ≡ some client
      → client.handshake_verified ≡ true
      → counter_of payload ≤ client.last_counter
      → on_frame c ctx fd true now' binary payload later ≡ (
        err invalid_response,
        (
          drop_client_locked ctx.handshake_enabled fd
              (update_client fd (λ c. record c { last_seen = now' }) later),
          closed fd ∷ [],
        ),
      )
  on_frame_twice now now' payload clients later status clients' actions client on a at v le =
      let (_, refused) = decrypt_twice c ctx on payload a.decrypted le in
      on_frame-receive on now' payload client later at
      ∙ undecrypted on now' payload client _ invalid_response v refused
