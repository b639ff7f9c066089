-- ===== src/Server/Broadcast/Laws.antt =====
-- Whom a broadcast reaches.
use n32r.Prelude.{
  ℕ, ◌≡◌, ◌↔◌, refl, sym, ◌∙◌, inl, inr, Option-cases, Result-cases, Bool, some, none, List, [],
  ◌∷◌, arith, Status, ok, err,
}
use n32r.Server.Clients.{find_client}
use n32r.Server.Sweep.Laws.{Distinct, Keeps, visited, sweep-visited}
use n32r.Server.Sweep.Find.{find-visited}
use n32r.Server.Broadcast.{send_client, broadcast}
use n32r.Security.{Context}
use n32r.Server.Types.{Client, Action}

module _ (send : ℕ → Status) where
  -- The frame can be queued for every registered client.
  abbrev pub AllReached : List Client → Type 0
  AllReached [] = Unit
  AllReached (client ∷ clients) =
      ((fd : ℕ) → client.fd ≡ some fd → send fd ≡ ok tt) × AllReached clients

  module _ (hs : Bool) (frame : List ℕ) where
    send_keeps : Keeps hs (send_client send frame)
    unfolding send_client
    send_keeps fd client client' actions h = ground arith

    reached_free :
        (client : Client) (clients : List Client) (result : Status)
        → client.fd ≡ none
        → (visited hs (send_client send frame) (client ∷ clients) result).1.1
          ≡ (visited hs (send_client send frame) clients result).1.1
    unfolding visited
    reached_free client clients result e = rw e refl

    reached_next :
        (client : Client) (clients : List Client) (result outcome : Status) (fd : ℕ)
        → client.fd ≡ some fd
        → send fd ≡ outcome
        → (visited hs (send_client send frame) (client ∷ clients) result).1.1
          ≡ (visited hs
              (send_client send frame)
              clients
              (elim outcome [ ok _ ↦ result | err e ↦ err e ])).1.1
    unfolding visited send_client
    reached_next client clients result (ok _) fd at e = rw (at, e, visited) refl
    reached_next client clients result (err code) fd at e = rw (at, e, visited) refl

    all_reached :
        (clients : List Client) (result : Status)
        → ((visited hs (send_client send frame) clients result).1.1 ≡ ok tt)
          ↔ ((result ≡ ok tt) × AllReached clients)
    unfolding visited
    all_reached [] result = (λ h. (h, tt), λ (h, _). h)
    all_reached (client ∷ clients) result = elim (Option-cases client.fd) [
      | inl free ↦
          let e = reached_free client clients result free in
          let (there, back) = all_reached clients result in
          (
            λ h. let (r, a) = there (sym e ∙ h) in (r, (λ fd at. cc, a)),
            λ (r, (_, a)). e ∙ back (r, a),
          )
      | inr (fd, at) ↦ elim (Result-cases (send fd)) [
        | inl (_, s) ↦
            let e = reached_next client clients result (ok tt) fd at s in
            let (there, back) = all_reached clients result in
            (
              λ h. let (r, a) = there (sym e ∙ h) in (r, (λ fd' at'. cc, a)),
              λ (r, (_, a)). e ∙ back (r, a),
            )
        | inr (code, s) ↦
            let e = reached_next client clients result (err code) fd at s in
            (
              λ h. let (r, _) = (all_reached clients (err code)).0 (sym e ∙ h) in cc r,
              λ (r, (f, _)). cc (f fd at, s),
            )
      ]
    ]

  -- In a table without double descriptors, a broadcast drops exactly the clients that the frame
  -- cannot be queued for and leaves the others as they are. It returns ESP_OK exactly if there were
  -- none of the former.
  pub broadcast_lem :
      (ctx : Context) (frame : List ℕ) (clients : List Client) (fd : ℕ) (client : Client)
      → Distinct clients
      → find_client (some fd) clients ≡ some client
      → (result : Status) × (clients' : List Client) × (actions : List Action) × (broadcast send ctx
            frame
            (some clients)
          ≡ (result, (some clients', actions)))
        × ((result ≡ ok tt) ↔ AllReached clients)
        × (find_client (some fd) clients' ≡ (elim (send fd) [ ok _ ↦ some client | err e ↦ none ]))
  unfolding broadcast send_client
  broadcast_lem ctx frame clients fd client distinct at =
      let hs = ctx.handshake_enabled in
      let v = visited hs (send_client send frame) clients (ok tt) in
      let (there, back) = all_reached hs frame clients (ok tt) in
      (
        v.1.1,
        v.0,
        v.1.0,
        rw
            (sweep-visited hs (send_client send frame) (send_keeps hs frame) clients (ok tt)
              distinct)
            refl,
        (λ h. (there h).1, λ a. back (refl, a)),
        find-visited hs (send_client send frame) (send_keeps hs frame) fd clients client (ok tt)
              distinct at
            ∙ ground arith,
      )
