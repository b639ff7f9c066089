-- ===== src/Server/Sweep/Laws.antt =====
-- The loop over the client table visits every client once, though it drops clients by descriptor.
use n32r.Prelude.{
  ℕ, ◌+◌, ◌≡◌, refl, sym, ap, ◌∙◌, ◌⊎◌, inl, inr, Bool, false, not, Option, none, some, List, [],
  ◌∷◌, ◌++◌, arith, length, length-append, append_assoc, append-nil, get_elem?, set, Option-cases,
  EspErr, Status, suc,
}
use n32r.Server.Types.{Client, fd_eq, Action}
use n32r.Server.Clients.{free_slot, drop_client_locked}
use n32r.Server.Sweep.{Verdict, keep, drop, worse, round, sweep}
use n32r.Server.Clients.Laws.{fd_eq_refl}

-- No slot has the descriptor.
abbrev pub Absent : ℕ → List Client → Type 0
Absent fd [] = Unit
Absent fd (client ∷ clients) = (fd_eq client.fd (some fd) ≡ false) × Absent fd clients

-- No two slots have the same descriptor.
abbrev pub Distinct : List Client → Type 0
Distinct [] = Unit
Distinct (client ∷ clients) =
    ((fd : ℕ) → client.fd ≡ some fd → Absent fd clients) × Distinct clients

-- The registered clients of `post` are not in `pre`.
abbrev Apart : List Client → List Client → Type 0
Apart pre [] = Unit
Apart pre (client ∷ post) = ((fd : ℕ) → client.fd ≡ some fd → Absent fd pre) × Apart pre post

module _ (hs : Bool) where
  drop-pre :
      (fd : ℕ) (pre : List Client) (client : Client) (post : List Client)
      → client.fd ≡ some fd
      → Absent fd pre
      → drop_client_locked hs (some fd) (pre ++ (client ∷ post))
        ≡ pre ++ (free_slot (not hs) ∷ post)
  unfolding drop_client_locked
  drop-pre fd [] client post e absent = rw (e, fd_eq_refl (some fd))
  drop-pre fd (c ∷ pre) client post e (ne, absent) = rw (ne, drop-pre fd pre client post e absent)

  set-pre :
      (pre : List Client) (client client' : Client) (post : List Client)
      → set (pre ++ (client ∷ post)) (length pre) client' ≡ pre ++ (client' ∷ post)
  set-pre [] client client' post = refl
  set-pre (c ∷ pre) client client' post = ap (λ cs. c ∷ cs) (set-pre pre client client' post)

  get_elem?-pre :
      (pre : List Client) (client : Client) (post : List Client)
      → get_elem? (pre ++ (client ∷ post)) (length pre) ≡ some client
  get_elem?-pre [] client post = refl
  get_elem?-pre (c ∷ pre) client post = get_elem?-pre pre client post

  Absent-append :
      (fd : ℕ) (pre : List Client) (client : Client)
      → Absent fd pre
      → fd_eq client.fd (some fd) ≡ false
      → Absent fd (pre ++ (client ∷ []))
  Absent-append fd [] client absent ne = (ne, tt)
  Absent-append fd (c ∷ pre) client (ne', absent) ne = (ne', Absent-append fd pre client absent ne)

  differs :
      (client d : Client) (fd fd' : ℕ)
      → (client.fd ≡ none) ⊎ (client.fd ≡ some fd)
      → d.fd ≡ some fd'
      → fd_eq d.fd (some fd) ≡ false
      → fd_eq client.fd (some fd') ≡ false
  unfolding fd_eq
  differs client d fd fd' (inl e) at ne = rw e refl
  differs client d fd fd' (inr e) at ne = ground arith

  Apart-snoc :
      (pre post : List Client) (client : Client) (fd : ℕ)
      → (client.fd ≡ none) ⊎ (client.fd ≡ some fd)
      → Absent fd post
      → Apart pre post
      → Apart (pre ++ (client ∷ [])) post
  Apart-snoc pre [] client fd e absent apart = tt
  Apart-snoc pre (d ∷ post) client fd e (ne, absent) (away, apart) = (
    λ fd' at. Absent-append fd' pre client (away fd' at) (differs client d fd fd' e at ne),
    Apart-snoc pre post client fd e absent apart,
  )

  Apart-free :
      (pre post : List Client) (client : Client)
      → client.fd ≡ none
      → Apart pre post
      → Apart (pre ++ (client ∷ [])) post
  unfolding fd_eq
  Apart-free pre [] client e apart = tt
  Apart-free pre (d ∷ post) client e (away, apart) = (
    λ fd' at. Absent-append fd' pre client (away fd' at) (rw e refl),
    Apart-free pre post client e apart,
  )

  module _ (visit : ℕ → Client → Verdict) where
    -- The verdicts on all clients of the table, each slot for itself.
    unfoldable pub visited : List Client → Status → List Client × (List Action × Status)
    visited [] result = ([], ([], result))
    visited (client ∷ clients) result = elim client.fd [
      | none ↦ let (clients', x) = visited clients result in (client ∷ clients', x)
      | some fd ↦ elim (visit fd client) [
        | keep client' actions ↦
            let (clients', (actions', result')) = visited clients result in
            (client' ∷ clients', (actions ++ actions', result'))
        | drop actions failure ↦
            let (clients', (actions', result')) = visited clients (worse result failure) in
            (free_slot (not hs) ∷ clients', (actions ++ actions', result'))
      ]
    ]

    -- A client that is kept keeps its descriptor.
    abbrev pub Keeps : Type 0
    Keeps =
        (fd : ℕ) (client client' : Client) (actions : List Action)
        → visit fd client ≡ keep client' actions
        → client'.fd ≡ client.fd

    -- One slot further.
    further :
        (pre post : List Client) (client : Client) (result : Status)
        → sweep hs visit
            (length post)
            (length (pre ++ (client ∷ [])))
            ((pre ++ (client ∷ [])) ++ post)
            result
          ≡ ((pre ++ (client ∷ [])) ++ (visited post result).0, (visited post result).1)
        → sweep hs visit (length post) (length pre + 1) (pre ++ (client ∷ post)) result
          ≡ (pre ++ (client ∷ (visited post result).0), (visited post result).1)
    further pre post client result h =
        let n : length (pre ++ (client ∷ [])) ≡ length pre + 1 = length-append pre (client ∷ []) in
        rw
          (
            ← n,
            sym (append_assoc pre (client ∷ []) post),
            sym (append_assoc pre (client ∷ []) (visited post result).0),
          )
          h

    -- A round on a registered client.
    round-visited :
        Keeps
        → (fd : ℕ) (pre post : List Client) (client : Client) (verdict : Verdict) (result : Status)
        → visit fd client ≡ verdict
        → client.fd ≡ some fd
        → Absent fd pre
        → (client' : Client) × (actions : List Action) × (failure : Option EspErr) × (round hs visit
              (length pre)
              client
              fd
              (pre ++ (client ∷ post))
            ≡ (pre ++ (client' ∷ post), (actions, failure)))
          × ((client'.fd ≡ none) ⊎ (client'.fd ≡ some fd))
          × (visited (client ∷ post) result ≡ (
              let (clients', (actions', result')) = visited post (worse result failure) in
              (client' ∷ clients', (actions ++ actions', result'))))
    unfolding round visited free_slot
    round-visited keeps fd pre post client (keep client' actions) result e at absent = (
      client',
      actions,
      none,
      rw (e, set-pre pre client client' post, round) refl,
      inr (keeps fd client client' actions e ∙ at),
      rw (at, e, visited) refl,
    )
    round-visited keeps fd pre post client (drop actions failure) result e at absent = (
      free_slot (not hs),
      actions,
      failure,
      rw (e, drop-pre fd pre client post at absent, round) refl,
      inl refl,
      rw (at, e, visited) refl,
    )

    sweep_step :
        (fd : ℕ) (pre post : List Client) (client client' : Client) (actions : List Action)
        (failure : Option EspErr) (result : Status)
        → client.fd ≡ some fd
        → round hs visit (length pre) client fd (pre ++ (client ∷ post))
          ≡ (pre ++ (client' ∷ post), (actions, failure))
        → visited (client ∷ post) result ≡ (
            let (clients', (actions', result')) = visited post (worse result failure) in
            (client' ∷ clients', (actions ++ actions', result')))
        → sweep hs visit
            (length post)
            (length pre + 1)
            (pre ++ (client' ∷ post))
            (worse result failure)
          ≡ (
            pre ++ (client' ∷ (visited post (worse result failure)).0),
            (visited post (worse result failure)).1,
          )
        → sweep hs visit (suc (length post)) (length pre) (pre ++ (client ∷ post)) result
          ≡ (pre ++ (visited (client ∷ post) result).0, (visited (client ∷ post) result).1)
    unfolding sweep
    sweep_step fd pre post client client' actions failure result at e v rest =
        rw (v, get_elem?-pre pre client post, at, e, rest, sweep) refl

    sweep-visited_from :
        Keeps
        → (pre post : List Client) (result : Status) → Apart pre post
        → Distinct post
        → sweep hs visit (length post) (length pre) (pre ++ post) result
          ≡ (pre ++ (visited post result).0, (visited post result).1)
    unfolding sweep visited
    sweep-visited_from keeps pre [] result apart distinct = rw (append-nil pre) refl
    sweep-visited_from keeps pre (client ∷ post) result (away, apart) (single, distinct) =
        elim (Option-cases client.fd) [
          | inl free ↦
              rw
                (
                  get_elem?-pre pre client post,
                  free,
                  further pre post client result (
                      sweep-visited_from keeps (pre ++ (client ∷ [])) post result
                        (Apart-free pre post client free apart) distinct),
                  sweep,
                  visited,
                )
                refl
          | inr (fd, at) ↦
              let (client', actions, failure, e, new, v) =
                round-visited keeps fd pre post client (visit fd client) result refl at
                  (away fd at) in
              sweep_step fd pre post client client' actions failure result at e v (
                further pre post client' (worse result failure) (
                  sweep-visited_from keeps (pre ++ (client' ∷ [])) post (worse result failure)
                    (Apart-snoc pre post client' fd new (single fd at) apart) distinct))
        ]

    Apart-nil : (post : List Client) → Apart [] post
    Apart-nil [] = tt
    Apart-nil (client ∷ post) = (λ fd at. tt, Apart-nil post)

    -- In a table without double descriptors, the loop over the slots, which drops clients by their
    -- descriptor, gives each slot what the verdict on its own client says, and collects the actions
    -- and the last error in the order of the slots. It is assumed that a kept client keeps its
    -- descriptor.
    pub sweep-visited :
        Keeps
        → (clients : List Client) (result : Status) → Distinct clients
        → sweep hs visit (length clients) 0 clients result ≡ visited clients result
    sweep-visited keeps clients result distinct =
        sweep-visited_from keeps [] clients result (Apart-nil clients) distinct
