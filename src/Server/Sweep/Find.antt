-- ===== src/Server/Sweep/Find.antt =====
-- What the loop over the client table leaves of each client.
use n32r.Prelude.{
  ℕ, ◌≡◌, refl, sym, ap, ◌∙◌, ◌⊎◌, inl, inr, Bool, false, not, Option, none, some, List, [], ◌∷◌,
  Bool-cases, Option-cases, Status,
}
use n32r.Server.Types.{Client, fd_eq}
use n32r.Server.Clients.{find_client, free_slot}
use n32r.Server.Clients.Laws.{fd_eq_refl, fd_eq→≡}
use n32r.Server.Sweep.{Verdict, keep, drop, worse}
use n32r.Server.Sweep.Laws.{Absent, Distinct, Keeps, visited}

-- The client that a verdict leaves.
abbrev pub left_of : Verdict → Option Client
left_of (keep client actions) = some client
left_of (drop actions failure) = none

pub find_miss :
    (fd : Option ℕ) (c : Client) (cs : List Client)
    → fd_eq c.fd fd ≡ false
    → find_client fd (c ∷ cs) ≡ find_client fd cs
unfolding find_client
find_miss fd c cs e = rw e refl

pub find_hit :
    (fd : Option ℕ) (c : Client) (cs : List Client) → c.fd ≡ fd → find_client fd (c ∷ cs) ≡ some c
unfolding find_client
find_hit fd c cs e = rw (e, fd_eq_refl fd) refl

free_miss : (fd : ℕ) (c : Client) → c.fd ≡ none → fd_eq c.fd (some fd) ≡ false
unfolding fd_eq
free_miss fd c e = rw e refl

module _ (hs : Bool) (visit : ℕ → Client → Verdict) (keeps : Keeps hs visit) where
  -- The slot that the first client leaves, and the rest.
  visited_cons :
      (client : Client) (clients : List Client) (verdict : Verdict) (fd : ℕ) (result : Status)
      → visit fd client ≡ verdict
      → client.fd ≡ some fd
      → (client' : Client) × (result' : Status) × ((visited hs visit (client ∷ clients) result).0
          ≡ client' ∷ (visited hs visit clients result').0)
        × ((left_of verdict ≡ some client') × (client'.fd ≡ some fd)
            ⊎ ((left_of verdict ≡ none) × (client'.fd ≡ none)))
  unfolding visited free_slot
  visited_cons client clients (keep client' actions) fd result e at = (
    client',
    result,
    rw (at, e, visited) refl,
    inl (refl, keeps fd client client' actions e ∙ at),
  )
  visited_cons client clients (drop actions failure) fd result e at =
      (free_slot (not hs), worse result failure, rw (at, e, visited) refl, inr (refl, refl))

  visited_free :
      (client : Client) (clients : List Client) (result : Status)
      → client.fd ≡ none
      → (visited hs visit (client ∷ clients) result).0
        ≡ client ∷ (visited hs visit clients result).0
  unfolding visited
  visited_free client clients result e = rw e refl

  -- A slot with another descriptor does not get this one.
  visited_miss :
      (fd : ℕ) (client : Client) (clients : List Client) (result : Status)
      → fd_eq client.fd (some fd) ≡ false
      → (client' : Client) × (result' : Status) × ((visited hs visit (client ∷ clients) result).0
          ≡ client' ∷ (visited hs visit clients result').0)
        × (fd_eq client'.fd (some fd) ≡ false)
  unfolding fd_eq
  visited_miss fd client clients result ne = elim (Option-cases client.fd) [
    | inl free ↦ (client, result, visited_free client clients result free, ne)
    | inr (fd', at) ↦
        let (client', result', e, new) =
          visited_cons client clients (visit fd' client) fd' result refl at in
        elim new [
          | inl (_, at') ↦ (client', result', e, ap (λ d. fd_eq d (some fd)) (at' ∙ sym at) ∙ ne)
          | inr (_, free) ↦ (client', result', e, free_miss fd client' free)
        ]
  ]

  find-visited-none :
      (fd : ℕ) (clients : List Client) (result : Status)
      → Absent fd clients
      → find_client (some fd) (visited hs visit clients result).0 ≡ none
  unfolding find_client visited
  find-visited-none fd [] result absent = refl
  find-visited-none fd (client ∷ clients) result (ne, absent) =
      let (client', result', e, ne') = visited_miss fd client clients result ne in
      ap (find_client (some fd)) e
      ∙ find_miss (some fd) client' _ ne'
      ∙ find-visited-none fd clients result' absent

  -- The table that the loop leaves holds of each client what the verdict on it leaves.
  pub find-visited :
      (fd : ℕ) (clients : List Client) (client : Client) (result : Status)
      → Distinct clients
      → find_client (some fd) clients ≡ some client
      → find_client (some fd) (visited hs visit clients result).0 ≡ left_of (visit fd client)
  unfolding find_client
  find-visited fd [] client result distinct h = cc h
  find-visited fd (c ∷ clients) client result (single, distinct) h =
      elim (Bool-cases (fd_eq c.fd (some fd))) [
        | inl hit ↦
            let at : c.fd ≡ some fd = fd_eq→≡ c.fd (some fd) hit in
            let same : some c ≡ some client = sym (find_hit (some fd) c clients at) ∙ h in
            let this : visit fd c ≡ visit fd client = cc in
            let (client', result', e, new) =
              visited_cons c clients (visit fd c) fd result refl at in
            ap (find_client (some fd)) e
            ∙ (elim new [
              | inl (l, at') ↦ find_hit (some fd) client' _ at' ∙ sym l
              | inr (l, free) ↦
                  find_miss (some fd) client' _ (free_miss fd client' free)
                  ∙ find-visited-none fd clients result' (single fd at)
                  ∙ sym l
            ])
            ∙ ap left_of this
        | inr miss ↦
            let (client', result', e, ne') = visited_miss fd c clients result miss in
            ap (find_client (some fd)) e
            ∙ find_miss (some fd) client' _ ne'
            ∙ find-visited fd clients client result' distinct
                (sym (find_miss (some fd) c clients miss) ∙ h)
      ]
