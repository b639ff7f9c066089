-- ===== src/Server/Types.antt =====
-- The static state of ws_server.c. Every handler runs to its end before the next one starts: the
-- client table is locked with no time limit.
use n32r.Prelude.{ℕ, Bool, Option, List, ◌==◌, true, false, none, some}

-- `ws_client_t`. `none` is the descriptor -1 of a free slot.
pub record Client : Type 0 where
  pub fd : Option ℕ
  pub last_seen : ℕ
  pub awaiting_pong : Bool
  pub handshake_verified : Bool
  pub last_counter : ℕ

-- `ws_nonce_entry_t`
pub record NonceEntry : Type 0 where
  pub valid : Bool
  pub timestamp : ℕ
  pub nonce : List ℕ

-- `a == b` on descriptors.
unfoldable pub fd_eq : Option ℕ → Option ℕ → Bool
fd_eq none none = true
fd_eq none (some b) = false
fd_eq (some a) none = false
fd_eq (some a) (some b) = a == b

-- `httpd_ws_type_t`; `other` stands for the types that the firmware does not name.
pub data FrameType : Type 0 where
  text binary ping pong other : FrameType

-- What the server asks of its platform, in order: a frame to a client, the end of its session, the
-- status line of an answer, and a message for the receive callback with its CRC.
pub data Action : Type 0 where
  sent : Option ℕ → FrameType → List ℕ → Action
  closed : Option ℕ → Action
  responded : ℕ → Action
  delivered : List ℕ → ℕ → Action
