-- ===== src/WsClient.antt =====
-- common/net/ws_client.c: the panel's side of the connection.
pub mod Hex
pub mod Decimal
pub mod State
pub mod Headers
pub mod Authorized
pub mod Events
pub mod Lifecycle
pub mod Send
mod Tests
use n32r.Prelude.{ℕ, ◌/◌, ◌%◌, ◌^◌, List, [], ◌∷◌, get_or}
use n32r.Prelude.Bytes.{codes}

-- Two digits for each byte, without the terminator.
unfoldable pub bytes_to_hex : List ℕ → List ℕ
bytes_to_hex [] = []
bytes_to_hex (byte ∷ bytes) =
    get_or (codes "0123456789abcdef") (byte / 2 ^ 4) 0
    ∷ (get_or (codes "0123456789abcdef") (byte % 2 ^ 4) 0 ∷ bytes_to_hex bytes)
