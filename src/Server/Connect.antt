-- ===== src/Server/Connect.antt =====
-- `ws_handler` of ws_server.c: the part for the HTTP GET that opens a connection, and the choice
-- between it and the frames. Also `ws_close_hook`.
pub mod Laws
mod Tests
use n32r.Prelude.{
  ℕ, Bool, true, false, not, Option, none, some, List, [], ◌∷◌, if◌then◌else◌, esp_fail, Result,
  Status, ok, err,
}
use n32r.Crypto.{Crypto}
use n32r.Util.Base64.{Codec}
use n32r.Server.Types.{Action, FrameType, NonceEntry, responded}
use n32r.Server.Clients.{Table, add_client, mark_client_verified, drop_client}
use n32r.Server.Authorize.{Headers, authorize_request}
use n32r.Server.State.{Config, Server}
use n32r.Server.Frames.{handle_frame}

-- The entries that the nonce functions walk over.
abbrev pub entries : Server → List NonceEntry
entries server = elim server.nonce_cache [ none ↦ [] | some cache ↦ cache ]

-- They write to the cache in place.
abbrev pub with_entries : List NonceEntry → Server → Server
with_entries cache server = record server {
  nonce_cache = elim server.nonce_cache [ none ↦ none | some _ ↦ some cache ];
}

-- The table once a connection is accepted.
abbrev pub accept : Bool → Option ℕ → Table → Table
accept handshake_enabled fd table =
    if handshake_enabled then mark_client_verified fd table else table

module _ (c : Crypto) (b : Codec) (now unix_time : ℕ) where
  unfoldable pub connect : Headers → Option ℕ → Server → Status × (Server × List Action)
  connect headers fd server =
      let hs = server.security.handshake_enabled in
      let (passed, cache) =
        authorize_request c b server.security server.cfg.auth_token server.nonce_ttl_ticks now
          unix_time headers (entries server) in
      let server' = with_entries cache server in
      if not passed
      then (err esp_fail, (server', responded 401 ∷ []))
      else (let (status, table) = add_client hs fd now server.clients in
          elim status [
            | err e ↦ (err esp_fail, (record server' { clients = table }, responded 503 ∷ []))
            | ok _ ↦ (ok tt, (record server' { clients = accept hs fd table }, []))
          ])

  -- A request: whether it is a GET, its headers and its descriptor, and what reading its frame gives.
  unfoldable pub ws_handler :
      Bool
      → Headers
      → Option ℕ
      → Result ℕ
      → Result (FrameType × List ℕ)
      → Server
      → Status × (Server × List Action)
  ws_handler is_get headers fd announced frame server =
      if is_get
      then connect headers fd server
      else (let (status, (table, actions)) =
            handle_frame c server.security fd server.has_rx_cb server.cfg.rx_buffer_size now
              announced frame server.clients in
          (status, (record server { clients = table }, actions)))

unfoldable pub ws_close_hook : Option ℕ → Server → Server
ws_close_hook fd server = record server {
  clients = drop_client server.security.handshake_enabled fd server.clients;
}
