-- ===== src/Server/Lifecycle/Laws.antt =====
-- A start that fails leaves nothing behind, and one that succeeds has everything.
use n32r.Prelude.{ℕ, ◌*◌, ◌%◌, ◌≡◌, refl, inl, Bool, some, Status, ok, err, arith}
use mathlib.Core.Path.{subst}
use n32r.Prelude.Words.{u32_mod}
use n32r.Security.Init.{context_init-Ready}
use n32r.Security.{reset_counters}
use n32r.Crypto.{Crypto}
use n32r.Security.{Context, context_init}
use n32r.Server.State.{Config, Server}
use n32r.Server.Lifecycle.{
  is_incomplete, lacks_secret, has_bad_totp, with_defaults, Grants, start_cache, start_security,
  ws_server_start, ws_server_stop, security_config, or_default, with_cache_size,
}
use n32r.Server.Lifecycle.Stages.{Stopped, Settled, cache_entries, choose, cache-Settled}

-- The entries of the cache for a configuration as it is given.
abbrev pub nonces_of : Config → ℕ
nonces_of config =
    or_default
      (or_default config.handshake_cache_size (or_default config.max_clients 4 * 4 % u32_mod)) 16

-- The default for the number of clients is not 0.
nonces_lem :
    (config : Config) → cache_entries (with_cache_size (with_defaults config)) ≡ nonces_of config
unfolding with_cache_size with_defaults
nonces_lem config = ground arith

-- The server as it is configured.
abbrev set_up : Config → Server → Server
set_up config server = record server {
  cfg = with_cache_size (with_defaults config);
  has_time_fn = config.has_time_fn;
}

module _ (grants : Grants) (has_cb : Bool) where
  -- Changes of what is no resource.
  still :
      (server : Server) (cfg : Config) (has_time_fn : Bool) (ctx : Context) (ttl : ℕ)
      → Stopped server
      → Stopped (record server {
        cfg = cfg;
        has_time_fn = has_time_fn;
        security = ctx;
        nonce_ttl_ticks = ttl;
      })
  still server cfg has_time_fn ctx ttl s = record {
    not_started = s.not_started;
    no_timer = s.no_timer;
    no_lock = s.no_lock;
    no_buffer = s.no_buffer;
    no_clients = s.no_clients;
    no_cache = s.no_cache;
  }

  module _ (c : Crypto) (ms_to_ticks : ℕ → ℕ) where
    security-Settled :
        (server : Server)
        → Stopped server
        → Settled server.cfg.enable_handshake_token server.cfg.max_clients
            (cache_entries server.cfg)
            (start_security grants has_cb c ms_to_ticks server)
    unfolding start_security reset_counters security_config
    security-Settled server s = settle (context_init c (some (security_config server.cfg))) refl
      where
        settle :
            (answer : Status × Context)
            → context_init c (some (security_config server.cfg)) ≡ answer
            → Settled server.cfg.enable_handshake_token server.cfg.max_clients
                (cache_entries server.cfg)
                (start_security grants has_cb c ms_to_ticks server)
        settle (ok _, ctx) e =
            simp (e, start_security)
              (subst
                (λ on. Settled on server.cfg.max_clients (cache_entries server.cfg) (
                  start_cache grants has_cb (record server {
                    security = reset_counters ctx;
                    nonce_ttl_ticks = ms_to_ticks server.cfg.handshake_replay_window_ms;
                  })))
                (context_init-Ready c (security_config server.cfg) e).handshake
                (cache-Settled grants has_cb _ (still server _ _ _ _ s)))
        settle (err code, ctx) e = simp (e, start_security) (inl (_, refl, still server _ _ _ _ s))

    -- From a server that holds no resource, `ws_server_start` either fails and holds none again,
    -- whichever allocation or check failed, or succeeds and holds all of them: a client table that has
    -- no client yet, with a place for each of `max_clients`, or four where that is 0; and, exactly
    -- where the handshake is enabled, a nonce cache of unused entries. They are as many as the option
    -- says or, where it is 0, four for each client on 32 bits or, where that is 0 too, 16.
    pub ws_server_start_lem :
        (config : Config) (server : Server)
        → Stopped server
        → Settled config.enable_handshake_token
            (or_default config.max_clients 4)
            (nonces_of config)
            (ws_server_start grants has_cb c ms_to_ticks config server)
    unfolding ws_server_start with_defaults with_cache_size
    ws_server_start_lem config server s =
        let Here : Status × Server → Type 0 =
          Settled config.enable_handshake_token (or_default config.max_clients 4)
            (nonces_of config) in
        choose Here (is_incomplete config) (λ _. inl (_, refl, s))
          (λ _.
            choose Here server.started (λ on. cc (on, s.not_started))
              (λ _.
                choose Here (lacks_secret (with_defaults config))
                  (λ _. inl (_, refl, still server _ _ _ _ s))
                  (λ _.
                    choose Here (has_bad_totp (with_defaults config))
                      (λ _. inl (_, refl, still server _ _ _ _ s))
                      (λ _.
                        subst
                          (λ n.
                            Settled config.enable_handshake_token (or_default config.max_clients 4)
                              n (start_security grants has_cb c ms_to_ticks (set_up config server)))
                          (nonces_lem config)
                          (security-Settled (set_up config server) (still server _ _ _ _ s))))))

-- After `ws_server_stop` no resource is held, so that the server can be started again.
pub ws_server_stop-Stopped : (server : Server) → Stopped (ws_server_stop server)
unfolding ws_server_stop
ws_server_stop-Stopped server = record {
  not_started = refl;
  no_timer = refl;
  no_lock = refl;
  no_buffer = refl;
  no_clients = refl;
  no_cache = refl;
}
