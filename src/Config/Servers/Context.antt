-- ===== src/Config/Servers/Context.antt =====
-- config/server.go: the current server is one that is known.
use netclient.Prelude.{◌≡◌, refl, true, Option, none, some, [], ◌∷◌, All, arith}
use netclient.Text.{Text, text_eq_refl}
use netclient.Assoc.{has_key, has_key-eq_lookup, insert}
use netclient.Config.Servers.{
  Server, Servers, ServerConfig, get_servers, set_server_ctx, update_server_config,
}

-- Each server is kept under its name.
abbrev pub AreNamed : Servers → Type 0
AreNamed servers = All (λ entry. entry.1.name ≡ entry.0) servers

insert-AreNamed :
    (name : Text) (server : Server) (servers : Servers)
    → server.name ≡ name
    → AreNamed servers
    → AreNamed (insert name server servers)
unfolding insert
insert-AreNamed name server [] n h = (n, tt)
insert-AreNamed name server ((k, old) ∷ servers) n h =
    ground (arith, n, h, insert-AreNamed name server servers n h.1)

-- UpdateServerConfig keeps each server under its name.
pub update_server_config-AreNamed :
    (id : Text) (cfg : Option ServerConfig) (servers : Servers)
    → AreNamed servers
    → AreNamed (update_server_config id cfg servers)
unfolding update_server_config
update_server_config-AreNamed id none servers h = h
update_server_config-AreNamed id (some cfg) servers h = insert-AreNamed cfg.server _ servers refl h

-- SetServerCtx, where there is a server and each is kept under its name, chooses one that is known.
pub set_server_ctx-has_key :
    (context : Option Text) (entry : Text × Server) (servers : Servers) (current : Text)
    → AreNamed (entry ∷ servers)
    → has_key (set_server_ctx context (entry ∷ servers) current).0 (entry ∷ servers) ≡ true
unfolding set_server_ctx get_servers has_key
set_server_ctx-has_key none (k, server) servers current h = ground (arith, h.0, text_eq_refl k)
set_server_ctx-has_key (some name) (k, server) servers current h =
    ground (arith, h.0, text_eq_refl k, has_key-eq_lookup name ((k, server) ∷ servers))
