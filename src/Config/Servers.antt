-- ===== src/Config/Servers.antt =====
-- config/server.go: the map of servers in memory and the copies of its entries, and the choice of
-- the current server. The map is an association list; GetServer gives a copy, so that a change of it
-- reaches the map by UpdateServer.
pub mod Context
use netclient.Prelude.{ℕ, Bool, Option, none, some, List, [], ◌∷◌, is_empty, if◌then◌else◌}
use netclient.Text.{Text}
use netclient.Assoc.{lookup, insert, remove}
use netclient.Dns.Types.{Nameserver}

-- models.ServerConfig, in the fields that the client reads.
pub record ServerConfig : Type 0 where
  pub server : Text
  pub api : Text
  pub version : Text
  pub metrics_port : ℕ
  pub metric_interval : Text
  pub ip_detection_interval : ℕ
  pub peer_connection_check_interval : Text
  pub endpoint_detection : Bool
  pub manage_dns : Bool
  pub default_domain : Text
  pub stun : Bool
  pub stun_servers : Text
  pub is_pro : Bool

-- Server; `nodes` is the networks that the host has joined on it.
pub record Server : Type 0 where
  pub config : ServerConfig
  pub name : Text
  pub mqid : Text
  pub nodes : List Text
  pub name_servers : List Text
  pub dns_nameservers : List Nameserver

abbrev pub Servers : Type 0
Servers = List (Text × Server)

abbrev pub get_server : Text → Servers → Option Server
get_server = lookup

abbrev pub update_server : Text → Server → Servers → Servers
update_server = insert

abbrev pub delete_server : Text → Servers → Servers
delete_server = remove

-- GetServers: the names that the entries hold.
unfoldable pub get_servers : Servers → List Text
get_servers [] = []
get_servers ((k, server) ∷ servers) = server.name ∷ get_servers servers

-- The entry that UpdateServerConfig makes for a server that is not known, before it fills it.
abbrev pub new_server : ServerConfig → Server
new_server cfg = record {
  config = cfg;
  name = [];
  mqid = [];
  nodes = [];
  name_servers = [];
  dns_nameservers = [];
}

-- UpdateServerConfig for the host `id`.
unfoldable pub update_server_config : Text → Option ServerConfig → Servers → Servers
update_server_config id none servers = servers
update_server_config id (some cfg) servers =
    let server : Server = elim (get_server cfg.server servers) [
      | none ↦ new_server cfg
      | some s ↦ s
    ] in
    update_server cfg.server (record server { name = cfg.server; mqid = id; config = cfg }) servers

-- SetServerCtx: the current server, and what is written to the file of the context.
unfoldable pub set_server_ctx : Option Text → Servers → Text → Text × Option Text
set_server_ctx context servers current =
    let first : Text × Option Text = elim (get_servers servers) [
      | [] ↦ (current, none)
      | ◌∷◌ name _ ↦ (name, some name)
    ] in
    elim context [
      | none ↦ first
      | some name ↦
          if is_empty name
          then first
          else elim (get_server name servers) [ none ↦ first | some _ ↦ (name, none) ]
    ]
