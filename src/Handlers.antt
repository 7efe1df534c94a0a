-- ===== src/Handlers.antt =====
-- functions/mqhandlers.go: the handlers of messages of the server. What a handler reads of the other
-- parts and of the system is an argument, and what it makes them do is a list of effects, the last
-- one first. Parts of a message that a handler only hands on are of an arbitrary type.
pub mod Connection
pub mod Settings
pub mod PeerUpdate
pub mod Pull
pub mod HostUpdate
pub mod EgressDomain
use netclient.Prelude.{ℕ, Bool, Option, List, ◌∷◌}
use netclient.Text.{Text}
use netclient.Dns.Types.{Nameserver}
use netclient.Config.Servers.{ServerConfig, Server, Servers}

-- A function with early returns: it goes on, or it has returned.
pub data Progress (S : Type 0) : Type 0 where
  go : S → Progress S
  stop : S → Progress S

infixl 5 ◌>>=◌
abbrev pub ◌>>=◌ : {S : Type 0} → Progress S → (S → Progress S) → Progress S
go s >>= f = f s
stop s >>= f = stop s

-- wgtypes.PeerConfig, as far as the handlers read it.
pub record GatewayPeer : Type 0 where
  pub public_key : Text
  pub allowed_ips : List Text

-- UseVersion: skipped in a container, failed, or done.
pub data Upgrade : Type 0 where
  skipped : Upgrade
  not_upgraded : Upgrade
  upgraded : Upgrade

-- models.HostPeerUpdate and models.HostPull, in the parts that the handlers read; the pull has the
-- settings of the server in its ServerConfig, under the same names.
pub record PeerData (X : Type 0) : Type 0 where
  pub server_version : Text
  pub auto_update : Bool
  pub metrics_port : ℕ
  pub metric_interval : Text
  pub ip_detection_interval : ℕ
  pub peer_connection_check_interval : Text
  pub endpoint_detection : Bool
  pub is_pro : Bool
  pub manage_dns : Bool
  pub default_domain : Text
  pub name_servers : List Text
  pub dns_nameservers : List Nameserver
  pub stun : Bool
  pub stun_servers : Text
  pub change_default_gw : Bool
  pub default_gw_ip : Text
  pub peers : List GatewayPeer
  pub replace_peers : Bool
  pub egress_routes : List X
  pub egress_domains : List X
  pub network_info : X
  pub enable_flow_logs : Bool
  pub identities : X
  pub relays : X
  pub fw_update : X

pub data Effect (X : Type 0) : Type 0 where
  set_check_interval : ℕ → Effect X
  reset_connection_tickers : Effect X
  hard_restart : Effect X
  write_servers : Servers → Effect X
  restart_daemon : Effect X
  reset_metric_ticker : ℕ → Effect X
  panics : Effect X
  reset_ip_ticker : ℕ → Effect X
  restore_internet_gw : Effect X
  set_internet_gw : Text → Text → Effect X
  clear_endpoint_caches : Effect X
  update_host_peers : List GatewayPeer → Effect X
  set_peers : Bool → Effect X
  set_egress_routes : List X → Effect X
  remove_egress_routes : Effect X
  set_egress_routes_in_cache : List X → Effect X
  detect_endpoints : List GatewayPeer → X → Effect X
  set_egress_domains : List X → Effect X
  clear_egress_domains : Effect X
  start_dns : Effect X
  stop_dns : Effect X
  configure_dns : Effect X
  start_flow : X → Effect X
  stop_flow : Effect X
  set_relay_nodes : X → Effect X
  update_firewall : X → Effect X
  refresh_peer_info : Effect X
  publish_metrics : Effect X

-- What the handlers ask: the client's version, semver's order (none is an error), Atoi (none is an
-- error, and a negative number counts as zero), the default gateway and the internet gateway, and
-- the functions of the other parts that change the message.
pub record Env (X : Type 0) : Type 0 where
  pub version : Text
  pub version_less_than : Text → Text → Option Bool
  pub use_version : Text → Upgrade
  pub atoi : Text → Option ℕ
  pub default_gateway_ip : Option Text
  pub original_default_gateway_ip : Option Text
  pub has_curr_gw_nm_ip : Bool
  pub is_current_igw : Text → Bool
  pub restores_gw : Bool
  pub sets_gw : Text → Text → Bool
  pub append_extra_egress_routes : List X → List X
  pub filter_dns_nameservers : List Nameserver → List Nameserver
  pub deep_equal : List Nameserver → List Nameserver → Bool
  pub dns_addr : Text

-- The state of a handler: its copy of the server, whether to save it, whether STUN has changed, the
-- servers of the configuration, and the effects.
pub record HandlerState (X : Type 0) : Type 0 where
  pub server : Server
  pub save : Bool
  pub reload_stun : Bool
  pub servers : Servers
  pub effects : List (Effect X)

module _ {X : Type 0} where
  abbrev pub emit : Effect X → HandlerState X → HandlerState X
  emit e s = record s { effects = e ∷ s.effects }

  abbrev pub set_config : ServerConfig → HandlerState X → HandlerState X
  set_config c s = record s { server = record s.server { config = c } }
