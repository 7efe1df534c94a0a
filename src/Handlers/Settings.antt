-- ===== src/Handlers/Settings.antt =====
-- functions/mqhandlers.go: the settings that HostPeerUpdate and mqFallbackPull take from the server:
-- DNS, STUN and Pro, with their save. The handler changes its own copy of the server, which reaches
-- the configuration where the settings are saved.
pub mod Settled
use netclient.Prelude.{
  Bool, true, false, not, ◌&&◌, ◌||◌, List, [], ◌==◌, length, is_empty, if◌then◌else◌,
}
use netclient.Text.{Text, text_eq}
use netclient.Dns.Types.{Nameserver}
use netclient.Config.Servers.{Server, update_server}
use netclient.Handlers.{
  PeerData, write_servers, start_dns, stop_dns, configure_dns, Env, HandlerState, emit, set_config,
}

-- The operation on the DNS server, which is done behind the save.
pub data DnsOp : Type 0 where
  nothing : DnsOp
  start : DnsOp
  stopping : DnsOp
  update : DnsOp

unfoldable pub same_bool : Bool → Bool → Bool
same_bool true b = b
same_bool false b = not b

module _ {X : Type 0} (env : Env X) (u : PeerData X) where
  abbrev pub filtered : List Nameserver
  filtered = env.filter_dns_nameservers u.dns_nameservers

  -- The settings of DNS of the server, taken from the message.
  abbrev pub managed : HandlerState X → HandlerState X
  managed s = record s {
    save = true;
    server = record s.server {
      config = record s.server.config { manage_dns = true; default_domain = u.default_domain };
      name_servers = u.name_servers;
      dns_nameservers = filtered;
    };
  }

  abbrev pub unmanaged : HandlerState X → HandlerState X
  unmanaged s = record s {
    save = true;
    server = record s.server {
      config = record s.server.config { manage_dns = false; default_domain = [] };
      name_servers = [];
      dns_nameservers = [];
    };
  }

  unfoldable pub dns_differs : Server → Bool
  dns_differs server =
      not (text_eq server.config.default_domain u.default_domain)
      || not (length server.dns_nameservers == length filtered)
      || not (env.deep_equal server.dns_nameservers filtered)

  unfoldable pub set_dns : HandlerState X → DnsOp × HandlerState X
  set_dns s =
      if s.server.config.manage_dns
      then if not u.manage_dns
        then (stopping, unmanaged s)
        else if dns_differs s.server
        then (update, managed s)
        else (nothing, s)
      else if u.manage_dns
      then (start, managed s)
      else (nothing, s)

  unfoldable pub set_stun : HandlerState X → HandlerState X
  set_stun s =
      if same_bool u.stun s.server.config.stun
      then s
      else record (set_config (record s.server.config { stun = u.stun }) s) {
        save = true;
        reload_stun = true;
      }

  unfoldable pub set_stun_servers : HandlerState X → HandlerState X
  set_stun_servers s =
      if text_eq u.stun_servers s.server.config.stun_servers
      then s
      else record (set_config (record s.server.config { stun_servers = u.stun_servers }) s) {
        save = true;
        reload_stun = true;
      }

  unfoldable pub set_pro : HandlerState X → HandlerState X
  set_pro s =
      if u.is_pro && not s.server.config.is_pro
      then record (set_config (record s.server.config { is_pro = true }) s) { save = true }
      else s

  unfoldable pub run_dns_op : DnsOp → HandlerState X → HandlerState X
  run_dns_op nothing s = s
  run_dns_op start s = emit start_dns s
  run_dns_op stopping s = emit stop_dns s
  run_dns_op update s = if is_empty env.dns_addr then s else emit configure_dns s

  -- The save of the settings, with the operation on DNS behind it.
  unfoldable pub save_settings : Text → DnsOp → HandlerState X → HandlerState X
  save_settings name op s =
      if s.save
      then (let servers' = update_server name s.server s.servers in
          run_dns_op op (emit (write_servers servers') (record s { servers = servers' })))
      else s

  unfoldable pub set_settings : Text → HandlerState X → HandlerState X
  set_settings name s =
      let (op, s') = set_dns s in save_settings name op (set_pro (set_stun_servers (set_stun s')))
