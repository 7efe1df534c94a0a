-- ===== src/Tests/Updates.antt =====
-- The handlers of messages at concrete inputs.
use netclient.Prelude.{
  ℕ, ◌≡◌, refl, ◌&&◌, Bool, true, false, Option, none, some, List, [], ◌∷◌, arith, is_empty,
}
use netclient.Text.{codes, text_eq}
use netclient.Dns.Types.{Nameserver}
use netclient.Config.Servers.{Server, Servers, ServerConfig}
use netclient.Handlers.{Progress, go, stop, PeerData, Env, HandlerState, not_upgraded, upgraded}
use netclient.Handlers.Settings.Settled.{IsStored, IsDeepEqual}
use netclient.Handlers.PeerUpdate.{Codec, read_message, host_peer_update, start_state, update_peers}
use netclient.Handlers.PeerUpdate.Steps.{AtEnd}
use netclient.Handlers.PeerUpdate.Stored.{host_peer_update-IsStored}
use netclient.Handlers.PeerUpdate.Unsaved.{update_peers-unsaved}
use netclient.Handlers.PeerUpdate.{update_from_pull, mq_fallback_pull}
use netclient.Handlers.PeerUpdate.Steps.{dns_ops}
use netclient.Handlers.PeerUpdate.DnsOps.{DoesWanted, update_peers-dns_ops}
use netclient.Handlers.Pull.{pull, store_pull, mq_fallback_pull-no_dns_ops}
use netclient.Handlers.HostUpdate.{HostMessage, HostState, HostEnv, Node, delete_host, host_update}
use netclient.Handlers.HostUpdate.Cleared.{IsClearedFirst, host_update-IsClearedFirst}
use netclient.Handlers.EgressDomain.{GatewayDomain, DomainEnv, process_egress_domain}
use netclient.Handlers.EgressDomain.Careful.{IsCareful, process_egress_domain-IsCareful}
use netclient.Tests.Config.{own_host, is_free}

abbrev home : Server
home = record {
  config = record {
    server = codes "home";
    api = codes "api.home";
    version = codes "v1.6.0";
    metrics_port = 51821;
    metric_interval = codes "15";
    ip_detection_interval = 15;
    peer_connection_check_interval = codes "15";
    endpoint_detection = true;
    manage_dns = true;
    default_domain = codes "nm.internal";
    stun = true;
    stun_servers = codes "stun.home:3478";
    is_pro = false;
  };
  name = codes "home";
  mqid = codes "h1";
  nodes = codes "mesh" ∷ [];
  name_servers = [];
  dns_nameservers = [];
}

abbrev known : Servers
known = (codes "home", home) ∷ []

abbrev both_empty : List Nameserver → List Nameserver → Bool
both_empty a b = is_empty a && is_empty b

abbrev env : Env ℕ
env = record {
  version = codes "v1.6.0";
  version_less_than = λ a b. some true;
  use_version = λ v. not_upgraded;
  atoi = λ t. some 15;
  default_gateway_ip = some (codes "192.168.0.1");
  original_default_gateway_ip = none;
  has_curr_gw_nm_ip = false;
  is_current_igw = λ ip. false;
  restores_gw = true;
  sets_gw = λ key ip. true;
  append_extra_egress_routes = λ routes. 9 ∷ routes;
  filter_dns_nameservers = λ ns. ns;
  deep_equal = both_empty;
  dns_addr = codes "127.0.0.53";
}

-- The settings of `home`, with a new metrics port.
abbrev same_settings : PeerData ℕ
same_settings = record {
  server_version = codes "v1.6.0";
  auto_update = true;
  metrics_port = 8889;
  metric_interval = codes "15";
  ip_detection_interval = 15;
  peer_connection_check_interval = codes "15";
  endpoint_detection = true;
  is_pro = false;
  manage_dns = true;
  default_domain = codes "nm.internal";
  name_servers = [];
  dns_nameservers = [];
  stun = true;
  stun_servers = codes "stun.home:3478";
  change_default_gw = false;
  default_gw_ip = [];
  peers = [];
  replace_peers = false;
  egress_routes = [];
  egress_domains = [];
  network_info = 0;
  enable_flow_logs = false;
  identities = 0;
  relays = 0;
  fw_update = 0;
}

abbrev new_domain : PeerData ℕ
new_domain = record same_settings { default_domain = codes "corp.internal"; stun = false }

abbrev plain_codec : {M : Type 0} → M → Codec M
plain_codec m = record {
  decrypt_aes_gcm = λ p. none;
  decrypt_msg = λ server p. some p;
  unzip_payload = λ p. none;
  unmarshal = λ p. some m;
}

abbrev end_of : Option (Progress (HandlerState ℕ)) → HandlerState ℕ
end_of none = start_state home known
end_of (some (go t)) = t
end_of (some (stop t)) = t

abbrev updated : Option (Progress (HandlerState ℕ))
updated = host_peer_update env (plain_codec new_domain) 1 (codes "home") (codes "x") known

both_empty_sound : IsDeepEqual env new_domain
both_empty_sound [] [] h = refl
both_empty_sound [] (b ∷ l) h = ground (arith, h)
both_empty_sound (a ∷ l) b h = ground (arith, h)

host_peer_update-IsStored_example : IsStored env new_domain (codes "home") (end_of updated)
unfolding netclient.Assoc.lookup text_eq read_message host_peer_update update_peers
    netclient.Handlers.Connection.check_version netclient.Handlers.Connection.set_metric_interval
    netclient.Handlers.Connection.set_metrics_port netclient.Handlers.Connection.set_version
    netclient.Handlers.Connection.reset_tickers netclient.Handlers.Connection.set_check
    netclient.Handlers.Connection.set_gateway netclient.Handlers.Connection.must_restore
host_peer_update-IsStored_example =
    host_peer_update-IsStored env (plain_codec new_domain) new_domain 1 (codes "home") (codes "x")
      home known (end_of updated) both_empty_sound refl refl refl

update_peers-unsaved_example :
    AtEnd
      (λ t. t.servers ≡ known)
      (update_peers env same_settings (codes "home") (start_state home known))
unfolding netclient.Handlers.Settings.dns_differs text_eq
update_peers-unsaved_example =
    update_peers-unsaved env same_settings (codes "home") home known refl
      (refl, refl, refl, refl, λ p. p)

abbrev host_env : HostEnv
host_env = record {
  version = codes "v1.5.0";
  version_less_than = λ a b. some true;
  use_version = λ v. upgraded;
  actual_port = some 51821;
  is_port_free = is_free;
  refresh_identity = λ h. h;
  writes_netclient = true;
}

abbrev mesh : Node
mesh = record { id = codes "n1"; network = codes "mesh"; server = codes "home" }

abbrev joined : HostState
joined = record {
  nodes = (codes "mesh", mesh) ∷ [];
  servers = known;
  host = own_host;
  has_peers = true;
  has_node_names = true;
  effects = [];
}

abbrev leaving : HostMessage
leaving = record { action = delete_host; node = mesh; host = own_host }

host_update-IsClearedFirst_example :
    IsClearedFirst
      (host_update host_env (plain_codec leaving) (codes "home") (codes "x") joined).effects
host_update-IsClearedFirst_example =
    host_update-IsClearedFirst host_env (plain_codec leaving) (codes "home") (codes "x") joined tt

host_update_run :
    (host_update host_env (plain_codec leaving) (codes "home") (codes "x") joined).nodes ≡ []
unfolding host_update netclient.Handlers.HostUpdate.handle_payload netclient.Assoc.lookup text_eq
    netclient.Handlers.HostUpdate.handle_message read_message
    netclient.Handlers.HostUpdate.end_update netclient.Handlers.HostUpdate.dispatch
    netclient.Handlers.HostUpdate.follow netclient.Handlers.HostUpdate.delete_host_cfg
    netclient.Handlers.HostUpdate.delete_nodes
host_update_run = refl

abbrev site : GatewayDomain
site = record { id = codes "d1"; domain = codes "site.test"; host_id = codes "h1" }

abbrev domain_env : DomainEnv
domain_env = record {
  host_id = codes "h1";
  is_v4 = λ ip. some true;
  dials = λ network ip port. false;
  pings = λ ip. text_eq ip (codes "1.1.1.1");
  resolve_domain_to_ips = λ d. some (codes "3.3.3.3" ∷ codes "2.2.2.2" ∷ []);
  sends = true;
}

process_egress_domain-IsCareful_example :
    IsCareful domain_env site false
      ((codes "d1", codes "1.1.1.1" ∷ []) ∷ [])
      (process_egress_domain domain_env site false ((codes "d1", codes "1.1.1.1" ∷ []) ∷ []))
process_egress_domain-IsCareful_example =
    process_egress_domain-IsCareful domain_env site false ((codes "d1", codes "1.1.1.1" ∷ []) ∷ [])

-- The old address answers a ping, so that it is kept; the second one does not.
kept_run :
    (process_egress_domain domain_env site false ((codes "d1", codes "1.1.1.1" ∷ []) ∷ [])).0 ≡ none
unfolding process_egress_domain netclient.Handlers.EgressDomain.is_local_egress_gateway text_eq
    netclient.Handlers.EgressDomain.compare_ips netclient.Assoc.lookup
    netclient.Handlers.EgressDomain.must_send netclient.Handlers.EgressDomain.equal
    netclient.Handlers.EgressDomain.sort netclient.Handlers.EgressDomain.insert_sorted
    netclient.Handlers.EgressDomain.text_leb netclient.Handlers.EgressDomain.check_ip_connectivity
    netclient.Handlers.EgressDomain.ip_reachable netclient.Handlers.EgressDomain.dial_ports
kept_run = refl

sent_run :
    (process_egress_domain domain_env site false ((codes "d1", codes "4.4.4.4" ∷ []) ∷ [])).0
    ≡ some (codes "2.2.2.2/32" ∷ codes "3.3.3.3/32" ∷ [])
unfolding process_egress_domain netclient.Handlers.EgressDomain.is_local_egress_gateway text_eq
    netclient.Handlers.EgressDomain.compare_ips netclient.Assoc.lookup
    netclient.Handlers.EgressDomain.must_send netclient.Handlers.EgressDomain.equal
    netclient.Handlers.EgressDomain.sort netclient.Handlers.EgressDomain.insert_sorted
    netclient.Handlers.EgressDomain.text_leb netclient.Handlers.EgressDomain.check_ip_connectivity
    netclient.Handlers.EgressDomain.ip_reachable netclient.Handlers.EgressDomain.dial_ports
    netclient.Handlers.EgressDomain.send_update netclient.Handlers.EgressDomain.range_of
sent_run = refl

update_peers-dns_ops_example :
    AtEnd
      (DoesWanted env new_domain home)
      (update_peers env new_domain (codes "home") (start_state home known))
    × AtEnd
        (DoesWanted env new_domain home)
        (update_from_pull env new_domain false (codes "home") (start_state home known))
update_peers-dns_ops_example = update_peers-dns_ops env new_domain false (codes "home") home known

abbrev corp : ServerConfig
corp = record home.config { default_domain = codes "corp.internal" }

abbrev stored : Servers
stored = store_pull (codes "h1") corp [] (codes "home") known

pull_run : pull (codes "h1") corp [] (codes "home") known ≡ some (true, stored)
unfolding pull netclient.Assoc.lookup text_eq
pull_run = refl

abbrev pulled : Option (Progress (HandlerState ℕ))
pulled = mq_fallback_pull env new_domain false (codes "home") stored

mq_fallback_pull-no_dns_ops_example : dns_ops (end_of pulled).effects ≡ []
unfolding mq_fallback_pull netclient.Assoc.lookup store_pull
    netclient.Config.Servers.update_server_config netclient.Assoc.insert text_eq update_from_pull
    netclient.Handlers.Connection.check_version netclient.Handlers.Connection.set_gateway
    netclient.Handlers.Connection.must_restore
mq_fallback_pull-no_dns_ops_example =
    mq_fallback_pull-no_dns_ops env new_domain (codes "h1") corp false known stored (end_of pulled)
      refl refl refl pull_run refl
