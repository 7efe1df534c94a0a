-- ===== src/Handlers/Connection.antt =====
-- functions/mqhandlers.go: the first parts of HostPeerUpdate and mqFallbackPull, up to the peers:
-- intervals, versions, ports, the default gateway, peers and routes.
use netclient.Prelude.{
  Bool, true, false, not, ◌&&◌, ◌||◌, none, some, List, [], ◌∷◌, ◌==◌, ltb, is_empty, if◌then◌else◌,
}
use netclient.Text.{Text, text_eq}
use netclient.Wireguard.Types.{ipv4_network, ipv6_network}
use netclient.Handlers.{
  Progress, go, stop, GatewayPeer, upgraded, PeerData, set_check_interval, reset_connection_tickers,
  hard_restart, write_servers, restart_daemon, reset_metric_ticker, panics, reset_ip_ticker,
  restore_internet_gw, set_internet_gw, clear_endpoint_caches, update_host_peers, set_peers,
  set_egress_routes, remove_egress_routes, set_egress_routes_in_cache, detect_endpoints,
  set_egress_domains, clear_egress_domains, Env, HandlerState, emit, set_config,
}

-- Whether a peer has a default network, and the last peer that has one, or an empty one.
unfoldable pub has_default : List Text → Bool
has_default [] = false
has_default (ip ∷ ips) = text_eq ip ipv4_network || text_eq ip ipv6_network || has_default ips

unfoldable pub igw_peer : GatewayPeer → List GatewayPeer → GatewayPeer
igw_peer found [] = found
igw_peer found (p ∷ peers) = igw_peer (if has_default p.allowed_ips then p else found) peers

abbrev pub no_peer : GatewayPeer
no_peer = record { public_key = []; allowed_ips = [] }

module _ {X : Type 0} (env : Env X) (u : PeerData X) where
  unfoldable pub set_check : HandlerState X → HandlerState X
  set_check s =
      if not (is_empty u.peer_connection_check_interval)
        && not (
            text_eq u.peer_connection_check_interval s.server.config.peer_connection_check_interval)
      then elim (env.atoi u.peer_connection_check_interval) [
        | none ↦ s
        | some sec ↦ if ltb 0 sec then emit (set_check_interval sec) s else s
      ]
      else s

  -- The three tickers of a Pro server, those that run.
  unfoldable pub reset_tickers : HandlerState X → HandlerState X
  reset_tickers s = if s.server.config.is_pro then emit reset_connection_tickers s else s

  -- The check of the versions, with the upgrade for a host that has `auto_update`.
  unfoldable pub check_version : Bool → HandlerState X → Progress (HandlerState X)
  check_version auto_update s =
      if text_eq u.server_version env.version
      then go s
      else elim (env.version_less_than env.version u.server_version) [
        | none ↦ stop s
        | some older ↦
            if older && auto_update
            then elim (env.use_version u.server_version) [
              | upgraded ↦ go (emit hard_restart s)
              | _ ↦ go s
            ]
            else go s
      ]

  unfoldable pub set_version : HandlerState X → HandlerState X
  set_version s =
      if text_eq u.server_version s.server.config.version
      then s
      else emit (write_servers s.servers)
          (set_config (record s.server.config { version = u.server_version }) s)

  unfoldable pub set_metrics_port : HandlerState X → HandlerState X
  set_metrics_port s =
      if not (u.metrics_port == 0) && not (u.metrics_port == s.server.config.metrics_port)
      then emit restart_daemon (
          emit (write_servers s.servers)
            (set_config (record s.server.config { metrics_port = u.metrics_port }) s))
      else s

  -- Reset panics where the interval is not positive.
  unfoldable pub set_metric_interval : HandlerState X → Progress (HandlerState X)
  set_metric_interval s =
      let s' = set_config (record s.server.config { metric_interval = u.metric_interval }) s in
      if text_eq u.metric_interval s.server.config.metric_interval
      then go s
      else elim (env.atoi u.metric_interval) [
        | none ↦ go s'
        | some n ↦ if n == 0 then stop (emit panics s) else go (emit (reset_metric_ticker n) s')
      ]

  unfoldable pub set_ip_interval : HandlerState X → HandlerState X
  set_ip_interval s =
      if not (u.ip_detection_interval == 0)
        && not (u.ip_detection_interval == s.server.config.ip_detection_interval)
      then record (emit (reset_ip_ticker u.ip_detection_interval) (
          set_config (record s.server.config { ip_detection_interval = u.ip_detection_interval })
            s)) { save = true }
      else s

  -- Whether the old gateway is to be restored, where the current one is `ip`.
  unfoldable pub must_restore : Text → Bool
  must_restore ip = elim env.original_default_gateway_ip [
    | none ↦ false
    | some original ↦ not (text_eq original ip) && env.has_curr_gw_nm_ip
  ]

  unfoldable pub set_gateway : HandlerState X → Progress (HandlerState X)
  set_gateway s = elim env.default_gateway_ip [
    | none ↦ stop s
    | some ip ↦
        if u.change_default_gw
        then if env.is_current_igw u.default_gw_ip
          then go s
          else (let igw = igw_peer no_peer u.peers in
              let s' =
                emit (set_internet_gw igw.public_key u.default_gw_ip)
                  (emit restore_internet_gw s) in
              if env.sets_gw igw.public_key u.default_gw_ip then go s' else stop s')
        else if must_restore ip
        then (let s' = emit restore_internet_gw s in if env.restores_gw then go s' else stop s')
        else go s
  ]

  unfoldable pub set_routes : List X → HandlerState X → HandlerState X
  set_routes [] s = emit (set_egress_routes_in_cache []) (emit remove_egress_routes s)
  set_routes (r ∷ routes) s =
      emit (set_egress_routes_in_cache (r ∷ routes)) (emit (set_egress_routes (r ∷ routes)) s)

  -- syncEgressDomains
  unfoldable pub sync_egress_domains : List X → HandlerState X → HandlerState X
  sync_egress_domains [] s = emit clear_egress_domains s
  sync_egress_domains (d ∷ domains) s = emit (set_egress_domains (d ∷ domains)) s

  -- The peers, with the caches of endpoints cleared before them where none are detected.
  unfoldable pub replace_peers : HandlerState X → HandlerState X
  replace_peers s = emit (set_peers u.replace_peers) (
      emit (update_host_peers u.peers)
        (if u.endpoint_detection then s else emit clear_endpoint_caches s))

  unfoldable pub detect : HandlerState X → HandlerState X
  detect s = if u.endpoint_detection then emit (detect_endpoints u.peers u.network_info) s else s

  -- The peers, the routes and the domains.
  unfoldable pub put_peers : HandlerState X → HandlerState X
  put_peers s =
      sync_egress_domains u.egress_domains
        (detect (set_routes (env.append_extra_egress_routes u.egress_routes) (replace_peers s)))
