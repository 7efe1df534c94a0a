-- ===== src/Handlers/PeerUpdate.antt =====
-- functions/mqhandlers.go: HostPeerUpdate, and mqFallbackPull, which has most parts in common with
-- it.
pub mod Steps
pub mod Stored
pub mod Unsaved
pub mod DnsOps
use netclient.Prelude.{ℕ, Bool, false, Option, none, some, [], ◌==◌, is_empty, if◌then◌else◌}
use netclient.Text.{Text}
use netclient.Config.Servers.{Server, Servers, get_server}
use netclient.Handlers.{
  Progress, go, ◌>>=◌, PeerData, restart_daemon, start_flow, stop_flow, set_relay_nodes,
  update_firewall, refresh_peer_info, publish_metrics, Env, HandlerState, emit,
}
use netclient.Handlers.Connection.{
  set_check, reset_tickers, check_version, set_version, set_metrics_port, set_metric_interval,
  set_ip_interval, set_gateway, put_peers,
}
use netclient.Handlers.Settings.{set_settings}

module _ {X : Type 0} where
  -- A handler of a server that is known starts with a copy of its entry.
  abbrev pub start_state : Server → Servers → HandlerState X
  start_state server servers = record {
    server = server;
    save = false;
    reload_stun = false;
    servers = servers;
    effects = [];
  }

module _ {X : Type 0} (env : Env X) (u : PeerData X) where
  unfoldable pub set_flow : HandlerState X → HandlerState X
  set_flow s = if u.enable_flow_logs then emit (start_flow u.identities) s else emit stop_flow s

  unfoldable pub restart_for_stun : HandlerState X → HandlerState X
  restart_for_stun s = if s.reload_stun then emit restart_daemon s else s

  -- The ends of the two functions.
  unfoldable pub finish_update : HandlerState X → HandlerState X
  finish_update s =
      let s' =
        emit (update_firewall u.fw_update)
          (emit (set_relay_nodes u.relays) (restart_for_stun (set_flow s))) in
      if s'.server.config.is_pro then emit publish_metrics (emit refresh_peer_info s') else s'

  unfoldable pub finish_pull : HandlerState X → HandlerState X
  finish_pull s =
      let s' = emit (update_firewall u.fw_update) (restart_for_stun (set_flow s)) in
      if s'.server.config.is_pro then emit refresh_peer_info s' else s'

  -- HostPeerUpdate behind the decoding, on a server that is known.
  unfoldable pub update_peers : Text → HandlerState X → Progress (HandlerState X)
  update_peers name s =
      check_version env u u.auto_update (reset_tickers env u (set_check env u s))
      >>= (λ s1. set_metric_interval env u (set_metrics_port env u (set_version env u s1)))
      >>= (λ s2. set_gateway env u (set_ip_interval env u s2))
      >>= (λ s3. go (finish_update (set_settings env u name (put_peers env u s3))))

  -- mqFallbackPull on a server that is known, for a host that has `auto_update`.
  unfoldable pub update_from_pull : Bool → Text → HandlerState X → Progress (HandlerState X)
  update_from_pull auto_update name s =
      check_version env u auto_update s
      >>= (λ s1.
          set_gateway env u (set_ip_interval env u (set_metrics_port env u (set_version env u s1))))
      >>= (λ s2. go (finish_pull (set_settings env u name (put_peers env u s2))))

-- decryptAESGCM, decryptMsg, unzipPayload and json.Unmarshal.
pub record Codec (M : Type 0) : Type 0 where
  pub decrypt_aes_gcm : Text → Option Text
  pub decrypt_msg : Text → Text → Option Text
  pub unzip_payload : Text → Option Text
  pub unmarshal : Text → Option M

-- The message in a payload: zipped behind the new cipher, plain behind the old one.
unfoldable pub read_message : {M : Type 0} → Codec M → Text → Text → Option M
read_message codec server_name payload = elim (codec.decrypt_aes_gcm payload) [
  | none ↦ elim (codec.decrypt_msg server_name payload) [
    | none ↦ none
    | some plain ↦ codec.unmarshal plain
  ]
  | some zipped ↦ elim (codec.unzip_payload zipped) [
    | none ↦ none
    | some plain ↦ codec.unmarshal plain
  ]
]

-- HostPeerUpdate for the server `name`, on a host with that many nodes; none where nothing is done.
unfoldable pub host_peer_update :
    {X : Type 0}
    → Env X
    → Codec (PeerData X)
    → ℕ
    → Text
    → Text
    → Servers
    → Option (Progress (HandlerState X))
host_peer_update env codec nodes name payload servers =
    if is_empty payload then none else if nodes == 0 then none else elim (get_server name servers) [
      | none ↦ none
      | some server ↦ elim (read_message codec server.name payload) [
        | none ↦ none
        | some u ↦ some (update_peers env u name (start_state server servers))
      ]
    ]

-- mqFallbackPull for a host that has `auto_update`; none where the server is not known.
unfoldable pub mq_fallback_pull :
    {X : Type 0} → Env X → PeerData X → Bool → Text → Servers → Option (Progress (HandlerState X))
mq_fallback_pull env u auto_update name servers = elim (get_server name servers) [
  | none ↦ none
  | some server ↦ some (update_from_pull env u auto_update name (start_state server servers))
]
