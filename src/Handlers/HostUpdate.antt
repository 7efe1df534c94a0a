-- ===== src/Handlers/HostUpdate.antt =====
-- functions/mqhandlers.go: HostUpdate, the dispatch on the action of a message, and deleteHostCfg.
-- What it makes the other parts do is a list of effects, the last one first.
pub mod Cleared
use netclient.Prelude.{
  ℕ, Bool, true, false, not, ◌&&◌, Option, none, some, List, [], ◌∷◌, is_empty, if◌then◌else◌,
}
use netclient.Text.{Text, text_eq}
use netclient.Assoc.{insert}
use netclient.Config.Host.{Host, update_host}
use netclient.Config.Servers.{Server, Servers, get_server, update_server, delete_server}
use netclient.Handlers.{Upgrade, skipped, not_upgraded, upgraded}
use netclient.Handlers.PeerUpdate.{Codec, read_message}

-- models.HostMqAction
pub data HostMqAction : Type 0 where
  upgrade : HostMqAction
  force_upgrade : HostMqAction
  join_host_to_network : HostMqAction
  delete_host : HostMqAction
  update_host_action : HostMqAction
  request_ack : HostMqAction
  signal_host : HostMqAction
  update_keys_action : HostMqAction
  request_pull : HostMqAction
  signal_pull : HostMqAction
  egress_update : HostMqAction
  check_auto_assign_gw : HostMqAction
  collect_metrics : HostMqAction
  unknown : HostMqAction

-- config.Node, as far as the handler reads it.
pub record Node : Type 0 where
  pub id : Text
  pub network : Text
  pub server : Text

-- models.HostUpdate, in the parts that the handler reads.
pub record HostMessage : Type 0 where
  pub action : HostMqAction
  pub node : Node
  pub host : Host

pub data Step : Type 0 where
  clear_retained_msg : Step
  hard_restart : Step
  restart_daemon : Step
  reset_interface : Step
  write_node_config : Step
  write_server_config : Step
  write_netclient_config : Step
  acknowledge : Step
  publish_host_update : Step
  subscribe_node : Node → Step
  subscribe_dns : Node → Text → Step
  unsubscribe_node : Node → Step
  unsubscribe_host : Text → Step
  process_peer_signal : Step
  rotate_keys : Step
  pull : Step
  process_egress_domain : Step
  assign_gateway : Step
  publish_metrics : Step

-- The configuration, as far as the handler changes it, and the effects.
pub record HostState : Type 0 where
  pub nodes : List (Text × Node)
  pub servers : Servers
  pub host : Host
  pub has_peers : Bool
  pub has_node_names : Bool
  pub effects : List Step

-- Whether to write the configuration, to restart, to reset the interface, and to clear the message
-- before a restart.
pub record Plan : Type 0 where
  pub write_to_disk : Bool
  pub restart : Bool
  pub reset : Bool
  pub clear_msg : Bool

abbrev pub leave : Plan
leave = record { write_to_disk = true; restart = false; reset = false; clear_msg = false }

abbrev pub no_write : Plan
no_write = record leave { write_to_disk = false }

abbrev pub does : Step → HostState → HostState
does e s = record s { effects = e ∷ s.effects }

-- UseVersion and the restart that follows it.
unfoldable pub upgrade_to : Upgrade → HostState → HostState
upgrade_to skipped s = s
upgrade_to not_upgraded s = s
upgrade_to upgraded s = does hard_restart s

-- The loop of deleteHostCfg over the nodes.
unfoldable pub delete_nodes : Text → List (Text × Node) → List (Text × Node)
delete_nodes server [] = []
delete_nodes server ((k, node) ∷ nodes) =
    let rest = delete_nodes server nodes in
    if text_eq node.server server then rest else (k, node) ∷ rest

unfoldable pub unsubscribe_nodes : Text → List (Text × Node) → List Step → List Step
unsubscribe_nodes server [] effects = effects
unsubscribe_nodes server ((k, node) ∷ nodes) effects =
    unsubscribe_nodes server nodes
      (if text_eq node.server server then unsubscribe_node node ∷ effects else effects)

-- deleteHostCfg
unfoldable pub delete_host_cfg : Text → HostState → HostState
delete_host_cfg server s = record s {
  has_peers = false;
  nodes = delete_nodes server s.nodes;
  servers = delete_server server s.servers;
  effects = unsubscribe_nodes server s.nodes s.effects;
}

-- What the handler asks: the version of the client, semver's order (none is an error), UseVersion,
-- the port of the interface, the free ports, the identity that the host reads anew, and whether the
-- configuration can be written.
pub record HostEnv : Type 0 where
  pub version : Text
  pub version_less_than : Text → Text → Option Bool
  pub use_version : Text → Upgrade
  pub actual_port : Option ℕ
  pub is_port_free : ℕ → Bool
  pub refresh_identity : Host → Host
  pub writes_netclient : Bool

module _ (env : HostEnv) where
  unfoldable pub upgrade_if_older : Server → HostState → HostState
  upgrade_if_older server s = elim (env.version_less_than env.version server.config.version) [
    | none ↦ upgrade_to (env.use_version server.config.version) s
    | some older ↦ if older then upgrade_to (env.use_version server.config.version) s else s
  ]

  unfoldable pub join_network : Text → Node → HostState → Option (HostState × Plan)
  join_network name node s =
      let nodes' = insert node.network node s.nodes in
      elim (get_server name s.servers) [
        | none ↦ none
        | some server ↦
            let server' : Server = record server { nodes = node.network ∷ server.nodes } in
            let s1 : HostState = record s {
              nodes = nodes';
              servers = update_server name server' s.servers;
            } in
            let s2 =
              does acknowledge
                (does clear_retained_msg (does write_server_config (does write_node_config s1))) in
            some (
              does (subscribe_dns node server.name) (does (subscribe_node node) s2),
              record leave { reset = true },
            )
      ]

  -- UpdateHostFromServer, with the message to the server.
  unfoldable pub take_host : Host → HostState → HostState × Plan
  take_host host s =
      let r = update_host env.actual_port env.is_port_free s.host (some host) in
      let s' : HostState = record s { host = env.refresh_identity r.host } in
      (
        if r.send_host_update then does publish_host_update s' else s',
        record {
          write_to_disk = false;
          restart = r.restart;
          reset = r.reset_interface;
          clear_msg = true;
        },
      )

  -- The switch of HostUpdate; none where it returns.
  unfoldable pub dispatch :
      HostMqAction → Text → Server → HostMessage → HostState → Option (HostState × Plan)
  dispatch upgrade name server m s =
      some (upgrade_if_older server (does clear_retained_msg s), leave)
  dispatch force_upgrade name server m s =
      some (upgrade_to (env.use_version server.config.version) (does clear_retained_msg s), leave)
  dispatch join_host_to_network name server m s = join_network name m.node s
  dispatch delete_host name server m s =
      let s' = delete_host_cfg name (does (unsubscribe_host name) (does clear_retained_msg s)) in
      some (
        record (does write_server_config (does write_node_config s')) { has_node_names = false },
        record leave { restart = true },
      )
  dispatch update_host_action name server m s = some (take_host m.host s)
  dispatch request_ack name server m s =
      some (does acknowledge (does clear_retained_msg s), no_write)
  dispatch signal_host name server m s =
      some (does process_peer_signal (does clear_retained_msg s), no_write)
  dispatch update_keys_action name server m s =
      some (does rotate_keys (does clear_retained_msg s), no_write)
  dispatch request_pull name server m s =
      some (s, record no_write { restart = true; clear_msg = true })
  dispatch signal_pull name server m s = some (does pull (does clear_retained_msg s), no_write)
  dispatch egress_update name server m s = some (does process_egress_domain s, leave)
  dispatch check_auto_assign_gw name server m s = some (does assign_gateway s, leave)
  dispatch collect_metrics name server m s = some (does publish_metrics s, leave)
  dispatch unknown name server m s = none

  -- What follows the switch.
  unfoldable pub follow : Plan → HostState → HostState
  follow plan s =
      let s' = if plan.write_to_disk then does write_netclient_config s else s in
      if plan.write_to_disk && not env.writes_netclient
      then s'
      else if plan.restart
      then does restart_daemon (if plan.clear_msg then does clear_retained_msg s' else s')
      else if plan.reset
      then does reset_interface s'
      else s'

  -- Where the switch returns, it has changed nothing: a server that is known for the message is
  -- known where a network is joined.
  unfoldable pub end_update : HostState → Option (HostState × Plan) → HostState
  end_update s none = s
  end_update s (some (s', plan)) = follow plan s'

  -- HostUpdate behind the decoding, and for a server, where they are there.
  unfoldable pub handle_message : Text → Server → HostState → Option HostMessage → HostState
  handle_message name server s none = s
  handle_message name server s (some m) = end_update s (dispatch m.action name server m s)

  unfoldable pub handle_payload :
      Codec HostMessage → Text → Text → HostState → Option Server → HostState
  handle_payload codec name payload s none = s
  handle_payload codec name payload s (some server) =
      if is_empty payload
      then s
      else handle_message name server s (read_message codec server.name payload)

  -- HostUpdate.
  unfoldable pub host_update : Codec HostMessage → Text → Text → HostState → HostState
  host_update codec name payload s = handle_payload codec name payload s (get_server name s.servers)
