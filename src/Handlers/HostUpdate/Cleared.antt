-- ===== src/Handlers/HostUpdate/Cleared.antt =====
-- functions/mqhandlers.go: HostUpdate clears a retained message before it restarts the daemon.
use netclient.Prelude.{
  ◌≡◌, refl, inl, inr, Bool, true, false, Option, none, some, List, [], ◌∷◌, arith, Bool-cases,
}
use netclient.Text.{Text, text_eq}
use netclient.Config.Host.{Host}
use netclient.Config.Servers.{Server, get_server}
use netclient.Handlers.PeerUpdate.{Codec, read_message}
use netclient.Handlers.HostUpdate.{
  HostMqAction, HostMessage, HostState, HostEnv, Plan, Node, Step, clear_retained_msg, hard_restart,
  restart_daemon, rotate_keys, does, unsubscribe_host, pull, upgrade, force_upgrade,
  join_host_to_network, delete_host, update_host_action, request_ack, signal_host,
  update_keys_action, request_pull, signal_pull, egress_update, check_auto_assign_gw,
  collect_metrics, unknown, upgrade_to, upgrade_if_older, unsubscribe_nodes, unsubscribe_node,
  delete_host_cfg, join_network, take_host, dispatch, follow, end_update, handle_message,
  handle_payload, host_update,
}

abbrev pub has_cleared : List Step → Bool
has_cleared [] = false
has_cleared (clear_retained_msg ∷ l) = true
has_cleared (_ ∷ l) = has_cleared l

-- A step behind which the client starts again: UpdateKeys ends with a restart too, and a pull where
-- the port of the metrics has changed or where the client is upgraded.
abbrev pub restarts : Step → Bool
restarts hard_restart = true
restarts restart_daemon = true
restarts rotate_keys = true
restarts pull = true
restarts _ = false

-- Before each restart the message is cleared; the last step stands first.
abbrev pub IsClearedFirst : List Step → Type 0
IsClearedFirst [] = Unit
IsClearedFirst (e ∷ l) = (restarts e ≡ true → has_cleared l ≡ true) × IsClearedFirst l

unsubscribe_nodes-IsClearedFirst :
    (server : Text) (nodes : List (Text × Node)) (l : List Step)
    → IsClearedFirst l
    → IsClearedFirst (unsubscribe_nodes server nodes l)
      × (has_cleared l ≡ true → has_cleared (unsubscribe_nodes server nodes l) ≡ true)
unfolding unsubscribe_nodes
unsubscribe_nodes-IsClearedFirst server [] l h = (h, λ c. c)
unsubscribe_nodes-IsClearedFirst server ((k, node) ∷ nodes) l h =
    elim (Bool-cases (text_eq node.server server)) [
      | inl e ↦ rw e (
          unsubscribe_nodes-IsClearedFirst server nodes (unsubscribe_node node ∷ l)
            (ground (arith, h)))
      | inr e ↦ rw e (unsubscribe_nodes-IsClearedFirst server nodes l h)
    ]

-- What the switch leaves: a plan that restarts either clears the message or finds it cleared.
abbrev IsReady : HostState × Plan → Type 0
IsReady r =
    IsClearedFirst r.0.effects
    × (r.1.restart ≡ true → r.1.clear_msg ≡ false → has_cleared r.0.effects ≡ true)

module _ (env : HostEnv) where
  follow-IsClearedFirst :
      (plan : Plan) (s : HostState) → IsReady (s, plan) → IsClearedFirst (follow env plan s).effects
  unfolding follow
  follow-IsClearedFirst plan s h = ground (arith, h)

  upgrade-IsClearedFirst :
      (server : Server) (s : HostState)
      → IsClearedFirst s.effects
      → has_cleared s.effects ≡ true
      → IsClearedFirst (upgrade_if_older env server s).effects
  unfolding upgrade_if_older upgrade_to
  upgrade-IsClearedFirst server s h c = ground (arith, h, c)

  join_network-IsReady :
      (name : Text) (node : Node) (s : HostState) (r : HostState × Plan)
      → IsClearedFirst s.effects
      → join_network env name node s ≡ some r
      → IsReady r
  unfolding join_network
  join_network-IsReady name node s r h e = ground (arith, h, e)

  take_host-IsReady :
      (host : Host) (s : HostState) → IsClearedFirst s.effects → IsReady (take_host env host s)
  unfolding take_host
  take_host-IsReady host s h = ground (arith, h)

  dispatch-IsReady :
      (action : HostMqAction) (name : Text) (server : Server) (m : HostMessage) (s : HostState)
      (r : HostState × Plan)
      → IsClearedFirst s.effects
      → dispatch env action name server m s ≡ some r
      → IsReady r
  unfolding dispatch delete_host_cfg upgrade_to
  dispatch-IsReady upgrade name server m s r h e =
      let s' = does clear_retained_msg s in
      ground
        (arith, e, h, upgrade-IsClearedFirst server s' ((λ q. absurd (ground (arith, q))), h) refl)
  dispatch-IsReady force_upgrade name server m s r h e = ground (arith, e, h)
  dispatch-IsReady join_host_to_network name server m s r h e =
      join_network-IsReady name m.node s r h e
  dispatch-IsReady delete_host name server m s r h e = ground (
    arith,
    e,
    unsubscribe_nodes-IsClearedFirst name s.nodes
        (unsubscribe_host name ∷ clear_retained_msg ∷ s.effects) (ground (arith, h)),
  )
  dispatch-IsReady update_host_action name server m s r h e =
      ground (arith, e, take_host-IsReady m.host s h)
  dispatch-IsReady request_ack name server m s r h e = ground (arith, e, h)
  dispatch-IsReady signal_host name server m s r h e = ground (arith, e, h)
  dispatch-IsReady update_keys_action name server m s r h e = ground (arith, e, h)
  dispatch-IsReady request_pull name server m s r h e = ground (arith, e, h)
  dispatch-IsReady signal_pull name server m s r h e = ground (arith, e, h)
  dispatch-IsReady egress_update name server m s r h e = ground (arith, e, h)
  dispatch-IsReady check_auto_assign_gw name server m s r h e = ground (arith, e, h)
  dispatch-IsReady collect_metrics name server m s r h e = ground (arith, e, h)
  dispatch-IsReady unknown name server m s r h e = ground (arith, e, h)

  end_update-IsClearedFirst :
      (s : HostState) (o : Option (HostState × Plan))
      → IsClearedFirst s.effects
      → ((r : HostState × Plan) → o ≡ some r → IsReady r)
      → IsClearedFirst (end_update env s o).effects
  unfolding end_update
  end_update-IsClearedFirst s none h k = h
  end_update-IsClearedFirst s (some r) h k = follow-IsClearedFirst r.1 r.0 (k r refl)

  handle_message-IsClearedFirst :
      (name : Text) (server : Server) (s : HostState) (o : Option HostMessage)
      → IsClearedFirst s.effects
      → IsClearedFirst (handle_message env name server s o).effects
  unfolding handle_message
  handle_message-IsClearedFirst name server s none h = h
  handle_message-IsClearedFirst name server s (some m) h =
      end_update-IsClearedFirst s (dispatch env m.action name server m s) h
        (λ r e. dispatch-IsReady m.action name server m s r h e)

  handle_payload-IsClearedFirst :
      (codec : Codec HostMessage) (name payload : Text) (s : HostState) (o : Option Server)
      → IsClearedFirst s.effects
      → IsClearedFirst (handle_payload env codec name payload s o).effects
  unfolding handle_payload
  handle_payload-IsClearedFirst codec name payload s none h = h
  handle_payload-IsClearedFirst codec name payload s (some server) h = ground (
    arith,
    h,
    handle_message-IsClearedFirst name server s (read_message codec server.name payload) h,
  )

  -- Whatever message HostUpdate gets, before each step that starts the client again (an upgrade, a
  -- restart of the daemon, new keys, a pull) it has cleared the retained message, which the client would
  -- else get again behind the restart; where that held of the steps before it.
  pub host_update-IsClearedFirst :
      (codec : Codec HostMessage) (name payload : Text) (s : HostState)
      → IsClearedFirst s.effects
      → IsClearedFirst (host_update env codec name payload s).effects
  unfolding host_update
  host_update-IsClearedFirst codec name payload s =
      handle_payload-IsClearedFirst codec name payload s (get_server name s.servers)
