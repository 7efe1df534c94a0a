-- ===== src/AutoRelay.antt =====
-- functions/auto_relay.go: the choice of a relay or a gateway, by the latencies of the nodes. A
-- probe stands for metrics.PeerConnStatus: whether the node answered, and the milliseconds that it
-- took, 0 where the code reads a latency that is not positive. The goroutines that probe the nodes
-- are given in the order in which they finish, and a node answers the probes of one call alike.
pub mod Lowest
pub mod Gateway
pub mod Signals
use netclient.Prelude.{
  ℕ, ◌+◌, ◌-◌, ◌/◌, ◌^◌, List, [], ◌∷◌, Bool, true, false, not, ◌||◌, if◌then◌else◌, is_empty,
  Option, none, some, ltb, ◌==◌, leb,
}
use netclient.Text.{Text, text_eq}
use netclient.Assoc.{lookup, insert, remove}

-- The parts of models.Node that the choice reads.
pub record Node : Type 0 where
  pub id : Text
  pub relayed_by : Text
  pub auto_assign_gateway : Bool

abbrev pub Probe : Type 0
Probe = Node → Bool × ℕ

-- The latency of a node that answered.
unfoldable pub reached : Probe → Node → Option ℕ
reached probe n =
    let (connected, latency) = probe n in
    if not connected || latency == 0 then none else some latency

-- The loops that keep the node with the lowest score below a bound.
unfoldable pub keep_lowest : (Node → Option ℕ) → List Node → Option Node → ℕ → Option Node
keep_lowest score [] best lowest = best
keep_lowest score (n ∷ nodes) best lowest = elim (score n) [
  | none ↦ keep_lowest score nodes best lowest
  | some l ↦
      if ltb l lowest
      then keep_lowest score nodes (some n) l
      else keep_lowest score nodes best lowest
]

-- findNearestNode: none stands for its errors.
unfoldable pub find_nearest_node : Probe → List Node → Option Node
find_nearest_node probe nodes = keep_lowest (reached probe) nodes none 999

-- findNodeLatencies
unfoldable pub find_node_latencies : Probe → List Node → List (Text × ℕ) → List (Text × ℕ)
find_node_latencies probe [] latencies = latencies
find_node_latencies probe (n ∷ nodes) latencies = elim (reached probe n) [
  | none ↦ find_node_latencies probe nodes latencies
  | some l ↦ find_node_latencies probe nodes (insert n.id l latencies)
]

pub data Method : Type 0 where
  post put : Method

-- The arguments of autoRelayME without the server: the node, the peer and the relay.
pub record RelayRequest : Type 0 where
  pub method : Method
  pub node_id : Text
  pub peer_id : Text
  pub relay_id : Text

abbrev pub put_relay : Node → Text → RelayRequest
put_relay node relay = record { method = put; node_id = node.id; peer_id = []; relay_id = relay }

unfoldable pub find_node : Text → List Node → Option Node
find_node i [] = none
find_node i (n ∷ nodes) = if text_eq n.id i then some n else find_node i nodes

-- checkAssignGw behind the search for the current gateway; `finished` are the gateways in the order
-- in which their probes end.
unfoldable pub switch_gw : Node → Probe → List Node → Option RelayRequest
switch_gw node probe finished = elim (find_nearest_node probe finished) [
  | some nearest ↦
      if text_eq node.relayed_by nearest.id then none else some (put_relay node nearest.id)
  | none ↦ if is_empty node.relayed_by then none else some (put_relay node [])
]

-- checkAssignGw: the request that it makes of the server.
unfoldable pub check_assign_gw : Node → List Node → List Node → Probe → Option RelayRequest
check_assign_gw node gw_nodes finished probe =
    if not node.auto_assign_gateway
    then none
    else if is_empty gw_nodes
    then none
    else if is_empty node.relayed_by
    then switch_gw node probe finished
    else elim (find_node node.relayed_by gw_nodes) [
      | none ↦ switch_gw node probe finished
      | some gw ↦ if (probe gw).0 then none else some (put_relay node [])
    ]

-- models.Signal
pub record Signal : Type 0 where
  pub from_host_id : Text
  pub from_node_id : Text
  pub from_host_pub_key : Text
  pub to_host_id : Text
  pub to_node_id : Text
  pub to_host_pub_key : Text
  pub reply : Bool
  pub metrics : List (Text × ℕ)
  pub time_stamp : ℕ

-- The signal that answers another one.
unfoldable pub signal_back : Signal → List (Text × ℕ) → ℕ → Signal
signal_back signal metrics now = record {
  from_host_id = signal.to_host_id;
  from_node_id = signal.to_node_id;
  from_host_pub_key = signal.to_host_pub_key;
  to_host_id = signal.from_host_id;
  to_node_id = signal.from_node_id;
  to_host_pub_key = signal.from_host_pub_key;
  reply = true;
  metrics = metrics;
  time_stamp = now;
}

-- The average that handlePeerRelaySignal takes for a node that both hosts have measured. The sum of
-- two latencies in milliseconds stays below 2 ^ 63.
unfoldable pub average : List (Text × ℕ) → List (Text × ℕ) → Node → Option ℕ
average mine theirs n = elim (lookup n.id mine) [
  | none ↦ none
  | some m ↦ elim (lookup n.id theirs) [ none ↦ none | some p ↦ some ((m + p) / 2) ]
]

unfoldable pub common_relay : List (Text × ℕ) → List (Text × ℕ) → List Node → Option Node
common_relay mine theirs nodes =
    if is_empty theirs then none else keep_lowest (average mine theirs) nodes none (2 ^ 62)

-- What handlePeerRelaySignal does: whether it gives an error, the signal that it sends, the cache of
-- the throttled hosts, and its request, which may fail.
pub record Handled : Type 0 where
  pub failed : Bool
  pub sent : Option Signal
  pub throttle : List (Text × ℕ)
  pub request : Option RelayRequest

-- handlePeerRelaySignal once it has latencies.
unfoldable pub answer_signal :
    Signal
    → List Node
    → List Node
    → List (Text × ℕ)
    → Probe
    → (Signal → Bool)
    → (RelayRequest → Bool)
    → ℕ
    → List (Text × ℕ)
    → Handled
answer_signal signal nodes finished mine probe send request now throttle =
    let back = signal_back signal mine now in
    let cleared = remove signal.from_host_id throttle in
    let throttle' = if signal.reply then cleared else if send back then cleared else throttle in
    let sent' = if signal.reply then none else some back in
    let common = common_relay mine signal.metrics nodes in
    let nearest : Option Node = elim common [
      | none ↦ find_nearest_node probe finished
      | some n ↦ some n
    ] in
    elim nearest [
      | none ↦ record { failed = true; sent = sent'; throttle = throttle'; request = none }
      | some n ↦
          let r : RelayRequest = record {
            method = post;
            node_id = signal.to_node_id;
            peer_id = signal.from_node_id;
            relay_id = n.id;
          } in
          record { failed = not (request r); sent = sent'; throttle = throttle'; request = some r }
    ]

-- handlePeerRelaySignal for a server that is known; `finished` are the relays in the order in which
-- their probes end.
unfoldable pub handle_peer_relay_signal :
    Signal
    → List Node
    → List Node
    → List (Text × ℕ)
    → Probe
    → (Signal → Bool)
    → (RelayRequest → Bool)
    → ℕ
    → List (Text × ℕ)
    → Handled
handle_peer_relay_signal signal nodes finished cached probe send request now throttle =
    if is_empty nodes
    then record { failed = false; sent = none; throttle = throttle; request = none }
    else (let mine = if is_empty cached then find_node_latencies probe finished [] else cached in
        if is_empty mine
        then record { failed = true; sent = none; throttle = throttle; request = none }
        else answer_signal signal nodes finished mine probe send request now throttle)

-- processPeerSignal for the negotiation of a connection: whether it goes on to
-- handlePeerRelaySignal, given whether the peer exists and its connection, none for an error.
unfoldable pub accepts_signal : Signal → ℕ → Bool → Option Bool → Bool
accepts_signal signal now exists_ connected =
    if not (leb (now - signal.time_stamp) 5)
    then false
    else if not exists_
    then false
    else elim connected [ none ↦ false | some c ↦ not c ]
