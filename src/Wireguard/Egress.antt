-- ===== src/Wireguard/Egress.antt =====
-- wireguard/egress.go: the failover of egress routes among the gateways that serve a range. A
-- network is its text. `unique` stands for logic.UniqueIPNetList of the netmaker module.
pub mod Grouping
pub mod Virtual
pub mod Failover
use netclient.Prelude.{
  ℕ, List, [], ◌∷◌, ◌++◌, Bool, true, false, not, if◌then◌else◌, is_empty, Option, none, some, keep,
  length, ltb,
}
use netclient.Text.{Text, text_eq}
use netclient.Assoc.{lookup, insert, remove}
use netclient.Wireguard.Types.{Peer, PeerConfig}

-- models.EgressRangeMetric, with the fields that this file reads.
pub record EgressRangeMetric : Type 0 where
  pub network : Text
  pub virtual_network : Text
  pub route_metric : ℕ  -- uint32

-- models.EgressNetworkRoutes; the gateway addresses are none where the IP is nil.
pub record EgressNetworkRoutes : Type 0 where
  pub peer_key : Text
  pub egress_gw_addr : Option Text
  pub egress_gw_addr6 : Option Text
  pub egress_ranges_with_metric : List EgressRangeMetric

pub record EgressPeer : Type 0 where
  pub peer_key : Text
  pub egress_range : Text
  pub metric : ℕ
  pub egress_gw_addr : Option Text
  pub egress_gw_addr6 : Option Text

abbrev pub HaData : Type 0
HaData = List (Text × List EgressPeer)

abbrev pub peers_of : Option (List EgressPeer) → List EgressPeer
peers_of none = []
peers_of (some l) = l

-- `egressRange`: the virtual network if there is one.
abbrev pub egress_range_of : EgressRangeMetric → Text
egress_range_of range =
    if not (is_empty range.virtual_network) then range.virtual_network else range.network

abbrev pub egress_peer_of : EgressNetworkRoutes → EgressRangeMetric → EgressPeer
egress_peer_of route range = record {
  peer_key = route.peer_key;
  egress_range = egress_range_of range;
  metric = range.route_metric;
  egress_gw_addr = route.egress_gw_addr;
  egress_gw_addr6 = route.egress_gw_addr6;
}

-- The body of the inner loop of getHAEgressDataForProcessing. It reads the entry of the range that
-- is to be routed and writes the entry of the real network, as the source does.
unfoldable pub add_range : EgressNetworkRoutes → HaData → EgressRangeMetric → HaData
add_range route data_ range =
    insert range.network
      (peers_of (lookup (egress_range_of range) data_) ++ egress_peer_of route range ∷ []) data_

unfoldable pub add_ranges : EgressNetworkRoutes → HaData → List EgressRangeMetric → HaData
add_ranges route data_ [] = data_
add_ranges route data_ (range ∷ ranges) = add_ranges route (add_range route data_ range) ranges

unfoldable pub add_routes : HaData → List EgressNetworkRoutes → HaData
add_routes data_ [] = data_
add_routes data_ (route ∷ routes) =
    add_routes (add_ranges route data_ route.egress_ranges_with_metric) routes

-- The last loop of getHAEgressDataForProcessing: routes with one gateway go, the others are sorted
-- by `sort`, which stands for sortRouteMetricByAscending.
unfoldable pub keep_shared : (List EgressPeer → List EgressPeer) → HaData → HaData
keep_shared sort [] = []
keep_shared sort ((route, peers) ∷ data_) =
    let rest = keep_shared sort data_ in
    if ltb (length peers) 2 then rest else (route, sort peers) ∷ rest

unfoldable pub get_ha_egress_data :
    (List EgressPeer → List EgressPeer) → List EgressNetworkRoutes → HaData
get_ha_egress_data sort routes = keep_shared sort (add_routes [] routes)

-- removeIP
unfoldable pub remove_ip : List Text → Text → List Text
remove_ip slice item = keep (λ v. not (text_eq v item)) slice

-- haEgressPeerCache
abbrev pub HaCache : Type 0
HaCache = List (Text × List Text)

unfoldable pub peer_listed : Text → List EgressPeer → Bool
peer_listed key [] = false
peer_listed key (p ∷ peers) = if text_eq p.peer_key key then true else peer_listed key peers

unfoldable pub key_in_ha_data : Text → HaData → Bool
key_in_ha_data key [] = false
key_in_ha_data key ((route, peers) ∷ data_) =
    if peer_listed key peers then true else key_in_ha_data key data_

module _ (unique : List Text → List Text) where
  -- checkIfEgressHAPeer: the verdict, the peer and the cache.
  unfoldable pub check_if_egress_ha_peer :
      PeerConfig → HaData → HaCache → Bool × PeerConfig × HaCache
  check_if_egress_ha_peer peer data_ cache = elim (lookup peer.public_key cache) [
    | none ↦ (false, peer, cache)
    | some egress_list ↦
        if not (key_in_ha_data peer.public_key data_)
        then (false, peer, remove peer.public_key cache)
        else (true, record peer { allowed_ips = unique (peer.allowed_ips ++ egress_list) }, cache)
  ]

abbrev pub add_ips : Text → List Text → PeerConfig
add_ips key ips = record {
  public_key = key;
  endpoint = none;
  allowed_ips = ips;
  remove = false;
  replace_allowed_ips = false;
  update_only = true;
}

unfoldable pub has_ip : Text → List Text → Bool
has_ip n [] = false
has_ip n (m ∷ l) = if text_eq m n then true else has_ip n l

-- What one round of the failover for a range reads: the peers of the device by key, GetPeer, whether
-- a peer answers, and the range's network.
pub record Round : Type 0 where
  pub ipnet : Text
  pub device_peer_map : List (Text × Peer)
  pub get_peer : Text → Option Peer
  pub connected : EgressPeer → Bool

-- The state of a round: the cache and the updates of peers so far, in order.
pub record HaState : Type 0 where
  pub cache : HaCache
  pub updates : List PeerConfig

module _ (unique : List Text → List Text) (r : Round) where
  -- The branch of the first loop for a connected peer.
  unfoldable pub activate : Peer → HaState → HaState
  activate device_peer s =
      if has_ip r.ipnet device_peer.allowed_ips
      then record s { cache = insert device_peer.public_key device_peer.allowed_ips s.cache }
      else elim (r.get_peer device_peer.public_key) [
        | none ↦ s
        | some peer ↦
            let ips = unique (peer.allowed_ips ++ r.ipnet ∷ []) in
            record {
              cache = insert peer.public_key ips s.cache;
              updates = s.updates ++ add_ips peer.public_key ips ∷ [];
            }
      ]

  -- The first loop: the active peer's key, empty if there is none.
  unfoldable pub find_active : List EgressPeer → HaState → Text × HaState
  find_active [] s = ([], s)
  find_active (p ∷ peers) s =
      let rest = find_active peers s in
      elim (lookup p.peer_key r.device_peer_map) [
        | none ↦ rest
        | some device_peer ↦
            if r.connected p then (device_peer.public_key, activate device_peer s) else rest
      ]

  -- The branch of the second loop for a peer that is not the active one.
  unfoldable pub deactivate : EgressPeer → HaState → HaState
  deactivate p s = elim (r.get_peer p.peer_key) [
    | none ↦ record s { cache = remove p.peer_key s.cache }
    | some peer ↦ record {
      cache = remove p.peer_key s.cache;
      updates = s.updates ++ add_ips peer.public_key (remove_ip peer.allowed_ips r.ipnet) ∷ [];
    }
  ]

  unfoldable pub remove_others : Text → List EgressPeer → HaState → HaState
  remove_others active [] s = s
  remove_others active (p ∷ peers) s =
      remove_others active peers (if not (text_eq p.peer_key active) then deactivate p s else s)

  -- One goroutine of StartEgressHAFailOverThread, for a range that parses and no cancel.
  unfoldable pub failover : List EgressPeer → HaState → HaState
  failover peers s = let (active, s') = find_active peers s in remove_others active peers s'
