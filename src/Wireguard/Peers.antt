-- ===== src/Wireguard/Peers.antt =====
-- wireguard/wireguard.go and wireguard/extra_allowed_ips.go: the peers that are set on the
-- interface. An endpoint is its IP's text, empty where the IP is nil, and its port; networks and
-- keys are texts. `unique` stands for logic.UniqueIPNetList, `better` for the cache of endpoints
-- that answered, and `parse_cidr` for net.ParseCIDR with the text of the network that it gives.
pub mod Replace
pub mod Kept
use netclient.Prelude.{
  ℕ, List, [], ◌∷◌, ◌++◌, Bool, true, false, not, if◌then◌else◌, is_empty, Option, none, some, ◌==◌,
  length, map,
}
use netclient.Text.{Text, codes, split, trim_space}
use netclient.Sets.{mem}
use netclient.Assoc.{lookup, insert}
use netclient.Wireguard.Types.{PeerConfig}
use netclient.Wireguard.Egress.{HaData, HaCache, check_if_egress_ha_peer}

abbrev pub key : PeerConfig → Text
key p = p.public_key

unfoldable pub all_mem : List Text → List Text → Bool
all_mem [] l = true
all_mem (k ∷ ks) l = if mem k l then all_mem ks l else false

-- ShouldReplace, given the host's peers.
unfoldable pub should_replace : List PeerConfig → List PeerConfig → Bool
should_replace incoming host_peers =
    if not (length incoming == length host_peers)
    then true
    else if not (all_mem (map key incoming) (map key host_peers))
    then true
    else not (all_mem (map key host_peers) (map key incoming))

abbrev pub Endpoint : Type 0
Endpoint = Text × ℕ

-- An endpoint with a nil IP is taken off the peer in the list.
unfoldable pub drop_nil_endpoint : PeerConfig → PeerConfig
drop_nil_endpoint p = elim p.endpoint [
  | none ↦ p
  | some (ip, port) ↦ if is_empty ip then record p { endpoint = none } else p
]

module _ (unique : List Text → List Text) (better : Text → Option (Option Endpoint)) where
  -- checkForBetterEndpoint: the verdict and the peer.
  unfoldable pub check_for_better_endpoint : PeerConfig → Bool × PeerConfig
  check_for_better_endpoint p = elim (better p.public_key) [
    | none ↦ (false, p)
    | some endpoint ↦ (true, record p { endpoint = endpoint })
  ]

  -- The body of the loop of SetPeers: the peer in the list, and the cache. The copy of the peer that
  -- the checks change is taken before the endpoint is dropped.
  unfoldable pub set_peer : PeerConfig → HaData → HaCache → PeerConfig × HaCache
  set_peer peer data_ cache =
      let in_list = drop_nil_endpoint peer in
      if peer.remove
      then (in_list, cache)
      else (let (found, copy) = check_for_better_endpoint peer in
          let in_list' = if found then copy else in_list in
          let (ha, copy', cache') = check_if_egress_ha_peer unique copy data_ cache in
          (if ha then copy' else in_list', cache'))

  unfoldable pub set_all : List PeerConfig → HaData → HaCache → List PeerConfig × HaCache
  set_all [] data_ cache = ([], cache)
  set_all (p ∷ peers) data_ cache =
      let (q, cache') = set_peer p data_ cache in
      let (qs, cache'') = set_all peers data_ cache' in (q ∷ qs, cache'')

  -- applyExtraAllowedIPs, given the networks of the configuration file.
  unfoldable pub apply_extra : List (Text × List Text) → PeerConfig → PeerConfig
  apply_extra extra p = if p.remove then p else elim (lookup p.public_key extra) [
    | none ↦ p
    | some ips ↦ record p { allowed_ips = unique (p.allowed_ips ++ ips) }
  ]

  -- SetPeers, up to the call that applies the configuration: the peers and the cache.
  unfoldable pub set_peers :
      List (Text × List Text) → List PeerConfig → HaData → HaCache → List PeerConfig × HaCache
  set_peers extra peers data_ cache =
      let (qs, cache') = set_all peers data_ cache in
      (if is_empty extra then qs else map (apply_extra extra) qs, cache')

-- ExtraPeerConfig
pub record ExtraPeerConfig : Type 0 where
  pub public_key : Text
  pub allowed_ips : Text

module _ (parse_cidr : Text → Option Text) where
  unfoldable pub parse_all : List Text → List Text
  parse_all [] = []
  parse_all (c ∷ cidrs) =
      let cidr = trim_space c in
      let rest = parse_all cidrs in
      if is_empty cidr then rest else elim (parse_cidr cidr) [ none ↦ rest | some n ↦ n ∷ rest ]

  -- loadExtraAllowedIPs, given the peers of the configuration file.
  unfoldable pub load_extra :
      List ExtraPeerConfig → List (Text × List Text) → List (Text × List Text)
  load_extra [] result = result
  load_extra (p ∷ peers) result =
      let nets = parse_all (split b',' p.allowed_ips) in
      load_extra peers (if is_empty nets then result else insert p.public_key nets result)

  -- GetIPNetfromIp: the text of the address is given as that of an IPv4 or of an IPv6 address. In
  -- the second case the code formats the nil result of To4.
  pub data IpAddr : Type 0 where
    v4 v6 : Text → IpAddr

  unfoldable pub get_ipnet_from_ip : IpAddr → Option Text
  get_ipnet_from_ip (v4 ip) = parse_cidr (ip ++ codes "/32")
  get_ipnet_from_ip (v6 ip) = parse_cidr (codes "<nil>" ++ codes "/128")
