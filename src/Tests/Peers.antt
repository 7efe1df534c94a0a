-- ===== src/Tests/Peers.antt =====
-- wireguard/wireguard.go and wireguard/egress.go at concrete inputs.
use netclient.Prelude.{
  ◌≡◌, ◌⊎◌, refl, List, [], ◌∷◌, All, keep, true, false, Option, none, some, arith, inr,
}
use netclient.Text.{Text, codes, text_eq, text_eq_iff}
use netclient.Assoc.{lookup}
use netclient.Wireguard.Types.{Peer, PeerConfig}
use netclient.Wireguard.Egress.{
  EgressRangeMetric, EgressNetworkRoutes, EgressPeer, HaData, HaCache, Round, HaState,
  key_in_ha_data, failover,
}
use netclient.Wireguard.Egress.Virtual.{IsVirtualFor}
use netclient.Wireguard.Egress.Failover.{
  IsKeyed, KeepsNetworks, usable_peer, key_of, IsActiveOnly, HoldsRange, failover-active,
}
use netclient.Wireguard.Peers.{Endpoint, set_peers}
use netclient.Wireguard.Peers.Kept.{AllKept, set_peers-AllKept}

abbrev peer : Text → PeerConfig
peer k = record {
  public_key = k;
  endpoint = some ([], 51821);
  allowed_ips = codes "10.0.0.2/32" ∷ [];
  remove = false;
  replace_allowed_ips = true;
  update_only = false;
}

abbrev peers : List PeerConfig
peers = peer (codes "p") ∷ []

-- The list of networks as it is: it keeps every one.
abbrev as_is : List Text → List Text
as_is l = l

as_is-KeepsNetworks : KeepsNetworks as_is
as_is-KeepsNetworks n l = refl

abbrev none_better : Text → Option (Option Endpoint)
none_better k = none

abbrev range_ : Text
range_ = codes "192.168.1.0/24"

abbrev cache : HaCache
cache = (codes "p", range_ ∷ []) ∷ []

abbrev egress_peer : Text → EgressPeer
egress_peer k = record {
  peer_key = k;
  egress_range = range_;
  metric = 1;
  egress_gw_addr = none;
  egress_gw_addr6 = none;
}

abbrev ha_data : HaData
ha_data = (range_, egress_peer (codes "p") ∷ egress_peer (codes "q") ∷ []) ∷ []

set_peers-AllKept_example : AllKept peers (set_peers as_is none_better [] peers ha_data cache).0
set_peers-AllKept_example =
    set_peers-AllKept as_is none_better as_is-KeepsNetworks [] peers ha_data cache

cached : lookup (codes "p") cache ≡ some (range_ ∷ [])
unfolding lookup text_eq
cached = refl

in_data : key_in_ha_data (codes "p") ha_data ≡ true
unfolding key_in_ha_data netclient.Wireguard.Egress.peer_listed text_eq
in_data = refl

abbrev metric : Text → EgressRangeMetric
metric virtual = record { network = range_; virtual_network = virtual; route_metric = 1 }

abbrev route : Text → Text → EgressNetworkRoutes
route k virtual = record {
  peer_key = k;
  egress_gw_addr = none;
  egress_gw_addr6 = none;
  egress_ranges_with_metric = metric virtual ∷ [];
}

abbrev direct_routes : List EgressNetworkRoutes
direct_routes = route (codes "p") [] ∷ route (codes "q") [] ∷ []

abbrev virtual_ : Text
virtual_ = codes "198.18.1.0/24"

abbrev virtual_routes : List EgressNetworkRoutes
virtual_routes = route (codes "p") virtual_ ∷ route (codes "q") virtual_ ∷ []

is_virtual : IsVirtualFor range_ virtual_ (metric virtual_)
unfolding text_eq
is_virtual = record { through = inr refl; apart = refl }

abbrev device_peer : Peer
device_peer = record { public_key = codes "q"; endpoint = none; allowed_ips = range_ ∷ [] }

abbrev get_peer : Text → Option Peer
get_peer k = none

abbrev round_ : Round
round_ = record {
  ipnet = range_;
  device_peer_map = (codes "q", device_peer) ∷ [];
  get_peer = get_peer;
  connected = λ p. true;
}

round_IsKeyed : IsKeyed round_
unfolding lookup
round_IsKeyed = record {
  device = λ k d h. ground (arith, h, text_eq_iff (codes "q") k);
  got = λ k d h. ground (arith, h);
}

abbrev ha_peers : List EgressPeer
ha_peers = egress_peer (codes "p") ∷ egress_peer (codes "q") ∷ []

abbrev ha_state : HaState
ha_state = record { cache = cache; updates = [] }

failover-active_example :
    All
      (IsActiveOnly as_is round_ round_IsKeyed
        (key_of (keep (usable_peer round_) ha_peers))
        (failover as_is round_ ha_peers ha_state).cache)
      ha_peers
    × ((keep (usable_peer round_) ha_peers ≡ [])
        ⊎ HoldsRange as_is round_ round_IsKeyed
            (key_of (keep (usable_peer round_) ha_peers))
            (failover as_is round_ ha_peers ha_state).cache)
failover-active_example =
    failover-active as_is round_ round_IsKeyed as_is-KeepsNetworks ha_peers ha_state
