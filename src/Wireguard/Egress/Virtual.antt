-- ===== src/Wireguard/Egress/Virtual.antt =====
-- Ranges with a virtual network: their gateways are looked up under the virtual network and stored
-- under the real one, so that they are never collected together.
use netclient.Prelude.{
  ◌≤◌, ◌≡◌, ◌⊎◌, refl, List, [], ◌∷◌, ◌++◌, true, false, if◌then◌else◌, is_empty, none, some, arith,
  All, Bool-cases, inl, inr, length,
}
use netclient.Text.{Text, text_eq, text_eq_iff}
use netclient.Assoc.{lookup, has_key, lookup-insert, HasDistinctKeys, HasDistinctKeys-insert}
use netclient.Wireguard.Egress.{
  EgressRangeMetric, EgressNetworkRoutes, EgressPeer, HaData, peers_of, egress_range_of,
  egress_peer_of, add_range, add_ranges, add_routes, keep_shared, get_ha_egress_data,
}

-- The network is always reached through the virtual network, and nothing is reached at the virtual
-- network itself.
pub record IsVirtualFor (network virtual : Text) (range : EgressRangeMetric) : Type 0 where
  pub through : (text_eq range.network network ≡ false) ⊎ (range.virtual_network ≡ virtual)
  pub apart : text_eq range.network virtual ≡ false

record Alone (network virtual : Text) (data_ : HaData) : Type 0 where
  none_there : lookup virtual data_ ≡ none
  at_most_one : length (peers_of (lookup network data_)) ≤ 1
  distinct : HasDistinctKeys data_

lookup-add_range :
    (route : EgressNetworkRoutes) (data_ : HaData) (range : EgressRangeMetric) (j : Text)
    → lookup j (add_range route data_ range) ≡ (
        if text_eq range.network j
        then some
            (peers_of (lookup (egress_range_of range) data_) ++ egress_peer_of route range ∷ [])
        else lookup j data_)
unfolding add_range
lookup-add_range route data_ range j =
    lookup-insert range.network j
      (peers_of (lookup (egress_range_of range) data_) ++ egress_peer_of route range ∷ []) data_

module _ (network virtual : Text) (filled : is_empty virtual ≡ false) where
  at_network :
      (range : EgressRangeMetric)
      → (text_eq range.network network ≡ false) ⊎ (range.virtual_network ≡ virtual)
      → text_eq range.network network ≡ true
      → range.virtual_network ≡ virtual
  at_network range t same = ground (arith, t, same)

  virtual_entry :
      (data_ : HaData) (range : EgressRangeMetric)
      → range.virtual_network ≡ virtual
      → Alone network virtual data_
      → lookup (egress_range_of range) data_ ≡ none
  virtual_entry data_ range e a = rw (e, filled) a.none_there

  add_range-Alone :
      (route : EgressNetworkRoutes) (data_ : HaData) (range : EgressRangeMetric)
      → IsVirtualFor network virtual range
      → Alone network virtual data_
      → Alone network virtual (add_range route data_ range)
  add_range-Alone route data_ range v a = record {
    none_there = ground (arith, lookup-add_range route data_ range virtual, v.apart, a.none_there);
    at_most_one = elim (Bool-cases (text_eq range.network network)) [
      | inr other ↦ ground (arith, lookup-add_range route data_ range network, a.at_most_one)
      | inl same ↦ ground (
        arith,
        lookup-add_range route data_ range network,
        virtual_entry data_ range (at_network range v.through same) a,
      )
    ];
    distinct =
        unfold add_range in
        HasDistinctKeys-insert range.network
          (peers_of (lookup (egress_range_of range) data_) ++ egress_peer_of route range ∷ []) data_
          a.distinct;
  }

  add_ranges-Alone :
      (route : EgressNetworkRoutes) (ranges : List EgressRangeMetric) (data_ : HaData)
      → All (IsVirtualFor network virtual) ranges
      → Alone network virtual data_
      → Alone network virtual (add_ranges route data_ ranges)
  unfolding add_ranges
  add_ranges-Alone route [] data_ v a = a
  add_ranges-Alone route (range ∷ ranges) data_ v a =
      add_ranges-Alone route ranges (add_range route data_ range) v.1
        (add_range-Alone route data_ range v.0 a)

  add_routes-Alone :
      (routes : List EgressNetworkRoutes) (data_ : HaData)
      → All (λ route. All (IsVirtualFor network virtual) route.egress_ranges_with_metric) routes
      → Alone network virtual data_
      → Alone network virtual (add_routes data_ routes)
  unfolding add_routes
  add_routes-Alone [] data_ v a = a
  add_routes-Alone (route ∷ routes) data_ v a =
      add_routes-Alone routes (add_ranges route data_ route.egress_ranges_with_metric) v.1
        (add_ranges-Alone route route.egress_ranges_with_metric data_ v.0 a)

keep_shared-has_key :
    (sort : List EgressPeer → List EgressPeer) (k : Text) (data_ : HaData)
    → has_key k data_ ≡ false
    → has_key k (keep_shared sort data_) ≡ false
unfolding keep_shared has_key
keep_shared-has_key sort k [] h = refl
keep_shared-has_key sort k ((j, l) ∷ data_) h = ground (arith, keep_shared-has_key sort k data_)

lone_dropped :
    (sort : List EgressPeer → List EgressPeer) (k : Text) (data_ : HaData)
    → HasDistinctKeys data_
    → length (peers_of (lookup k data_)) ≤ 1
    → has_key k (keep_shared sort data_) ≡ false
unfolding keep_shared has_key lookup
lone_dropped sort k [] d h = refl
lone_dropped sort k ((j, l) ∷ data_) d h = elim (Bool-cases (text_eq j k)) [
  | inr other ↦ ground (arith, lone_dropped sort k data_ d.1)
  | inl same ↦
      let e : j ≡ k = (text_eq_iff j k).0 same in
      let absent : has_key k data_ ≡ false = rw (← e) d.0 in
      ground (arith, keep_shared-has_key sort k data_ absent)
]

-- A network that every route reaches through the same virtual network is never among the ranges of
-- the failover, however many gateways serve it, if no range is the virtual network itself.
pub get_ha_egress_data-virtual :
    (sort : List EgressPeer → List EgressPeer) (routes : List EgressNetworkRoutes)
    (network virtual : Text)
    → is_empty virtual ≡ false
    → All (λ route. All (IsVirtualFor network virtual) route.egress_ranges_with_metric) routes
    → has_key network (get_ha_egress_data sort routes) ≡ false
unfolding get_ha_egress_data
get_ha_egress_data-virtual sort routes network virtual f v =
    let nothing : Alone network virtual [] = record {
      none_there = unfold lookup in refl;
      at_most_one = unfold lookup in omega arith;
      distinct = tt;
    } in
    let a = add_routes-Alone network virtual f routes [] v nothing in
    lone_dropped sort network (add_routes [] routes) a.distinct a.at_most_one
