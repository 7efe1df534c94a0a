-- ===== src/Wireguard/Egress/Grouping.antt =====
-- How the gateways are grouped by range.
use netclient.Prelude.{
  ◌≡◌, List, [], ◌∷◌, ◌++◌, true, if◌then◌else◌, is_empty, arith, All, append_assoc, append-nil,
  sym,
}
use netclient.Text.{Text, text_eq, text_eq_iff}
use netclient.Assoc.{lookup, lookup-insert}
use netclient.Wireguard.Egress.{
  EgressRangeMetric, EgressNetworkRoutes, EgressPeer, HaData, peers_of, add_range, add_ranges,
  add_routes,
}

-- The gateway of a route, as it is stored for one of its ranges without a virtual network.
abbrev pub gateway : EgressNetworkRoutes → EgressRangeMetric → EgressPeer
gateway route range = record {
  peer_key = route.peer_key;
  egress_range = range.network;
  metric = range.route_metric;
  egress_gw_addr = route.egress_gw_addr;
  egress_gw_addr6 = route.egress_gw_addr6;
}

-- The gateways of a route for a network, and of all routes, in order.
unfoldable pub serving : Text → EgressNetworkRoutes → List EgressRangeMetric → List EgressPeer
serving network route [] = []
serving network route (range ∷ ranges) =
    let rest = serving network route ranges in
    if text_eq range.network network then gateway route range ∷ rest else rest

unfoldable pub all_serving : Text → List EgressNetworkRoutes → List EgressPeer
all_serving network [] = []
all_serving network (route ∷ routes) =
    serving network route route.egress_ranges_with_metric ++ all_serving network routes

abbrev pub IsDirect : EgressRangeMetric → Type 0
IsDirect range = is_empty range.virtual_network ≡ true

module _ (network : Text) where
  add_range-direct :
      (route : EgressNetworkRoutes) (data_ : HaData) (range : EgressRangeMetric)
      → IsDirect range
      → peers_of (lookup network (add_range route data_ range)) ≡ (
          if text_eq range.network network
          then peers_of (lookup network data_) ++ gateway route range ∷ []
          else peers_of (lookup network data_))
  unfolding add_range
  add_range-direct route data_ range d = ground (
    arith,
    lookup-insert range.network network
        (peers_of (lookup range.network data_) ++ gateway route range ∷ []) data_,
    text_eq_iff range.network network,
  )

  add_ranges-direct :
      (route : EgressNetworkRoutes) (ranges : List EgressRangeMetric) (data_ : HaData)
      → All IsDirect ranges
      → peers_of (lookup network (add_ranges route data_ ranges))
        ≡ peers_of (lookup network data_) ++ serving network route ranges
  unfolding add_ranges serving
  add_ranges-direct route [] data_ d = sym (append-nil (peers_of (lookup network data_)))
  add_ranges-direct route (range ∷ ranges) data_ d = ground (
    arith,
    add_ranges-direct route ranges (add_range route data_ range) d.1,
    add_range-direct route data_ range d.0,
    append_assoc (peers_of (lookup network data_)) (gateway route range ∷ [])
        (serving network route ranges),
  )

  add_routes-serving :
      (routes : List EgressNetworkRoutes) (data_ : HaData)
      → All (λ route. All IsDirect route.egress_ranges_with_metric) routes
      → peers_of (lookup network (add_routes data_ routes))
        ≡ peers_of (lookup network data_) ++ all_serving network routes
  unfolding add_routes all_serving
  add_routes-serving [] data_ d = sym (append-nil (peers_of (lookup network data_)))
  add_routes-serving (route ∷ routes) data_ d =
      let ranges = route.egress_ranges_with_metric in
      ground (
        arith,
        add_routes-serving routes (add_ranges route data_ ranges) d.1,
        add_ranges-direct route ranges data_ d.0,
        append_assoc (peers_of (lookup network data_)) (serving network route ranges)
            (all_serving network routes),
      )

-- Where no range has a virtual network, the gateways that are collected for a network are those of
-- all routes with a range of that network, in the order of the routes.
pub add_routes-direct :
    (routes : List EgressNetworkRoutes) (network : Text)
    → All (λ route. All IsDirect route.egress_ranges_with_metric) routes
    → peers_of (lookup network (add_routes [] routes)) ≡ all_serving network routes
unfolding lookup
add_routes-direct routes network d = add_routes-serving network routes [] d
