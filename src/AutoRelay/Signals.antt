-- ===== src/AutoRelay/Signals.antt =====
-- functions/auto_relay.go: the request of handlePeerRelaySignal.
use netclient.Prelude.{
  ℕ, ◌≡◌, ◌⊎◌, ◌^◌, refl, List, [], ◌∷◌, is_empty, if◌then◌else◌, Bool, none, some, arith, inl, inr,
  Option-cases,
}
use mathlib.Core.Path.{subst}
use netclient.Text.{Text}
use netclient.AutoRelay.{
  Node, Probe, RelayRequest, Signal, post, average, common_relay, find_nearest_node, reached,
  answer_signal, handle_peer_relay_signal, find_node_latencies,
}
use netclient.AutoRelay.Lowest.{IsLowest, keep_lowest-IsLowest, find_nearest_node-IsLowest}

-- The other host has sent no latencies, or there is no relay that both hosts have measured.
abbrev pub HasNoCommon : List (Text × ℕ) → List (Text × ℕ) → List Node → Type 0
HasNoCommon mine theirs nodes = (theirs ≡ []) ⊎ IsLowest (average mine theirs) (2 ^ 62) nodes none

-- The relay of a request: the one with the lowest average of the latencies of both hosts, or, where
-- no relay has one, the one that answered this host with the lowest latency.
abbrev pub IsBestRelay :
    List (Text × ℕ) → List (Text × ℕ) → List Node → List Node → Probe → Node → Type 0
IsBestRelay mine theirs nodes finished probe n =
    IsLowest (average mine theirs) (2 ^ 62) nodes (some n)
    ⊎ (HasNoCommon mine theirs nodes × IsLowest (reached probe) 999 finished (some n))

common_relay-IsLowest :
    (mine theirs : List (Text × ℕ)) (nodes : List Node) (n : Node)
    → common_relay mine theirs nodes ≡ some n
    → IsLowest (average mine theirs) (2 ^ 62) nodes (some n)
unfolding common_relay
common_relay-IsLowest mine [] nodes n h = ground (arith, h)
common_relay-IsLowest mine (t ∷ theirs) nodes n h =
    subst (IsLowest (average mine (t ∷ theirs)) (2 ^ 62) nodes) h
      (keep_lowest-IsLowest (average mine (t ∷ theirs)) nodes (2 ^ 62))

common_relay-HasNoCommon :
    (mine theirs : List (Text × ℕ)) (nodes : List Node)
    → common_relay mine theirs nodes ≡ none
    → HasNoCommon mine theirs nodes
unfolding common_relay
common_relay-HasNoCommon mine [] nodes h = inl refl
common_relay-HasNoCommon mine (t ∷ theirs) nodes h = inr (
    subst (IsLowest (average mine (t ∷ theirs)) (2 ^ 62) nodes) h
      (keep_lowest-IsLowest (average mine (t ∷ theirs)) nodes (2 ^ 62)))

module _ (signal : Signal) (nodes finished : List Node) (mine : List (Text × ℕ)) (probe : Probe)
    (send : Signal → Bool) (request : RelayRequest → Bool) (now : ℕ)
    (throttle : List (Text × ℕ)) where
  abbrev asked : Node → RelayRequest
  asked n = record {
    method = post;
    node_id = signal.to_node_id;
    peer_id = signal.from_node_id;
    relay_id = n.id;
  }

  abbrev pub IsRequest : RelayRequest → Type 0
  IsRequest r =
      (r.node_id ≡ signal.to_node_id)
      × (r.peer_id ≡ signal.from_node_id)
      × (n : Node) × (r.relay_id ≡ n.id)
      × IsBestRelay mine signal.metrics nodes finished probe n

  -- The request that handlePeerRelaySignal makes with the latencies that it has asks, for the two
  -- nodes of the signal, for the relay with the lowest average latency, or for the nearest one where
  -- the hosts have no relay in common.
  pub answer_signal-IsBestRelay :
      (r : RelayRequest)
      → (answer_signal signal nodes finished mine probe send request now throttle).request ≡ some r
      → IsRequest r
  unfolding answer_signal
  answer_signal-IsBestRelay r h = elim (Option-cases (common_relay mine signal.metrics nodes)) [
    | inr (n, e) ↦
        let lowest = common_relay-IsLowest mine signal.metrics nodes n e in
        let same : asked n ≡ r = ground (arith, h, e) in
        subst IsRequest same (refl, refl, n, refl, inl lowest)
    | inl e ↦ elim (Option-cases (find_nearest_node probe finished)) [
      | inl f ↦ ground (arith, h, e, f)
      | inr (n, f) ↦
          let same : asked n ≡ r = ground (arith, h, e, f) in
          let lowest =
            subst (IsLowest (reached probe) 999 finished) f
              (find_nearest_node-IsLowest probe finished) in
          subst IsRequest same (
            refl,
            refl,
            n,
            refl,
            inr (common_relay-HasNoCommon mine signal.metrics nodes e, lowest),
          )
    ]
  ]

module _ (signal : Signal) (nodes finished : List Node) (cached : List (Text × ℕ)) (probe : Probe)
    (send : Signal → Bool) (request : RelayRequest → Bool) (now : ℕ)
    (throttle : List (Text × ℕ)) where
  -- The latencies that the handler goes by: the cached ones, or new ones where none are cached.
  abbrev pub latencies : List (Text × ℕ)
  latencies = if is_empty cached then find_node_latencies probe finished [] else cached

  -- A request of handlePeerRelaySignal asks, for the two nodes of the signal, for the relay with the
  -- lowest average of the two hosts' latencies, or, where the other host sent none or no relay has an
  -- average below the bound 2 ^ 62, for the relay that answered this host with the lowest latency. The host's latencies are the cached ones,
  -- or new ones where none are cached.
  pub handle_peer_relay_signal-IsBestRelay :
      (r : RelayRequest)
      → (handle_peer_relay_signal signal nodes finished cached probe send request now
          throttle).request
        ≡ some r
      → IsRequest signal nodes finished latencies probe send request now throttle r
  unfolding handle_peer_relay_signal
  handle_peer_relay_signal-IsBestRelay r h =
      answer_signal-IsBestRelay signal nodes finished latencies probe send request now throttle r
        (ground (arith, h))
