-- ===== src/Flow/Tracker/Events.antt =====
-- flow/tracker/tracker.go: what an exported event says.
use netclient.Prelude.{
  ℕ, ◌≡◌, ◌⊎◌, ◌||◌, refl, List, [], ◌∷◌, Bool, true, false, if◌then◌else◌, is_empty, none, some,
  arith, inl, inr, Option-cases, Bool-cases,
}
use mathlib.Core.Path.{subst}
use netclient.Text.{Text}
use netclient.Flow.Tracker.{
  Direction, unspecified, ingress, egress, Flow, EventType, event_new, event_destroy, event_other,
  FlowEvent, Node, get_sent_counter, get_received_counter, node_direction,
  infer_network_and_direction, export_event, handle_event,
}

module _ (ip_equal in_range : Text → Text → Bool) where
  abbrev pub owns : Node → Text → Bool
  owns node ip = ip_equal node.address ip || ip_equal node.address6 ip

  abbrev pub covers : Node → Text → Bool
  covers node ip = in_range node.network_range ip || in_range node.network_range6 ip

  -- What a direction says of the node that gave it. Egress: the source is an address of the node, or
  -- only the destination is in its network. Ingress: the source is none of its addresses, and the
  -- destination is one, or the source is in its network.
  abbrev pub IsDirection : Flow → Node → Direction → Type 0
  IsDirection flow node egress =
      (owns node flow.source_address ≡ true)
      ⊎ ((owns node flow.destination_address ≡ false)
          × (covers node flow.source_address ≡ false)
          × (covers node flow.destination_address ≡ true))
  IsDirection flow node ingress =
      (owns node flow.source_address ≡ false)
      × ((owns node flow.destination_address ≡ true) ⊎ (covers node flow.source_address ≡ true))
  IsDirection flow node unspecified = ⊥

  -- A node that neither end of the flow belongs to.
  abbrev pub IsForeign : Flow → Node → Type 0
  IsForeign flow node =
      (owns node flow.source_address || covers node flow.source_address ≡ false)
      × (owns node flow.destination_address || covers node flow.destination_address ≡ false)

  -- Network and direction are those of the first node that is not foreign to the flow.
  abbrev pub IsInferred : List Node → Flow → Text → Direction → Type 0
  IsInferred [] flow network_id direction = ⊥
  IsInferred (node ∷ nodes) flow network_id direction =
      ((network_id ≡ node.network) × IsDirection flow node direction)
      ⊎ (IsForeign flow node × IsInferred nodes flow network_id direction)

  node_direction-IsDirection :
      (flow : Flow) (node : Node) (d : Direction)
      → node_direction ip_equal in_range flow node ≡ some d
      → IsDirection flow node d
  unfolding node_direction
  node_direction-IsDirection flow node unspecified h = ground (arith, h)
  node_direction-IsDirection flow node ingress h = ground (arith, h)
  node_direction-IsDirection flow node egress h = ground (arith, h)

  node_direction-IsForeign :
      (flow : Flow) (node : Node)
      → node_direction ip_equal in_range flow node ≡ none
      → IsForeign flow node
  unfolding node_direction
  node_direction-IsForeign flow node h = ground (arith, h)

  infer-IsInferred :
      (nodes : List Node) (flow : Flow)
      → is_empty (infer_network_and_direction ip_equal in_range nodes flow).0 ≡ false
      → (IsInferred nodes flow
          (infer_network_and_direction ip_equal in_range nodes flow).0
          (infer_network_and_direction ip_equal in_range nodes flow).1)
  unfolding infer_network_and_direction
  infer-IsInferred [] flow h = ground (arith, h)
  infer-IsInferred (node ∷ nodes) flow h =
      elim (Option-cases (node_direction ip_equal in_range flow node)) [
        | inl e ↦
            let rest = infer-IsInferred nodes flow (rw (e, infer_network_and_direction) at h) in
            rw (e, infer_network_and_direction) (inr (node_direction-IsForeign flow node e, rest))
        | inr (d, e) ↦
            rw (e, infer_network_and_direction)
              (inl (refl, node_direction-IsDirection flow node d e))
      ]

  IsInferred-specified :
      (nodes : List Node) (flow : Flow) (i : Text) → ¬ IsInferred nodes flow i unspecified
  IsInferred-specified [] flow i h = h
  IsInferred-specified (node ∷ nodes) flow i (inl p) = p.1
  IsInferred-specified (node ∷ nodes) flow i (inr p) = IsInferred-specified nodes flow i p.1

  module _ {P : Type 0} (filter_event : Flow → Bool) (flow_id : ℕ → Text)
      (participant : Text → ℕ → P) where
    -- Sent is what conntrack counted in the direction of the flow, for a flow that leaves, and in
    -- the direction of the reply, for one that comes in.
    abbrev pub IsCounted : Direction → Flow → FlowEvent P → Type 0
    IsCounted egress flow e =
        (e.bytes_sent ≡ flow.counters_orig.bytes)
        × (e.packets_sent ≡ flow.counters_orig.packets)
        × (e.bytes_recv ≡ flow.counters_reply.bytes)
        × (e.packets_recv ≡ flow.counters_reply.packets)
    IsCounted ingress flow e =
        (e.bytes_sent ≡ flow.counters_reply.bytes)
        × (e.packets_sent ≡ flow.counters_reply.packets)
        × (e.bytes_recv ≡ flow.counters_orig.bytes)
        × (e.packets_recv ≡ flow.counters_orig.packets)
    IsCounted unspecified flow e = ⊥

    -- What an event says of its flow: the first node of the host that the flow belongs to gave the
    -- network and the direction, the filter let the flow pass, and sent and received are counted by
    -- the direction.
    abbrev pub Reports : List Node → Flow → FlowEvent P → Type 0
    Reports nodes flow e =
        IsInferred nodes flow e.network_id e.direction
        × (filter_event flow ≡ false)
        × IsCounted e.direction flow e

    export-IsCounted :
        (nodes : List Node) (flow : Flow) (now : ℕ) (b : Bool) (i : Text) (d : Direction)
        → IsInferred nodes flow i d
        → IsCounted d flow
            (export_event ip_equal in_range filter_event flow_id participant b i d flow now)
    unfolding export_event get_sent_counter get_received_counter
    export-IsCounted nodes flow now b i unspecified h = IsInferred-specified nodes flow i h
    export-IsCounted nodes flow now b i ingress h = (refl, refl, refl, refl)
    export-IsCounted nodes flow now b i egress h = (refl, refl, refl, refl)

    export-Reports :
        (nodes : List Node) (flow : Flow) (now : ℕ) (b : Bool) (e : FlowEvent P)
        → (let (network_id, direction) = infer_network_and_direction ip_equal in_range nodes flow in
            if is_empty network_id
            then none
            else if filter_event flow
            then none
            else some (
                export_event ip_equal in_range filter_event flow_id participant b network_id
                  direction flow now))
          ≡ some e
        → Reports nodes flow e
    unfolding export_event
    export-Reports nodes flow now b e h =
        let inferred = infer_network_and_direction ip_equal in_range nodes flow in
        elim (Bool-cases (is_empty inferred.0)) [
          | inl q ↦ ground (arith, h, q)
          | inr q ↦ elim (Bool-cases (filter_event flow)) [
            | inl f ↦ ground (arith, h, q, f)
            | inr f ↦
                let given = infer-IsInferred nodes flow q in
                let exported =
                  export_event ip_equal in_range filter_event flow_id participant b inferred.0
                    inferred.1 flow now in
                let same : exported ≡ e = ground (arith, h, q, f) in
                subst (Reports nodes flow) same
                  (given, f, export-IsCounted nodes flow now b inferred.0 inferred.1 given)
          ]
        ]

    -- An event that the tracker exports passed the filter. Its network and direction are those of the
    -- first node of the host that the flow belongs to, by an address or by the range of the network:
    -- egress where the source is the node's own, or else where only the destination is in its
    -- network; ingress where the destination is the node's own or the source is in its network. For
    -- egress it reports what conntrack counted for the flow as sent and what it counted for the reply
    -- as received, and for ingress the other way round.
    pub handle_event-Reports :
        (nodes : List Node) (t : EventType) (flow : Flow) (now : ℕ) (e : FlowEvent P)
        → handle_event ip_equal in_range filter_event flow_id participant nodes t (some flow) now
          ≡ some e
        → Reports nodes flow e
    unfolding handle_event
    handle_event-Reports nodes event_new flow now e h = export-Reports nodes flow now true e h
    handle_event-Reports nodes event_destroy flow now e h = export-Reports nodes flow now false e h
    handle_event-Reports nodes event_other flow now e h = ground (arith, h)
