-- ===== src/Firewall/Routing/Placed.antt =====
-- firewall/egress.go: what the second loop of SetEgressRoutes does.
use netclient.Prelude.{
  ◌≡◌, refl, List, [], ◌∷◌, true, false, ◌||◌, if◌then◌else◌, arith, inl, inr, Bool-cases,
  Option-cases, ap, sym, ◌∙◌, none, some, All,
}
use netclient.Text.{Text, text_eq, text_eq_comm}
use netclient.Assoc.{
  lookup, has_key, has_key-insert, has_key-eq_lookup, has_key_at, HasDistinctKeys,
}
use netclient.Firewall.Types.{EgressRange}
use netclient.Firewall.Kernel.{ChainClient}
use netclient.Firewall.Manager.{EgressTable}
use netclient.Firewall.Egress.{EgressInfo, EgressCfg}
use netclient.Firewall.Egress.Ranges.{is_egress_range_equal}
use netclient.Firewall.Egress.Frames.{lookup-insert_other}
use netclient.Firewall.Routing.{
  RoutingEnv, insert_egress_routing_rules, remove_routing_rules, ranges_of, set_gateway,
  set_gateways,
}
use netclient.Firewall.Routing.Stale.{IsKeyed}
use netclient.Firewall.Routing.Removed.{has_key-remove_routing_rules, lookup-remove_routing_rules}

-- An entry under the key of a gateway, if there is one, holds ranges.
abbrev pub HoldsRanges : EgressTable → Text → Type 0
HoldsRanges t i =
    (c : EgressCfg) → lookup i t ≡ some c → (l : List EgressRange) × (ranges_of c ≡ some l)

module _ {K : Type 0} (client : ChainClient K) (env : RoutingEnv K) where
  has_key-insert_egress_routing_rules :
      (j : Text) (info : EgressInfo) (s : EgressTable × K)
      → has_key j (insert_egress_routing_rules client env info s).0
        ≡ (if text_eq info.egress_id j then true else has_key j s.0)
  unfolding insert_egress_routing_rules
  has_key-insert_egress_routing_rules j info s = has_key-insert info.egress_id j _ s.0

  pub lookup-insert_egress_routing_rules :
      (j : Text) (info : EgressInfo) (s : EgressTable × K)
      → text_eq info.egress_id j ≡ false
      → lookup j (insert_egress_routing_rules client env info s).0 ≡ lookup j s.0
  unfolding insert_egress_routing_rules
  lookup-insert_egress_routing_rules j info s h = lookup-insert_other info.egress_id j _ s.0 h

  -- What the second loop does with a gateway: it gets its rules, for the first time or in place of
  -- the old ones, or keeps the rules for the same ranges.
  pub data IsPlaced (i : Text) (info : EgressInfo) (s : EgressTable × K)
      : EgressTable × K → Type 0 where
    created :
        lookup i s.0 ≡ none → IsPlaced i info s (insert_egress_routing_rules client env info s)
    unchanged :
        (c : EgressCfg) (old : List EgressRange)
        → lookup i s.0 ≡ some c
        → ranges_of c ≡ some old
        → is_egress_range_equal old info.ranges_with_metric ≡ true
        → IsPlaced i info s s
    replaced :
        IsPlaced i info s
          (insert_egress_routing_rules client env info (remove_routing_rules client true i s).0)

  set_gateway-IsPlaced :
      (i : Text) (info : EgressInfo) (s : EgressTable × K)
      → HoldsRanges s.0 i
      → (s' : EgressTable × K) × (set_gateway client env i info s ≡ some s') × IsPlaced i info s s'
  unfolding set_gateway
  set_gateway-IsPlaced i info s h = elim (Option-cases (lookup i s.0)) [
    | inl e ↦ (insert_egress_routing_rules client env info s, rw (e, set_gateway) refl, created e)
    | inr (c, e) ↦
        let (old, e') = h c e in
        elim (Bool-cases (is_egress_range_equal old info.ranges_with_metric)) [
          | inl e2 ↦ (s, rw (e, set_gateway) (rw e' (rw e2 refl)), unchanged c old e e' e2)
          | inr e2 ↦ (
            insert_egress_routing_rules client env info (remove_routing_rules client true i s).0,
            rw (e, set_gateway) (rw e' (rw e2 refl)),
            replaced,
          )
        ]
  ]

  has_key-IsPlaced :
      (j i : Text) (info : EgressInfo) (s : EgressTable × K) {s' : EgressTable × K}
      → i ≡ info.egress_id
      → IsPlaced i info s s'
      → has_key j s'.0 ≡ text_eq i j || has_key j s.0
  has_key-IsPlaced j i info s q (created e) =
      ground (arith, has_key-insert_egress_routing_rules j info s, ap (λ x. text_eq x j) q)
  has_key-IsPlaced j i info s q (unchanged c old e e' e2) =
      has_key_at i j s.0 (ground (arith, has_key-eq_lookup i s.0, e))
  has_key-IsPlaced j i info s q replaced = ground (
    arith,
    has_key-insert_egress_routing_rules j info (remove_routing_rules client true i s).0,
    has_key-remove_routing_rules client true j i s,
    ap (λ x. text_eq x j) q,
  )

  pub lookup-IsPlaced :
      (j i : Text) (info : EgressInfo) (s : EgressTable × K) {s' : EgressTable × K}
      → i ≡ info.egress_id
      → text_eq i j ≡ false
      → IsPlaced i info s s'
      → lookup j s'.0 ≡ lookup j s.0
  lookup-IsPlaced j i info s q h (created e) =
      lookup-insert_egress_routing_rules j info s (rw q at h)
  lookup-IsPlaced j i info s q h (unchanged c old e e' e2) = refl
  lookup-IsPlaced j i info s q h replaced =
      lookup-insert_egress_routing_rules j info (remove_routing_rules client true i s).0 (rw q at h)
      ∙ lookup-remove_routing_rules client true j i s h

  -- What the second loop does.
  pub data ArePlaced : List (Text × EgressInfo) → EgressTable × K → EgressTable × K → Type 0 where
    all_set : (s : EgressTable × K) → ArePlaced [] s s
    set_next :
        (i : Text) (info : EgressInfo) (gateways : List (Text × EgressInfo))
        (s s1 s' : EgressTable × K)
        → IsPlaced i info s s1
        → ArePlaced gateways s1 s'
        → ArePlaced ((i, info) ∷ gateways) s s'

  -- The entries of the later gateways hold ranges as before.
  holds-IsPlaced :
      (i : Text) (info : EgressInfo) (gateways : List (Text × EgressInfo)) (s s' : EgressTable × K)
      → i ≡ info.egress_id
      → has_key i gateways ≡ false
      → IsPlaced i info s s'
      → All (λ g. HoldsRanges s.0 g.0) gateways
      → All (λ g. HoldsRanges s'.0 g.0) gateways
  unfolding has_key
  holds-IsPlaced i info [] s s' q d w h = tt
  holds-IsPlaced i info ((j, other) ∷ gateways) s s' q d w h =
      let apart : text_eq i j ≡ false = ground (arith, d, text_eq_comm i j) in
      (
        λ c e. h.0 c (sym (lookup-IsPlaced j i info s q apart w) ∙ e),
        holds-IsPlaced i info gateways s s' q (ground (arith, d)) w h.1,
      )

  pub set_gateways-ArePlaced :
      (gateways : List (Text × EgressInfo)) (s : EgressTable × K)
      → IsKeyed gateways
      → HasDistinctKeys gateways
      → All (λ g. HoldsRanges s.0 g.0) gateways
      → (s' : EgressTable × K) × (set_gateways client env gateways s ≡ some s')
        × ArePlaced gateways s s'
  unfolding set_gateways
  set_gateways-ArePlaced [] s q d h = (s, refl, all_set s)
  set_gateways-ArePlaced ((i, info) ∷ gateways) s q d h =
      let (s1, e, w) = set_gateway-IsPlaced i info s h.0 in
      let (s', e', r) =
        set_gateways-ArePlaced gateways s1 q.1 d.1
          (holds-IsPlaced i info gateways s s1 q.0 d.0 w h.1) in
      (s', rw (e, set_gateways) e', set_next i info gateways s s1 s' w r)

  pub has_key-ArePlaced :
      (j : Text) {gateways : List (Text × EgressInfo)} {s s' : EgressTable × K}
      → IsKeyed gateways
      → ArePlaced gateways s s'
      → has_key j s'.0 ≡ has_key j gateways || has_key j s.0
  unfolding has_key
  has_key-ArePlaced j q (all_set s) = refl
  has_key-ArePlaced j q (set_next i info gateways s s1 s' w r) =
      ground (arith, has_key-ArePlaced j q.1 r, has_key-IsPlaced j i info s q.0 w)
