-- ===== src/Firewall/Routing/Removed.antt =====
-- firewall/egress.go: what RemoveRoutingRules and the first loop of SetEgressRoutes leave.
use netclient.Prelude.{
  ◌≡◌, refl, List, [], ◌∷◌, Bool, true, false, ◌&&◌, if◌then◌else◌, arith, inl, inr, ◌⊎◌,
  Bool-cases, Option-cases, ap, sym, ◌∙◌,
}
use netclient.Text.{Text, text_eq, text_eq_iff}
use netclient.Sets.{mem}
use netclient.Assoc.{lookup, has_key, has_key-remove, has_key-eq_lookup, lookup-remove}
use netclient.Firewall.Types.{RuleTable}
use netclient.Firewall.Kernel.{ChainClient}
use netclient.Firewall.Manager.{EgressTable}
use netclient.Firewall.Egress.{EgressInfo}
use netclient.Firewall.Routing.{RoutingEnv, remove_routing_rules, remove_gateways}

module _ {K : Type 0} (client : ChainClient K) where
  pub has_key-remove_routing_rules :
      {E : Type 0} (egress : Bool) (j i : Text) (s : RuleTable E × K)
      → has_key j (remove_routing_rules client egress i s).0.0
        ≡ (if text_eq i j then false else has_key j s.0)
  unfolding remove_routing_rules
  has_key-remove_routing_rules egress j i s = elim (Option-cases (lookup i s.0)) [
    | inl e ↦
        rw (e, remove_routing_rules)
          (elim (Bool-cases (text_eq i j)) [
            | inl e' ↦ ground (
              arith,
              e,
              e',
              has_key-eq_lookup j s.0,
              ap (λ x. lookup x s.0) ((text_eq_iff i j).0 e'),
            )
            | inr e' ↦ ground (arith, e')
          ])
    | inr (c, e) ↦ rw (e, remove_routing_rules) (has_key-remove i j s.0)
  ]

  pub lookup-remove_routing_rules :
      {E : Type 0} (egress : Bool) (j i : Text) (s : RuleTable E × K)
      → text_eq i j ≡ false
      → lookup j (remove_routing_rules client egress i s).0.0 ≡ lookup j s.0
  unfolding remove_routing_rules
  lookup-remove_routing_rules egress j i s h = elim (Option-cases (lookup i s.0)) [
    | inl e ↦ rw (e, remove_routing_rules) refl
    | inr (c, e) ↦ rw (e, remove_routing_rules) (lookup-remove i j s.0 ∙ rw h refl)
  ]

module _ {K : Type 0} (client : ChainClient K) (env : RoutingEnv K) where
  pub lookup-remove_gateways :
      (j : Text) (ids : List Text) (gateways : List (Text × EgressInfo)) (s : EgressTable × K)
      → has_key j gateways ≡ true
      → lookup j (remove_gateways client env ids gateways s).0 ≡ lookup j s.0
  unfolding remove_gateways
  lookup-remove_gateways j [] gateways s h = refl
  lookup-remove_gateways j (i ∷ ids) gateways s h = elim (Bool-cases (has_key i gateways)) [
    | inl e ↦ rw (e, remove_gateways) (lookup-remove_gateways j ids gateways s h)
    | inr e ↦
        rw (e, remove_gateways)
          (lookup-remove_gateways j ids gateways (remove_routing_rules client true i s).0 h
            ∙ lookup-remove_routing_rules client true j i s (apart e (Bool-cases (text_eq i j))))
  ]
    where
      apart :
          has_key i gateways ≡ false
          → (text_eq i j ≡ true) ⊎ (text_eq i j ≡ false)
          → text_eq i j ≡ false
      apart e (inr n) = n
      apart e (inl q) = cc (e, h, ap (λ t. has_key t gateways) ((text_eq_iff i j).0 q))

  pub has_key-remove_gateways :
      (j : Text) (ids : List Text) (gateways : List (Text × EgressInfo)) (s : EgressTable × K)
      → has_key j (remove_gateways client env ids gateways s).0
        ≡ (if mem j ids then has_key j gateways && has_key j s.0 else has_key j s.0)
  unfolding remove_gateways mem
  has_key-remove_gateways j [] gateways s = refl
  has_key-remove_gateways j (i ∷ ids) gateways s = elim (Bool-cases (has_key i gateways)) [
    | inl e ↦
        rw (e, remove_gateways)
          (ground
            (arith, has_key-remove_gateways j ids gateways s, e, kept (Bool-cases (text_eq i j))))
    | inr e ↦
        rw (e, remove_gateways)
          (ground (
            arith,
            has_key-remove_gateways j ids gateways (remove_routing_rules client true i s).0,
            has_key-remove_routing_rules client true j i s,
            e,
            kept (Bool-cases (text_eq i j)),
          ))
  ]
    where
      kept :
          (text_eq i j ≡ true) ⊎ (text_eq i j ≡ false)
          → (text_eq i j ≡ false) ⊎ (has_key j gateways ≡ has_key i gateways)
      kept (inl e) = inr (ap (λ x. has_key x gateways) (sym ((text_eq_iff i j).0 e)))
      kept (inr e) = inl e
