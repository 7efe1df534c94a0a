-- ===== src/Firewall/Ingress/Inserted.antt =====
-- firewall/ingress.go: what an insert does to the entry of an ingress gateway.
use netclient.Prelude.{
  ◌≡◌, refl, sym, ap, ◌∙◌, List, [], ◌∷◌, ◌++◌, Bool, true, false, some, none, arith, inl, inr,
  Option-cases, length, ==_refl,
}
use netclient.Text.{Text, codes, text_eq, text_eq_refl}
use netclient.Assoc.{lookup, insert}
use netclient.Firewall.Types.{
  Net, RuleInfo, RulesCfg, acl_input_rules_chain, default_ip_table, target_drop,
}
use netclient.Firewall.Specs.{append_netmaker_comment_to_rule}
use netclient.Firewall.Chains.{rule_of, jump}
use netclient.Firewall.Egress.Frames.{lookup-insert_other, lookup-insert_self}
use netclient.Firewall.Kernel.{ChainClient, for_family}
use netclient.Firewall.Acl.{same_net, same_texts}
use netclient.Firewall.Acl.Changed.{same_texts_iff}
use netclient.Firewall.Ingress.{
  Ip, FwRule, IngressInfo, IngressTable, same_ip, same_ips, same_fw_rule, same_fw_rules,
  static_node_rules, entry_rules, drop_position, insert_drop, insert_static_node, insert_fw_rules,
  insert_static_nodes, insert_ingress_routing_rules, ingress_changed,
}

-- The entry of a gateway has the information of the update, as far as the test for an update goes.
abbrev pub IsCurrent : IngressTable → Text → IngressInfo → Type 0
IsCurrent t i info =
    (c : RulesCfg IngressInfo) × (old : IngressInfo) × (lookup i t ≡ some c)
    × (c.extra_info ≡ some old)
    × (ingress_changed old info ≡ false)

-- An entry under the key, if there is one, has information, as InsertIngressRoutingRules sets it.
abbrev pub HasInfo : IngressTable → Text → Type 0
HasInfo t i =
    (c : RulesCfg IngressInfo)
    → lookup i t ≡ some c
    → (old : IngressInfo) × (c.extra_info ≡ some old)

-- The entry of a gateway is that of the update, as far as the test for an update goes, and the
-- entries of other keys are as before.
abbrev pub Sets : Text → IngressInfo → IngressTable → IngressTable → Type 0
Sets i info t t' =
    IsCurrent t' i info × ((j : Text) → text_eq i j ≡ false → lookup j t' ≡ lookup j t)

same_ip_refl : (a : Ip) → same_ip a a ≡ true
unfolding same_ip
same_ip_refl a = ground (arith, text_eq_refl a.text)

same_ips_refl : (l : List Ip) → same_ips l l ≡ true
unfolding same_ips
same_ips_refl [] = refl
same_ips_refl (a ∷ l) = ground (arith, same_ip_refl a, same_ips_refl l)

same_net_refl : (a : Net) → same_net a a ≡ true
unfolding same_net
same_net_refl none = refl
same_net_refl (some a) = text_eq_refl a

same_texts_refl : (l : List Text) → same_texts l l ≡ true
same_texts_refl l = (same_texts_iff l l).1 refl

same_fw_rule_refl : (a : FwRule) → same_fw_rule a a ≡ true
unfolding same_fw_rule
same_fw_rule_refl a = ground (
  arith,
  same_ip_refl a.src_ip,
  same_net_refl a.dst_ip,
  text_eq_refl a.allowed_protocol,
  same_texts_refl a.allowed_ports,
)

same_fw_rules_refl : (l : List FwRule) → same_fw_rules l l ≡ true
unfolding same_fw_rules
same_fw_rules_refl [] = refl
same_fw_rules_refl (a ∷ l) = ground (arith, same_fw_rule_refl a, same_fw_rules_refl l)

ingress_changed_refl : (info : IngressInfo) → ingress_changed info info ≡ false
unfolding ingress_changed
ingress_changed_refl info = ground (
  arith,
  ==_refl (length info.static_node_ips),
  same_ips_refl info.static_node_ips,
  ==_refl (length info.rules),
  same_fw_rules_refl info.rules,
)

module _ {K : Type 0} (client : ChainClient K)
    (list_law : (v4 : Bool) (table chain : Text) (k : K)
      → (lines : List Text) × (client.list v4 table chain k ≡ some lines)) where
  insert_drop-Returns :
      (v4 : Bool) (spec : List Text) (s : List RuleInfo × K)
      → (r : List RuleInfo × K) × (insert_drop client v4 spec s ≡ some r)
  unfolding insert_drop
  insert_drop-Returns v4 spec (recorded, k) =
      let r =
        rule_of default_ip_table acl_input_rules_chain (append_netmaker_comment_to_rule spec) in
      let (lines, e) = list_law v4 default_ip_table acl_input_rules_chain k in
      elim (Option-cases (client.insert_unique (drop_position lines) (for_family v4 r) k)) [
        | inl e' ↦ ((recorded, k), rw (e, insert_drop) (rw e' refl))
        | inr (k', e') ↦ ((recorded ++ r ∷ [], k'), rw (e, insert_drop) (rw e' refl))
      ]

  insert_static_node-Returns :
      (ip : Ip) (s : List RuleInfo × K)
      → (r : List RuleInfo × K) × (insert_static_node client ip s ≡ some r)
  unfolding insert_static_node
  insert_static_node-Returns ip s =
      let (s', e) = insert_drop-Returns ip.is_v4 (codes "-s" ∷ ip.text ∷ jump target_drop) s in
      let (r, e') = insert_drop-Returns ip.is_v4 (codes "-d" ∷ ip.text ∷ jump target_drop) s' in
      (r, rw (e, insert_static_node) e')

  insert_static_nodes-Returns :
      (ips : List Ip) (s : List RuleInfo × K)
      → (r : List RuleInfo × K) × (insert_static_nodes client ips s ≡ some r)
  unfolding insert_static_nodes
  insert_static_nodes-Returns [] s = (s, refl)
  insert_static_nodes-Returns (ip ∷ ips) s =
      let (s', e) = insert_static_node-Returns ip s in
      let (r, e') = insert_static_nodes-Returns ips s' in (r, rw (e, insert_static_nodes) e')

  -- What an insert does to the table.
  inserted :
      (info : IngressInfo) (s : IngressTable × K)
      → (r : IngressTable × K) × (c : RulesCfg IngressInfo) × (insert_ingress_routing_rules client
            info s
          ≡ some r)
        × (r.0 ≡ insert info.ingress_id c s.0)
        × (c.extra_info ≡ some info)
  unfolding insert_ingress_routing_rules
  inserted info (t, k) =
      let (s', e) = insert_static_nodes-Returns info.static_node_ips ([], k) in
      let (recorded, k') = insert_fw_rules client info.rules s' in
      let c : RulesCfg IngressInfo = record {
        rules_map = insert static_node_rules recorded (entry_rules client info.ingress_id t);
        extra_info = some info;
      } in
      ((insert info.ingress_id c t, k'), c, rw (e, insert_ingress_routing_rules) refl, refl, refl)

  pub inserted-Sets :
      (i : Text) (info : IngressInfo) (s : IngressTable × K)
      → i ≡ info.ingress_id
      → (r : IngressTable × K) × (insert_ingress_routing_rules client info s ≡ some r)
        × Sets i info s.0 r.0
  inserted-Sets i info s q =
      let (r, c, e, e', e2) = inserted info s in
      (
        r,
        e,
        (
          (
            c,
            info,
            ap (lookup i) e'
                ∙ ap (λ n. lookup i (insert n c s.0)) (sym q)
                ∙ lookup-insert_self i c s.0,
            e2,
            ingress_changed_refl info,
          ),
          λ j h.
              ap (lookup j) e'
              ∙ ap (λ n. lookup j (insert n c s.0)) (sym q)
              ∙ lookup-insert_other i j c s.0 h,
        ),
      )
