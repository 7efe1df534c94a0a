-- ===== src/Firewall/Ingress.antt =====
-- firewall/ingress.go and InsertIngressRoutingRules of firewall/iptables_linux.go: the rules for the
-- static nodes behind an ingress gateway. An address is its text with its family; where the rules of
-- the kernel cannot be listed the program ends, which is none.
pub mod Inserted
pub mod Entries
use netclient.Prelude.{
  ℕ, ◌-◌, List, [], ◌∷◌, ◌++◌, ◌==◌, Bool, true, false, not, ◌&&◌, ◌||◌, Option, none, some,
  if◌then◌else◌, length, ltb,
}
use netclient.Text.{Text, codes, text_eq}
use netclient.Assoc.{lookup, insert, has_key, keys}
use netclient.Firewall.Types.{
  Net, RuleInfo, RuleTable, acl_input_rules_chain, default_ip_table, target_drop,
}
use netclient.Firewall.Specs.{
  append_netmaker_comment_to_rule, destination_args, protocol_args, rule_specs, present,
}
use netclient.Firewall.Kernel.{ChainClient, for_family, replace_rule}
use netclient.Firewall.Chains.{rule_of, jump}
use netclient.Firewall.Acl.{same_net, same_texts}
use netclient.Firewall.Routing.{remove_routing_rules}

-- net.IP
pub record Ip : Type 0 where
  pub text : Text
  pub is_v4 : Bool

-- models.FwRule; the source is a network with an IP.
pub record FwRule : Type 0 where
  pub src_ip : Ip
  pub dst_ip : Net
  pub allowed_protocol : Text
  pub allowed_ports : List Text
  pub allow : Bool

-- models.IngressInfo, in the parts that the rules need.
pub record IngressInfo : Type 0 where
  pub ingress_id : Text
  pub static_node_ips : List Ip
  pub rules : List FwRule

abbrev pub IngressTable : Type 0
IngressTable = RuleTable IngressInfo

abbrev pub static_node_rules : Text
static_node_rules = codes "static-node"

-- getLastRuleCnt, on the lines that List gives.
unfoldable pub last_rule_cnt : List Text → ℕ
last_rule_cnt lines = if ltb (length lines) 3 then 1 else length lines - 1

-- The position that InsertIngressRoutingRules makes of it.
unfoldable pub drop_position : List Text → ℕ
drop_position lines = if ltb (last_rule_cnt lines) 2 then 1 else last_rule_cnt lines - 1

-- DeepEqual on the addresses and on the rules of a gateway.
unfoldable pub same_ip : Ip → Ip → Bool
same_ip a b = text_eq a.text b.text && (if a.is_v4 then b.is_v4 else not b.is_v4)

unfoldable pub same_ips : List Ip → List Ip → Bool
same_ips [] [] = true
same_ips (a ∷ l) (b ∷ m) = same_ip a b && same_ips l m
same_ips _ _ = false

unfoldable pub same_fw_rule : FwRule → FwRule → Bool
same_fw_rule a b =
    same_ip a.src_ip b.src_ip
    && same_net a.dst_ip b.dst_ip
    && text_eq a.allowed_protocol b.allowed_protocol
    && same_texts a.allowed_ports b.allowed_ports
    && (if a.allow then b.allow else not b.allow)

unfoldable pub same_fw_rules : List FwRule → List FwRule → Bool
same_fw_rules [] [] = true
same_fw_rules (a ∷ l) (b ∷ m) = same_fw_rule a b && same_fw_rules l m
same_fw_rules _ _ = false

-- Whether ProcessIngressUpdate finds an update of a gateway.
unfoldable pub ingress_changed : IngressInfo → IngressInfo → Bool
ingress_changed old new =
    not (length old.static_node_ips == length new.static_node_ips)
    || not (same_ips old.static_node_ips new.static_node_ips)
    || not (length old.rules == length new.rules)
    || not (same_fw_rules old.rules new.rules)

-- The arguments of the rules of an allowed pair.
unfoldable pub fw_rule_specs : FwRule → List (List Text)
fw_rule_specs r =
    rule_specs append_netmaker_comment_to_rule
      (codes "-s" ∷ r.src_ip.text ∷ destination_args (present (r.dst_ip ∷ []))
        ++ protocol_args r.allowed_protocol)
      r.allowed_ports

module _ {K : Type 0} (client : ChainClient K) where
  -- A rule that drops the traffic of a static node, in front of the last one of the chain.
  unfoldable pub insert_drop : Bool → List Text → List RuleInfo × K → Option (List RuleInfo × K)
  insert_drop v4 spec (recorded, k) =
      let r =
        rule_of default_ip_table acl_input_rules_chain (append_netmaker_comment_to_rule spec) in
      elim (client.list v4 default_ip_table acl_input_rules_chain k) [
        | none ↦ none
        | some lines ↦ elim (client.insert_unique (drop_position lines) (for_family v4 r) k) [
          | none ↦ some (recorded, k)
          | some k' ↦ some (recorded ++ r ∷ [], k')
        ]
      ]

  -- The body of the loop over the addresses: from the node, and to the node.
  unfoldable pub insert_static_node : Ip → List RuleInfo × K → Option (List RuleInfo × K)
  insert_static_node ip s =
      elim (insert_drop ip.is_v4 (codes "-s" ∷ ip.text ∷ jump target_drop) s) [
        | none ↦ none
        | some s' ↦ insert_drop ip.is_v4 (codes "-d" ∷ ip.text ∷ jump target_drop) s'
      ]

  unfoldable pub insert_static_nodes : List Ip → List RuleInfo × K → Option (List RuleInfo × K)
  insert_static_nodes [] s = some s
  insert_static_nodes (ip ∷ ips) s = elim (insert_static_node ip s) [
    | none ↦ none
    | some s' ↦ insert_static_nodes ips s'
  ]

  unfoldable pub insert_specs : Bool → List (List Text) → List RuleInfo × K → List RuleInfo × K
  insert_specs v4 [] s = s
  insert_specs v4 (spec ∷ specs) (recorded, k) =
      let (rules, k') =
        replace_rule client v4 (rule_of default_ip_table acl_input_rules_chain spec) k in
      insert_specs v4 specs (recorded ++ rules, k')

  -- The loop over the rules, which leaves out those that do not allow.
  unfoldable pub insert_fw_rules : List FwRule → List RuleInfo × K → List RuleInfo × K
  insert_fw_rules [] s = s
  insert_fw_rules (r ∷ rules) s =
      let s' = if r.allow then insert_specs r.src_ip.is_v4 (fw_rule_specs r) s else s in
      insert_fw_rules rules s'

  -- The rules of the entry of a gateway, which stay besides those for static nodes.
  abbrev pub entry_rules : Text → IngressTable → List (Text × List RuleInfo)
  entry_rules i t = elim (lookup i t) [ none ↦ [] | some c ↦ c.rules_map ]

  -- InsertIngressRoutingRules, on the server's table.
  unfoldable pub insert_ingress_routing_rules :
      IngressInfo → IngressTable × K → Option (IngressTable × K)
  insert_ingress_routing_rules info (t, k) =
      elim (insert_static_nodes info.static_node_ips ([], k)) [
        | none ↦ none
        | some s ↦
            let (recorded, k') = insert_fw_rules info.rules s in
            some (
              insert info.ingress_id
                  (record {
                    rules_map = insert static_node_rules recorded (entry_rules info.ingress_id t);
                    extra_info = some info;
                  })
                  t,
              k',
            )
      ]

  -- The first loop of ProcessIngressUpdate.
  unfoldable pub remove_ingress :
      List Text → List (Text × IngressInfo) → IngressTable × K → IngressTable × K
  remove_ingress [] update s = s
  remove_ingress (i ∷ ids) update s =
      let s' = if has_key i update then s else (remove_routing_rules client false i s).0 in
      remove_ingress ids update s'

  -- The body of its second loop; an entry without information, where it would panic, stays.
  unfoldable pub set_ingress : Text → IngressInfo → IngressTable × K → Option (IngressTable × K)
  set_ingress i info (t, k) = elim (lookup i t) [
    | none ↦ insert_ingress_routing_rules info (t, k)
    | some c ↦ elim c.extra_info [
      | none ↦ some (t, k)
      | some old ↦
          if ingress_changed old info
          then insert_ingress_routing_rules info (remove_routing_rules client false i (t, k)).0
          else some (t, k)
    ]
  ]

  unfoldable pub set_all_ingress :
      List (Text × IngressInfo) → IngressTable × K → Option (IngressTable × K)
  set_all_ingress [] s = some s
  set_all_ingress ((i, info) ∷ update) s = elim (set_ingress i info s) [
    | none ↦ none
    | some s' ↦ set_all_ingress update s'
  ]

  -- ProcessIngressUpdate, on the server's table, once the firewall is initialised.
  unfoldable pub process_ingress_update :
      List (Text × IngressInfo) → IngressTable × K → Option (IngressTable × K)
  process_ingress_update update s = set_all_ingress update (remove_ingress (keys s.0) update s)
