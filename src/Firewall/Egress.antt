-- ===== src/Firewall/Egress.antt =====
-- firewall/egress.go and the operations of firewall/iptables_linux.go on the policies of egress
-- gateways; those on the ranges of a gateway are in Firewall/Routing.
pub mod Ranges
pub mod Tables
pub mod Frames
use netclient.Prelude.{
  List, [], ◌∷◌, Option, ◌&&◌, ◌++◌, map, ◌==◌, Bool, not, ◌||◌, if◌then◌else◌, is_empty, none,
  some, length,
}
use netclient.Text.{Text, codes, text_eq, contains, split}
use netclient.Assoc.{lookup, insert, remove, has_key, keys}
use netclient.Firewall.Types.{
  Net, AclRule, EgressRange, EgressExtra, policies, ranges, RuleInfo, RulesCfg, Iptables,
  acl_fwd_rules_chain, zero_acl_rule,
}
use netclient.Firewall.Specs.{
  net_string, join, present, append_netmaker_comment_to_rule, destination_args, any_protocol_args,
  protocol_args, rule_specs,
}
use netclient.Firewall.Manager.{EgressTable, insert_both, delete_all}
use netclient.Firewall.Acl.{same_nets, same_texts}

-- The parts of models.EgressInfo and of its models.EgressGatewayRequest that the rules need.
pub record EgressInfo : Type 0 where
  pub egress_id : Text
  pub network : Text
  pub network6 : Text
  pub ranges_with_metric : List EgressRange
  pub egress_fw_rules : List (Text × AclRule)

abbrev pub EgressCfg : Type 0
EgressCfg = RulesCfg EgressExtra

-- The assertion that `extraInfo` holds policies, which panics where it does not.
unfoldable pub policies_of : EgressCfg → Option (List (Text × AclRule))
policies_of c = elim c.extra_info [
  | none ↦ none
  | some e ↦ elim e [ policies l ↦ some l | ranges l ↦ none ]
]

-- The arguments of a rule up to the ports.
unfoldable pub egress_args : (Text → List Text) → AclRule → List Text → List Text → List Text
egress_args protocol a sources destinations =
    codes "-s" ∷ join sources ∷ protocol a.allowed_protocol ++ destination_args destinations

-- The rules that AddAclEgressRules makes of a policy for one family.
unfoldable pub added_egress_specs : AclRule → List Net → List Net → List (List Text)
added_egress_specs a sources destinations =
    if is_empty sources
    then []
    else rule_specs append_netmaker_comment_to_rule
        (egress_args protocol_args a (present sources) (present destinations)) a.allowed_ports

-- Those that UpsertAclEgressRule makes for IPv4.
unfoldable pub updated_egress_specs : AclRule → List Net → List Net → List (List Text)
updated_egress_specs a sources destinations =
    if is_empty sources
    then []
    else rule_specs append_netmaker_comment_to_rule
        (egress_args any_protocol_args a (present sources) (present destinations)) a.allowed_ports

-- Those that UpsertAclEgressRule makes for IPv6: not signed, and with the nil sources.
unfoldable pub updated_egress_specs6 : AclRule → List Net → List Net → List (List Text)
updated_egress_specs6 a sources destinations =
    if is_empty sources
    then []
    else rule_specs (λ spec. spec)
        (egress_args any_protocol_args a (map net_string sources) (present destinations))
        a.allowed_ports

-- fmt.Sprintf("acl#%s", id)
unfoldable pub egress_acl_id : Text → Text
egress_acl_id i = codes "acl#" ++ i

-- Whether processEgressFwRules finds an update of a policy; of Dst6 it reads the length alone.
unfoldable pub egress_rule_changed : AclRule → AclRule → Bool
egress_rule_changed old new =
    not (length old.ip_list == length new.ip_list)
    || not (same_nets old.ip_list new.ip_list)
    || not (length old.ip6_list == length new.ip6_list)
    || not (same_nets old.ip6_list new.ip6_list)
    || not (length old.allowed_ports == length new.allowed_ports)
    || not (same_texts old.allowed_ports new.allowed_ports)
    || not (text_eq new.allowed_protocol old.allowed_protocol)
    || not (old.direction == new.direction)
    || not (same_nets old.dst new.dst)
    || not (length old.dst6 == length new.dst6)

abbrev pub egress_rules_of : Text → EgressCfg → List RuleInfo
egress_rules_of i c = elim (lookup i c.rules_map) [ none ↦ [] | some rules ↦ rules ]

unfoldable pub all_rules : List (Text × List RuleInfo) → List RuleInfo
all_rules [] = []
all_rules ((i, rules) ∷ m) = rules ++ all_rules m

abbrev pub rule_ids : Option EgressCfg → List Text
rule_ids none = []
rule_ids (some c) = keys c.rules_map

-- strings.Split(egressID, "#")[1] for an ID with the prefix.
abbrev pub second : List Text → Text
second (a ∷ b ∷ l) = b
second _ = []

-- Whether the last loop deletes an entry.
abbrev pub is_stale : List (Text × EgressInfo) → Text → Bool
is_stale gateways i = contains i (codes "acl#") && not (has_key (second (split b'#' i)) gateways)

module _ {K : Type 0} (client : Iptables K) where
  -- The loop of AddAclEgressRules: the rules of each policy, and the policies that have some.
  unfoldable pub add_egress_each :
      List (Text × AclRule)
      → List (Text × List RuleInfo)
      → List (Text × AclRule)
      → K
      → List (Text × List RuleInfo) × List (Text × AclRule) × K
  add_egress_each [] m kept k = (m, kept, k)
  add_egress_each ((i, a) ∷ rules) m kept k =
      let (inserted, k') =
        insert_both client acl_fwd_rules_chain (added_egress_specs a a.ip_list a.dst)
          (added_egress_specs a a.ip6_list a.dst6) k in
      if is_empty inserted
      then add_egress_each rules m (remove a.id kept) k'
      else add_egress_each rules (insert a.id inserted m) kept k'

  -- AddAclEgressRules, on the server's table.
  unfoldable pub add_acl_egress_rules : EgressInfo → EgressTable × K → EgressTable × K
  add_acl_egress_rules info (t, k) =
      let (m, kept, k') = add_egress_each info.egress_fw_rules [] info.egress_fw_rules k in
      (
        insert (egress_acl_id info.egress_id)
            (record { rules_map = m; extra_info = some (policies kept) }) t,
        k',
      )

  -- UpsertAclEgressRule, on an entry of the table, which its callers have found, and whose
  -- policies AddAclEgressRules has set.
  unfoldable pub upsert_acl_egress_rule :
      Text → EgressCfg → List (Text × AclRule) → AclRule → EgressTable × K → EgressTable × K
  upsert_acl_egress_rule egress_id c extra a (t, k) =
      let (rules, k') =
        insert_both client acl_fwd_rules_chain (updated_egress_specs a a.ip_list a.dst)
          (updated_egress_specs6 a a.ip6_list a.dst6) k in
      if is_empty rules then (t, k') else (
        insert egress_id
            (record {
              rules_map = insert a.id rules c.rules_map;
              extra_info = some (policies (insert a.id a extra));
            })
            t,
        k',
      )

  -- DeleteAllAclEgressRules, on the server's table.
  unfoldable pub delete_all_acl_egress_rules : Text → EgressTable × K → EgressTable × K
  delete_all_acl_egress_rules egress_id (t, k) = elim (lookup egress_id t) [
    | none ↦ (t, k)
    | some c ↦ (remove egress_id t, delete_all client (all_rules c.rules_map) k)
  ]

  -- DeleteAclEgressRule, on the server's table; the policy stays in `extraInfo`.
  unfoldable pub delete_acl_egress_rule : Text → Text → EgressTable × K → EgressTable × K
  delete_acl_egress_rule egress_id acl_id (t, k) = elim (lookup egress_id t) [
    | none ↦ (t, k)
    | some c ↦ (
      insert egress_id (record { rules_map = remove acl_id c.rules_map; extra_info = c.extra_info })
          t,
      delete_all client (egress_rules_of acl_id c) k,
    )
  ]

  -- The steps of processEgressFwRules for one policy of a gateway. An entry without policies, where
  -- UpsertAclEgressRule would panic, is left alone: AddAclEgressRules sets them always.
  unfoldable pub process_egress_rule : Text → AclRule → EgressTable × K → EgressTable × K
  process_egress_rule egress_id a (t, k) = elim (lookup egress_id t) [
    | none ↦ (t, k)
    | some c ↦ elim (policies_of c) [
      | none ↦ (t, k)
      | some extra ↦
          let old : AclRule = elim (lookup a.id extra) [ none ↦ zero_acl_rule | some o ↦ o ] in
          if not (has_key a.id c.rules_map)
          then upsert_acl_egress_rule egress_id c extra a (t, k)
          else if egress_rule_changed old a
          then (let s = delete_acl_egress_rule egress_id a.id (t, k) in
              elim (lookup egress_id s.0) [
                | none ↦ s
                | some c' ↦ upsert_acl_egress_rule egress_id c' extra a s
              ])
          else (t, k)
    ]
  ]

  unfoldable pub process_egress_each :
      Text → List (Text × AclRule) → EgressTable × K → EgressTable × K
  process_egress_each egress_id [] s = s
  process_egress_each egress_id ((i, a) ∷ rules) s =
      process_egress_each egress_id rules (process_egress_rule egress_id a s)

  -- The loop over the policies of the entry that are not in the update.
  unfoldable pub delete_stale_rules :
      Text → List Text → List (Text × AclRule) → EgressTable × K → EgressTable × K
  delete_stale_rules egress_id [] rules s = s
  delete_stale_rules egress_id (i ∷ ids) rules s =
      let s' = if has_key i rules then s else delete_acl_egress_rule egress_id i s in
      delete_stale_rules egress_id ids rules s'

  -- The first loop of processEgressFwRules, for one gateway.
  unfoldable pub process_egress_gateway : EgressInfo → EgressTable × K → EgressTable × K
  process_egress_gateway info s =
      let i = egress_acl_id info.egress_id in
      let s' = process_egress_each i info.egress_fw_rules s in
      if has_key i s.0
      then delete_stale_rules i (rule_ids (lookup i s'.0)) info.egress_fw_rules s'
      else add_acl_egress_rules info s

  unfoldable pub process_gateways : List (Text × EgressInfo) → EgressTable × K → EgressTable × K
  process_gateways [] s = s
  process_gateways ((i, info) ∷ gateways) s =
      process_gateways gateways (process_egress_gateway info s)

  -- The last loop: the entries of gateways that are not in the update.
  unfoldable pub delete_stale_gateways :
      List Text → List (Text × EgressInfo) → EgressTable × K → EgressTable × K
  delete_stale_gateways [] gateways s = s
  delete_stale_gateways (i ∷ ids) gateways s =
      let s' = if is_stale gateways i then delete_all_acl_egress_rules i s else s in
      delete_stale_gateways ids gateways s'

  -- processEgressFwRules, on the server's table, for gateways with distinct IDs.
  unfoldable pub process_egress_fw_rules :
      List (Text × EgressInfo) → EgressTable × K → EgressTable × K
  process_egress_fw_rules gateways s =
      let s' = process_gateways gateways s in delete_stale_gateways (keys s'.0) gateways s'
