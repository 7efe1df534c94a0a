-- ===== src/Firewall/Acl.antt =====
-- firewall/acl.go and the operations of firewall/iptables_linux.go on the policies of the host.
pub mod Tables
pub mod Counted
pub mod Surplus
pub mod Process
pub mod Fresh
pub mod Current
pub mod Updated
pub mod Changed
use netclient.Prelude.{
  List, [], ◌∷◌, ◌++◌, map, ◌==◌, Bool, true, false, not, ◌&&◌, ◌||◌, if◌then◌else◌, is_empty, none,
  some, length,
}
use netclient.Text.{Text, codes, text_eq}
use netclient.Assoc.{lookup, insert, remove, has_key, keys}
use netclient.Firewall.Types.{
  Net, AclRule, zero_acl_rule, RuleInfo, RulesCfg, Iptables, default_ip_table,
  acl_input_rules_chain, acl_fwd_rules_chain, target_accept, target_drop,
}
use netclient.Firewall.Specs.{
  net_string, join, netmaker_comment, append_netmaker_comment_to_rule, destination_args,
  any_protocol_args, protocol_args, rule_specs,
}
use netclient.Firewall.Manager.{
  AclTable, Manager, fetch_rule_table, save_rules, insert_both, delete_all,
}

-- The arguments of a rule up to the ports.
unfoldable pub acl_args : (Text → List Text) → AclRule → List Net → List Net → List Text
acl_args protocol a sources destinations =
    codes "-s" ∷ join (map net_string sources) ∷ destination_args (map net_string destinations)
    ++ protocol a.allowed_protocol

-- The rules that AddAclRules makes of a policy for one family.
unfoldable pub added_specs : AclRule → List Net → List Net → List (List Text)
added_specs a sources destinations =
    if is_empty sources
    then []
    else rule_specs append_netmaker_comment_to_rule (acl_args protocol_args a sources destinations)
        a.allowed_ports

-- Those that UpsertAclRule makes for IPv4.
unfoldable pub updated_specs : AclRule → List Net → List Net → List (List Text)
updated_specs a sources destinations =
    if is_empty sources
    then []
    else rule_specs append_netmaker_comment_to_rule
        (acl_args any_protocol_args a sources destinations) a.allowed_ports

-- Those that UpsertAclRule makes for IPv6: they are not signed.
unfoldable pub updated_specs6 : AclRule → List Net → List Net → List (List Text)
updated_specs6 a sources destinations =
    if is_empty sources
    then []
    else rule_specs (λ spec. spec) (acl_args any_protocol_args a sources destinations)
        a.allowed_ports

abbrev pub no_rules : RulesCfg AclRule
no_rules = record { rules_map = []; extra_info = none }

-- The entry of a policy whose rules are recorded.
unfoldable pub recorded : AclRule → List RuleInfo → AclTable → AclTable
recorded a rules t =
    if is_empty rules
    then t
    else insert a.id (record { rules_map = (a.id, rules) ∷ []; extra_info = some a }) t

-- DeepEqual on networks and on texts; a nil slice and an empty one are the same list.
unfoldable pub same_net : Net → Net → Bool
same_net none none = true
same_net (some a) (some b) = text_eq a b
same_net _ _ = false

unfoldable pub same_nets : List Net → List Net → Bool
same_nets [] [] = true
same_nets (a ∷ l) (b ∷ m) = same_net a b && same_nets l m
same_nets _ _ = false

unfoldable pub same_texts : List Text → List Text → Bool
same_texts [] [] = true
same_texts (a ∷ l) (b ∷ m) = text_eq a b && same_texts l m
same_texts _ _ = false

-- Whether ProcessAclRules finds an update of a policy.
unfoldable pub acl_rule_changed : AclRule → AclRule → Bool
acl_rule_changed old new =
    not (length old.ip_list == length new.ip_list)
    || not (same_nets old.ip_list new.ip_list)
    || not (length old.ip6_list == length new.ip6_list)
    || not (same_nets old.ip6_list new.ip6_list)
    || not (length old.dst == length new.dst)
    || not (same_nets old.dst new.dst)
    || not (length old.dst6 == length new.dst6)
    || not (same_nets old.dst6 new.dst6)
    || not (length old.allowed_ports == length new.allowed_ports)
    || not (same_texts old.allowed_ports new.allowed_ports)
    || not (text_eq new.allowed_protocol old.allowed_protocol)
    || not (old.direction == new.direction)

abbrev pub rules_of : Text → RulesCfg AclRule → List RuleInfo
rules_of i c = elim (lookup i c.rules_map) [ none ↦ [] | some rules ↦ rules ]

abbrev pub tail_rule : Text → Text → Text → Text → RuleInfo × RuleInfo
tail_rule chain flag interface_ target =
    let spec = flag ∷ interface_ ∷ netmaker_comment ++ codes "-j" ∷ target ∷ [] in
    (
      record { rule = spec; is_ipv4 = true; table = default_ip_table; chain = chain },
      record { rule = spec; is_ipv4 = false; table = default_ip_table; chain = chain },
    )

abbrev pub other_target : Text → Text
other_target target = if text_eq target target_accept then target_drop else target_accept

module _ {K : Type 0} (client : Iptables K) where
  -- The body of the loop of AddAclRules.
  unfoldable pub add_acl_rule : AclRule → AclTable × K → AclTable × K
  add_acl_rule a (t, k) =
      let t' = if has_key a.id t then t else insert a.id no_rules t in
      let (rules, k') =
        insert_both client acl_input_rules_chain (added_specs a a.ip_list a.dst)
          (added_specs a a.ip6_list a.dst6) k in
      (recorded a rules t', k')

  unfoldable pub add_each : List (Text × AclRule) → AclTable × K → AclTable × K
  add_each [] s = s
  add_each ((i, a) ∷ rules) s = add_each rules (add_acl_rule a s)

  -- UpsertAclRule, on the server's table.
  unfoldable pub upsert_acl_rule : AclRule → AclTable × K → AclTable × K
  upsert_acl_rule a (t, k) =
      let (rules, k') =
        insert_both client acl_input_rules_chain (updated_specs a a.ip_list a.dst)
          (updated_specs6 a a.ip6_list a.dst6) k in
      (recorded a rules (insert a.id no_rules t), k')

  -- DeleteAclRule, on the server's table.
  unfoldable pub delete_acl_rule : Text → AclTable × K → AclTable × K
  delete_acl_rule i (t, k) = elim (lookup i t) [
    | none ↦ (t, k)
    | some c ↦ (remove i t, delete_all client (rules_of i c) k)
  ]

  -- The loop of ProcessAclRules over the policies.
  unfoldable pub process_acl_rule : AclRule → AclTable × K → AclTable × K
  process_acl_rule a (t, k) = elim (lookup a.id t) [
    | none ↦ upsert_acl_rule a (t, k)
    | some c ↦
        let old : AclRule = elim c.extra_info [ none ↦ zero_acl_rule | some o ↦ o ] in
        if acl_rule_changed old a then upsert_acl_rule a (delete_acl_rule a.id (t, k)) else (t, k)
  ]

  unfoldable pub process_each : List (Text × AclRule) → AclTable × K → AclTable × K
  process_each [] s = s
  process_each ((i, a) ∷ rules) s = process_each rules (process_acl_rule a s)

  -- The loop of ProcessAclRules over the table.
  unfoldable pub delete_stale : List Text → List (Text × AclRule) → AclTable × K → AclTable × K
  delete_stale [] rules s = s
  delete_stale (i ∷ ids) rules s =
      let s' = if has_key i rules then s else delete_acl_rule i s in delete_stale ids rules s'

  -- ProcessAclRules behind the change of targets, on the server's table.
  unfoldable pub update_acl_rules : List (Text × AclRule) → AclTable × K → AclTable × K
  update_acl_rules rules (t, k) =
      if is_empty t && not (is_empty rules)
      then add_each rules (t, k)
      else (let s = process_each rules (t, k) in delete_stale (keys s.0) rules s)

  abbrev pub exists_both : RuleInfo × RuleInfo → K → Bool
  exists_both (r4, r6) k = client.exists_rule r4 k && client.exists_rule r6 k

  abbrev pub delete_both : RuleInfo × RuleInfo → K → K
  delete_both (r4, r6) k = client.delete_if_exists r6 (client.delete_if_exists r4 k)

  abbrev pub append_both : RuleInfo × RuleInfo → K → K
  append_both (r4, r6) k = client.append_rule r6 (client.append_rule r4 k)

  -- ChangeACLInTarget for the targets ACCEPT and DROP.
  unfoldable pub change_acl_in_target : Text → Text → K → K
  change_acl_in_target interface_ target k =
      let tail = tail_rule acl_input_rules_chain (codes "-i") interface_ in
      if exists_both (tail target) k
      then k
      else append_both (tail target) (delete_both (tail (other_target target)) k)

  -- ChangeACLFwdTarget
  unfoldable pub change_acl_fwd_target : Text → Text → K → K
  change_acl_fwd_target interface_ target k =
      let inward = tail_rule acl_fwd_rules_chain (codes "-i") interface_ in
      let outward = tail_rule acl_fwd_rules_chain (codes "-o") interface_ in
      if exists_both (inward target) k && exists_both (outward target) k
      then k
      else append_both (outward target) (
          append_both (inward target) (
            delete_both (outward (other_target target))
              (delete_both (inward (other_target target)) k)))

  -- ProcessAclRules. A table that stays empty is saved here, and left missing by the code, where
  -- FetchRuleTable makes the same empty table of it.
  unfoldable pub process_acl_rules :
      Text → Text → Bool → List (Text × AclRule) → Manager K → Manager K
  process_acl_rules interface_ server allow_all rules m =
      let target = if allow_all then target_accept else target_drop in
      let k =
        change_acl_fwd_target interface_ target (change_acl_in_target interface_ target m.kernel) in
      let (t, k') = update_acl_rules rules (fetch_rule_table server m.acl_rules, k) in
      record m { kernel = k'; acl_rules = save_rules server t m.acl_rules }
