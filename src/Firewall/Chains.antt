-- ===== src/Firewall/Chains.antt =====
-- firewall/iptables_linux.go: the chains of netmaker, the jumps to them, and their removal; and Init
-- of firewall/firewall.go. The interface of netmaker and the port for metrics of the server are
-- arguments.
pub mod Flush
pub mod Created
pub mod Unsigned
use netclient.Prelude.{List, [], ◌∷◌, ◌++◌, Bool, true, false, Option, none, some, if◌then◌else◌}
use netclient.Text.{Text, codes, text_eq, contains, split}
use netclient.Sets.{mem}
use netclient.Firewall.Types.{
  RuleInfo, default_ip_table, acl_input_rules_chain, acl_fwd_rules_chain, target_accept,
  target_drop,
}
use netclient.Firewall.Specs.{netmaker_comment}
use netclient.Firewall.Kernel.{ChainClient, for_family, or_same}

abbrev pub netmaker_filter_chain : Text
netmaker_filter_chain = codes "netmakerfilter"

abbrev pub default_nat_table : Text
default_nat_table = codes "nat"

abbrev pub netmaker_nat_chain : Text
netmaker_nat_chain = codes "netmakernat"

abbrev pub iptable_fwd_chain : Text
iptable_fwd_chain = codes "FORWARD"

abbrev pub iptable_in_chain : Text
iptable_in_chain = codes "INPUT"

abbrev pub nattable_prt_chain : Text
nattable_prt_chain = codes "POSTROUTING"

abbrev pub acl_output_rules_chain : Text
acl_output_rules_chain = codes "NETMAKER-ACL-OUT"

-- A rule without a family, as the lists of rules of the program have it.
abbrev pub rule_of : Text → Text → List Text → RuleInfo
rule_of table chain spec = record { rule = spec; is_ipv4 = false; table = table; chain = chain }

abbrev pub established : List Text
established = codes "-m" ∷ codes "conntrack" ∷ codes "--ctstate" ∷ codes "ESTABLISHED,RELATED" ∷ []

abbrev pub jump : Text → List Text
jump target = codes "-j" ∷ target ∷ []

module _ (interface_ : Text) where
  abbrev pub into : List Text
  into = codes "-i" ∷ interface_ ∷ []

  abbrev pub out_of : List Text
  out_of = codes "-o" ∷ interface_ ∷ []

  abbrev pub drop_rules : List RuleInfo
  drop_rules =
      rule_of default_ip_table netmaker_filter_chain
        (into ++ netmaker_comment ++ jump (codes "RETURN"))
      ∷ rule_of default_ip_table acl_input_rules_chain
          (into ++ netmaker_comment ++ jump target_drop)
      ∷ rule_of default_ip_table acl_fwd_rules_chain (into ++ netmaker_comment ++ jump target_drop)
      ∷ rule_of default_ip_table acl_fwd_rules_chain
          (out_of ++ netmaker_comment ++ jump target_drop)
      ∷ []

  abbrev pub filter_nm_jump_rules : List RuleInfo
  filter_nm_jump_rules =
      rule_of default_ip_table iptable_in_chain
        (into ++ established ++ netmaker_comment ++ jump target_accept)
      ∷ rule_of default_ip_table iptable_in_chain
          (into ++ jump acl_input_rules_chain ++ netmaker_comment)
      ∷ rule_of default_ip_table iptable_fwd_chain
          (into ++ codes "!" ∷ out_of ++ jump acl_fwd_rules_chain ++ netmaker_comment)
      ∷ rule_of default_ip_table iptable_fwd_chain
          (into ++ out_of ++ jump acl_input_rules_chain ++ netmaker_comment)
      ∷ rule_of default_ip_table iptable_fwd_chain
          (into ++ established ++ netmaker_comment ++ jump target_accept)
      ∷ rule_of default_ip_table iptable_fwd_chain
          (out_of ++ established ++ netmaker_comment ++ jump target_accept)
      ∷ rule_of default_ip_table acl_output_rules_chain (netmaker_comment ++ jump target_accept)
      ∷ []

  abbrev pub nat_nm_jump_rules : List RuleInfo
  nat_nm_jump_rules =
      rule_of default_nat_table nattable_prt_chain
        (out_of ++ jump netmaker_nat_chain ++ netmaker_comment)
      ∷ rule_of default_nat_table netmaker_nat_chain (jump (codes "RETURN"))
      ∷ []

  -- The rules that open the ports for metrics and for DNS.
  abbrev pub metrics_rules : Text → List RuleInfo
  metrics_rules port =
      rule_of default_ip_table acl_input_rules_chain (
        into
        ++ codes "-p" ∷ codes "tcp" ∷ codes "--dport" ∷ port ∷ netmaker_comment
        ++ jump target_accept)
      ∷ rule_of default_ip_table acl_input_rules_chain (
          into
          ++ codes "-p" ∷ codes "udp" ∷ codes "--dport" ∷ codes "53" ∷ netmaker_comment
          ++ jump target_accept)
      ∷ []

-- The chains that CreateChains makes, for each family in this order.
abbrev pub netmaker_chains : List (Text × Text)
netmaker_chains =
    (default_ip_table, netmaker_filter_chain)
    ∷ (default_nat_table, netmaker_nat_chain)
    ∷ (default_ip_table, acl_input_rules_chain)
    ∷ (default_ip_table, acl_fwd_rules_chain)
    ∷ (default_ip_table, acl_output_rules_chain)
    ∷ []

-- containsComment, for the comment of netmaker.
unfoldable pub contains_comment : Text → Bool
contains_comment rule = contains rule (codes "--comment NETMAKER")

-- strings.Fields, on a listed rule, whose words stand apart by spaces
unfoldable pub non_empty : List Text → List Text
non_empty [] = []
non_empty ([] ∷ l) = non_empty l
non_empty ((c ∷ s) ∷ l) = (c ∷ s) ∷ non_empty l

unfoldable pub fields : Text → List Text
fields rule = non_empty (split b' ' rule)

module _ {K : Type 0} (client : ChainClient K) where
  -- createChain: the rules of the kernel, and whether it returned an error.
  unfoldable pub create_chain : Bool → Text → Text → K → K × Bool
  create_chain v4 table new_chain k = elim (client.list_chains v4 table k) [
    | none ↦ (k, true)
    | some chains ↦
        if mem new_chain chains then (k, false) else elim (client.new_chain v4 table new_chain k) [
          | none ↦ (k, true)
          | some k' ↦ (k', false)
        ]
  ]

  unfoldable pub create_each : Bool → List (Text × Text) → K → K × Bool
  create_each v4 [] k = (k, false)
  create_each v4 ((table, chain) ∷ chains) k =
      let (k', failed) = create_chain v4 table chain k in
      if failed then (k', true) else create_each v4 chains k'

  -- Append for both families.
  unfoldable pub append_for_both : RuleInfo → K → K
  append_for_both r k =
      let k' = or_same (client.append (for_family true r) k) k in
      or_same (client.append (for_family false r) k') k'

  unfoldable pub add_jump_rule : RuleInfo → K → K
  add_jump_rule r k =
      if text_eq r.chain iptable_fwd_chain
      then (let k' = or_same (client.insert_unique 1 (for_family true r) k) k in
          or_same (client.insert_unique 1 (for_family false r) k') k')
      else append_for_both r k

  unfoldable pub add_jump_each : List RuleInfo → K → K
  add_jump_each [] k = k
  add_jump_each (r ∷ rules) k = add_jump_each rules (add_jump_rule r k)

  unfoldable pub append_each : List RuleInfo → K → K
  append_each [] k = k
  append_each (r ∷ rules) k = append_each rules (append_for_both r k)

  unfoldable pub insert_each : List RuleInfo → K → K
  insert_each [] k = k
  insert_each (r ∷ rules) k =
      let k' = or_same (client.rules.insert_rule (for_family true r) k) k in
      insert_each rules (or_same (client.rules.insert_rule (for_family false r) k') k')

  -- AddDropRules, for a rule and a family.
  unfoldable pub add_drop_rule : Bool → RuleInfo → K → K
  add_drop_rule v4 r k = elim (client.exists (for_family v4 r) k) [
    | none ↦ k
    | some found ↦ if found then k else or_same (client.append (for_family v4 r) k) k
  ]

  -- AddDropRules
  unfoldable pub add_drop_rules : List RuleInfo → K → K
  add_drop_rules [] k = k
  add_drop_rules (r ∷ rules) k =
      add_drop_rules rules (add_drop_rule false r (add_drop_rule true r k))

  -- addJumpRules; without a server there is no port for metrics.
  unfoldable pub add_jump_rules : Text → Option Text → K → K
  add_jump_rules interface_ metrics_port k =
      let k1 = add_jump_each (filter_nm_jump_rules interface_) k in
      let k2 = append_each (nat_nm_jump_rules interface_) k1 in
      let k3 : K = elim metrics_port [
        | none ↦ k2
        | some port ↦ insert_each (metrics_rules interface_ port) k2
      ] in
      add_drop_rules (drop_rules interface_) k3

  -- CreateChains: the rules of the kernel, and whether it returned an error.
  unfoldable pub create_chains : Text → Option Text → K → K × Bool
  create_chains interface_ metrics_port k =
      let (k4, failed4) = create_each true netmaker_chains k in
      let (k6, failed6) = create_each false netmaker_chains k4 in
      if failed4
      then (k4, true)
      else if failed6
      then (k6, true)
      else (add_jump_rules interface_ metrics_port k6, false)

  -- ForwardRule
  unfoldable pub forward_rule : K → K
  forward_rule k =
      client.change_policy false default_ip_table iptable_fwd_chain target_accept
        (client.change_policy true default_ip_table iptable_fwd_chain target_accept k)
