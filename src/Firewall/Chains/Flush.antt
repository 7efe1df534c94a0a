-- ===== src/Firewall/Chains/Flush.antt =====
-- firewall/iptables_linux.go: FlushAll and its parts; and Init of firewall/firewall.go.
use netclient.Prelude.{
  List, [], ◌∷◌, Bool, true, false, Option, none, some, if◌then◌else◌, drop, ltb, length,
}
use netclient.Text.{Text}
use netclient.Firewall.Types.{
  RuleInfo, default_ip_table, acl_input_rules_chain, acl_fwd_rules_chain,
}
use netclient.Firewall.Kernel.{ChainClient, or_same}
use netclient.Firewall.Chains.{
  netmaker_filter_chain, default_nat_table, netmaker_nat_chain, iptable_fwd_chain, iptable_in_chain,
  nattable_prt_chain, acl_output_rules_chain, contains_comment, fields, create_chains, forward_rule,
}

-- The rule that a listed line gives: its words behind `-A` and the chain.
abbrev pub listed_rule : Bool → Text → Text → Text → RuleInfo
listed_rule v4 table chain line = record {
  rule = drop 2 (fields line);
  is_ipv4 = v4;
  table = table;
  chain = chain;
}

-- The same in clearNetmakerRules, where a line of at most two words is taken whole.
unfoldable pub cleared_rule : Bool → Text → Text → Text → RuleInfo
cleared_rule v4 table chain line =
    let words = fields line in
    record {
      rule = if ltb 2 (length words) then drop 2 words else words;
      is_ipv4 = v4;
      table = table;
      chain = chain;
    }

module _ {K : Type 0} (client : ChainClient K) where
  -- Deletes the listed lines that have the comment of netmaker; a failure is logged.
  unfoldable pub delete_listed : (Text → RuleInfo) → List Text → K → K
  delete_listed rule [] k = k
  delete_listed rule (line ∷ lines) k =
      let k' = if contains_comment line then or_same (client.delete (rule line) k) k else k in
      delete_listed rule lines k'

  -- The block of removeJumpRules for one chain and family.
  unfoldable pub remove_jumps_of : Bool → Text → Text → K → K
  remove_jumps_of v4 table chain k = elim (client.list v4 table chain k) [
    | none ↦ k
    | some lines ↦ delete_listed (listed_rule v4 table chain) lines k
  ]

  -- removeJumpRules
  unfoldable pub remove_jump_rules : K → K
  remove_jump_rules k =
      let k1 = remove_jumps_of true default_ip_table iptable_fwd_chain k in
      let k2 = remove_jumps_of false default_ip_table iptable_fwd_chain k1 in
      let k3 = remove_jumps_of true default_ip_table iptable_in_chain k2 in
      let k4 = remove_jumps_of false default_ip_table iptable_in_chain k3 in
      let k5 = remove_jumps_of true default_nat_table nattable_prt_chain k4 in
      remove_jumps_of false default_nat_table nattable_prt_chain k5

  -- Where a list fails, there are no lines.
  abbrev pub lines_of : Bool → Text → Text → K → List Text
  lines_of v4 table chain k = elim (client.list v4 table chain k) [ none ↦ [] | some lines ↦ lines ]

  -- clearNetmakerRules; it deletes what the client of IPv6 lists with the client of IPv4.
  unfoldable pub clear_netmaker_rules : Text → Text → K → K
  clear_netmaker_rules table chain k =
      let k' = delete_listed (cleared_rule true table chain) (lines_of true table chain k) k in
      delete_listed (cleared_rule true table chain) (lines_of false table chain k') k'

  -- cleanup
  unfoldable pub cleanup : Text → Text → K → K
  cleanup table chain k =
      client.clear_and_delete_chain false table chain
        (client.clear_and_delete_chain true table chain k)

  -- FlushAll
  unfoldable pub flush_all : K → K
  flush_all k =
      let k1 = remove_jump_rules k in
      let k2 = clear_netmaker_rules default_ip_table iptable_in_chain k1 in
      let k3 = clear_netmaker_rules default_ip_table iptable_fwd_chain k2 in
      let k4 = cleanup default_ip_table acl_input_rules_chain k3 in
      let k5 = cleanup default_ip_table acl_fwd_rules_chain k4 in
      let k6 = cleanup default_ip_table acl_output_rules_chain k5 in
      let k7 = cleanup default_ip_table netmaker_filter_chain k6 in
      cleanup default_nat_table netmaker_nat_chain k7

  -- Init, with the manager of iptables: the kernel, and whether it returned an error.
  unfoldable pub init : Text → Option Text → K → K × Bool
  init interface_ metrics_port k =
      let (k', failed) = create_chains client interface_ metrics_port (flush_all k) in
      if failed then (k', true) else (forward_rule client k', false)
