-- ===== src/Firewall/Vnat.antt =====
-- firewall/virtual_nat.go, the helpers of firewall/utils.go, and the virtual NAT of
-- firewall/iptables_linux.go. A network is its family, its address and the length of its prefix;
-- parsing and printing of networks, and the test for the target NETMAP, are arguments.
pub mod Window
use netclient.Prelude.{
  ℕ, ◌-◌, ◌*◌, ◌/◌, ◌^◌, List, [], ◌∷◌, ◌++◌, Bool, true, false, not, ◌||◌, Option, none, some,
  if◌then◌else◌, is_empty, leb, ltb, length, take,
}
use netclient.Text.{Text, codes, text_eq, has_prefix}
use netclient.Firewall.Types.{EgressRange, RuleInfo}
use netclient.Firewall.Specs.{append_netmaker_comment_to_rule}
use netclient.Firewall.Kernel.{ChainClient}
use netclient.Firewall.Chains.{
  default_nat_table, nattable_prt_chain, jump, into, out_of, create_chain,
}

-- net.IPNet, with an IP
pub record IpNet : Type 0 where
  pub is_v4 : Bool
  pub ip : ℕ
  pub prefix : ℕ

-- virtualNatInfo
pub record VirtualNatInfo : Type 0 where
  pub virtual_range : IpNet
  pub real_range : IpNet

-- isAddrIpv4; `parse` is netip.ParsePrefix, and tells whether the unmapped address is an IPv6 one.
unfoldable pub is_addr_ipv4 : (Text → Option Bool) → Text → Bool
is_addr_ipv4 parse addr = elim (parse addr) [ none ↦ true | some is6 ↦ not is6 ]

-- isDockerInterface
unfoldable pub is_docker_interface : Text → Bool
is_docker_interface i = has_prefix i (codes "docker") || has_prefix i (codes "br-")

-- getEgressID8
unfoldable pub get_egress_id8 : Text → Text
get_egress_id8 i = if ltb 8 (length i) then take 8 i else i

-- getVNATChainNames
unfoldable pub get_vnat_chain_names : Text → Text × Text
get_vnat_chain_names i =
    (codes "NM-VNAT-PR-" ++ get_egress_id8 i, codes "NM-VNAT-PO-" ++ get_egress_id8 i)

-- The first address of the block of a length that holds the address, in `bits` bits.
unfoldable pub masked : ℕ → ℕ → ℕ → ℕ
masked bits prefix ip = ip / 2 ^ (bits - prefix) * 2 ^ (bits - prefix)

-- getRealRangeWindow; none where IP.Mask gives nil, since address and mask differ in length.
unfoldable pub get_real_range_window : IpNet → IpNet → Option IpNet
get_real_range_window real virtual =
    if virtual.is_v4
    then (if real.is_v4
        then some (record real { ip = masked 32 virtual.prefix real.ip; prefix = virtual.prefix })
        else none)
    else if not real.is_v4
    then some (record real { ip = masked 128 virtual.prefix real.ip; prefix = virtual.prefix })
    else if leb 96 virtual.prefix
    then some
        (record real { ip = masked 32 (virtual.prefix - 96) real.ip; prefix = virtual.prefix })
    else none

-- extractVirtualNatInfoFromRange; `to_ip_net` is config.ToIPNet, none for a network without an IP.
unfoldable pub extract_virtual_nat_info_from_range :
    (Text → Option IpNet) → EgressRange → Option VirtualNatInfo
extract_virtual_nat_info_from_range to_ip_net r =
    if is_empty r.virtual_network then none else elim (to_ip_net r.virtual_network) [
      | none ↦ none
      | some v ↦ elim (to_ip_net r.network) [
        | none ↦ none
        | some n ↦ some (record { virtual_range = v; real_range = n })
      ]
    ]

-- shouldApplyVirtualNat; `virtual_nat` is the mode schema.VirtualNAT.
unfoldable pub should_apply_virtual_nat :
    (Text → Option IpNet) → Text → EgressRange → Option VirtualNatInfo
should_apply_virtual_nat to_ip_net virtual_nat r =
    if not r.nat || not (text_eq r.mode virtual_nat) || is_empty r.virtual_network
    then none
    else extract_virtual_nat_info_from_range to_ip_net r

-- What the virtual NAT asks the system for.
pub record VnatEnv (K : Type 0) : Type 0 where
  pub netmap_supported : Bool → K → Bool
  pub net_string : IpNet → Text
  pub wg_interface : Text

-- A jump from a base chain to one of the chains of an egress.
abbrev pub vnat_jump : Bool → Text → Text → RuleInfo
vnat_jump v4 base target = record {
  rule = append_netmaker_comment_to_rule (jump target);
  is_ipv4 = v4;
  table = default_nat_table;
  chain = base;
}

abbrev pub prerouting_chain : Text
prerouting_chain = codes "PREROUTING"

-- The rule that maps the virtual range to the window of the real one; the text of a network
-- without an IP is <nil>.
unfoldable pub netmap_rule : Text → Text → Text → Text → RuleInfo
netmap_rule chain interface_ virtual window = record {
  rule = append_netmaker_comment_to_rule (
      into interface_
      ++ codes "-d" ∷ virtual ∷ codes "-j" ∷ codes "NETMAP" ∷ codes "--to" ∷ window ∷ []);
  is_ipv4 = true;
  table = default_nat_table;
  chain = chain;
}

unfoldable pub masquerade_rule : Text → Text → Text → Text → RuleInfo
masquerade_rule chain interface_ egress_interface real = record {
  rule =
      append_netmaker_comment_to_rule (
        into interface_
        ++ out_of egress_interface
        ++ codes "-d" ∷ real ∷ jump (codes "MASQUERADE"));
  is_ipv4 = true;
  table = default_nat_table;
  chain = chain;
}

module _ {K : Type 0} (client : ChainClient K) where
  -- deleteVNATChains
  unfoldable pub delete_vnat_chains : Bool → Text → Text → K → K
  delete_vnat_chains v4 prerouting postrouting k =
      let k1 = client.clear_chain v4 default_nat_table prerouting k in
      let k2 = client.delete_chain v4 default_nat_table prerouting k1 in
      let k3 = client.clear_chain v4 default_nat_table postrouting k2 in
      client.delete_chain v4 default_nat_table postrouting k3

  -- A jump is inserted unless it exists; the flag tells that the insert failed.
  unfoldable pub add_vnat_jump : RuleInfo → K → K × Bool
  add_vnat_jump r k = elim (client.exists r k) [
    | none ↦ (k, false)
    | some found ↦
        if found
        then (k, false)
        else elim (client.rules.insert_rule r k) [ none ↦ (k, true) | some k' ↦ (k', false) ]
  ]

  -- addVNATJumpRules
  unfoldable pub add_vnat_jump_rules : Bool → Text → Text → K → K × Bool
  add_vnat_jump_rules v4 prerouting postrouting k =
      let (k1, failed) = add_vnat_jump (vnat_jump v4 prerouting_chain prerouting) k in
      if failed then (k1, true) else add_vnat_jump (vnat_jump v4 nattable_prt_chain postrouting) k1

  -- removeVirtualNATRules
  unfoldable pub remove_virtual_nat_rules : Text → Bool → K → K
  remove_virtual_nat_rules egress_id v4 k =
      let (prerouting, postrouting) = get_vnat_chain_names egress_id in
      let k1 = client.rules.delete_if_exists (vnat_jump v4 prerouting_chain prerouting) k in
      let k2 = client.rules.delete_if_exists (vnat_jump v4 nattable_prt_chain postrouting) k1 in
      delete_vnat_chains v4 prerouting postrouting k2

  -- The end of applyVirtualNATRules for IPv4: the rules in the two chains, and the jumps to them.
  -- none is an error, with the rules of the kernel as they are by then.
  unfoldable pub fill_vnat_chains :
      Text → Text → RuleInfo → RuleInfo → K → Option (List RuleInfo) × K
  fill_vnat_chains prerouting postrouting netmap masquerade k = elim (client.append netmap k) [
    | none ↦ (none, k)
    | some k1 ↦ elim (client.append masquerade k1) [
      | none ↦ (none, k1)
      | some k2 ↦
          let (k3, failed) = add_vnat_jump_rules true prerouting postrouting k2 in
          if failed then (none, k3) else (some (netmap ∷ masquerade ∷ []), k3)
    ]
  ]

  -- applyVirtualNATRules
  unfoldable pub apply_virtual_nat_rules :
      VnatEnv K → Text → VirtualNatInfo → Text → K → Option (List RuleInfo) × K
  apply_virtual_nat_rules env egress_id info egress_interface k =
      let (prerouting, postrouting) = get_vnat_chain_names egress_id in
      let v4 = info.virtual_range.is_v4 in
      let window : Text = elim (get_real_range_window info.real_range info.virtual_range) [
        | none ↦ codes "<nil>"
        | some w ↦ env.net_string w
      ] in
      let k1 = delete_vnat_chains v4 prerouting postrouting k in
      let (k2, failed2) = create_chain client v4 default_nat_table prerouting k1 in
      let (k3, failed3) = create_chain client v4 default_nat_table postrouting k2 in
      let filled =
        fill_vnat_chains prerouting postrouting
          (netmap_rule prerouting env.wg_interface (env.net_string info.virtual_range) window)
          (masquerade_rule postrouting env.wg_interface egress_interface
            (env.net_string info.real_range))
          k3 in
      if not (env.netmap_supported v4 k)
      then (none, k)
      else if failed2
      then (none, k2)
      else if failed3
      then (none, k3)
      else if v4
      then filled
      else (none, k3)
