-- ===== src/Firewall/Routing.antt =====
-- firewall/egress.go and firewall/iptables_linux.go: the rules for the ranges of egress gateways,
-- and the calls that remove the rules of an entry or of a table. Routes, interfaces and networks of
-- the system are arguments; a peer's rules are recorded without a family, as the code records them.
pub mod Stale
pub mod Removed
pub mod Placed
pub mod Entries
pub mod Current
use netclient.Prelude.{
  ℕ, List, [], ◌∷◌, ◌++◌, ◌==◌, Bool, true, false, not, ◌&&◌, ◌||◌, Option, none, some,
  if◌then◌else◌, is_empty,
}
use netclient.Text.{Text, codes, text_eq, contains, has_prefix}
use netclient.Sets.{mem}
use netclient.Assoc.{lookup, insert, remove, has_key, keys}
use netclient.Firewall.Types.{
  EgressRange, policies, ranges, RuleInfo, RuleTable, acl_fwd_rules_chain, acl_input_rules_chain,
  default_ip_table,
}
use netclient.Firewall.Specs.{append_netmaker_comment_to_rule}
use netclient.Firewall.Kernel.{ChainClient, for_family, delete_for_both, replace_rule}
use netclient.Firewall.Chains.{
  default_nat_table, nattable_prt_chain, iptable_fwd_chain, rule_of, jump, into, out_of,
}
use netclient.Firewall.Vnat.{
  IpNet, VnatEnv, is_addr_ipv4, is_docker_interface, should_apply_virtual_nat,
  apply_virtual_nat_rules, remove_virtual_nat_rules,
}
use netclient.Firewall.Manager.{EgressTable}
use netclient.Firewall.Egress.{EgressInfo, EgressCfg, all_rules, process_egress_fw_rules}
use netclient.Firewall.Egress.Ranges.{is_egress_range_equal}

-- net.IP: the family and the number
abbrev pub Addr : Type 0
Addr = Bool × ℕ

-- What RouteGet of package netlink gives: the indices of the links, or one of two errors.
pub data RouteReply : Type 0 where
  routes : List ℕ → RouteReply
  unreachable : RouteReply
  route_error : RouteReply

pub record RoutingEnv (K : Type 0) : Type 0 where
  pub vnat : VnatEnv K
  pub to_ip_net : Text → Option IpNet
  pub parse_prefix : Text → Option Bool
  pub virtual_nat : Text
  pub new_handle : Bool
  pub route_get : Option Addr → RouteReply
  pub interface_by_index : ℕ → Option Text
  pub node_count : ℕ
  pub default_interface : Text

-- TestIPv4 and TestIPv6
abbrev pub test_ipv4 : Addr
test_ipv4 = (true, 0x01010101)

abbrev pub test_ipv6 : Addr
test_ipv6 = (false, 0x26064700470000000000000000001111)

-- The networks IPv4Network and IPv6Network.
unfoldable pub is_default_net : IpNet → Bool
is_default_net n = n.ip == 0 && n.prefix == 0

-- Where getInterfaceName asks for a route to.
unfoldable pub route_target : Option IpNet → Option Addr
route_target none = none
route_target (some n) = some (if is_default_net n then test_ipv4 else (n.is_v4, n.ip))

module _ {K : Type 0} (env : RoutingEnv K) where
  unfoldable pub first_interface : List ℕ → Option Text
  first_interface [] = none
  first_interface (i ∷ l) = elim (env.interface_by_index i) [
    | some name ↦ some name
    | none ↦ first_interface l
  ]

  -- getInterfaceName
  unfoldable pub get_interface_name : Option IpNet → Option Text
  get_interface_name dst =
      if not env.new_handle then none else elim (env.route_get (route_target dst)) [
        | routes l ↦ first_interface l
        | route_error ↦ none
        | unreachable ↦ elim (env.route_get (some test_ipv6)) [
          | routes l ↦ first_interface l
          | _ ↦ none
        ]
      ]

  -- The interface of a range.
  abbrev pub range_interface : EgressRange → Option Text
  range_interface r = get_interface_name (env.to_ip_net r.network)

-- What the loop of InsertEgressRoutingRules carries: the jumps made, and the rules recorded.
pub record Progress (K : Type 0) : Type 0 where
  pub dedupe : List Text
  pub made : List RuleInfo
  pub kernel : K

abbrev pub docker_user_chain : Text
docker_user_chain = codes "DOCKER-USER"

module _ {K : Type 0} (client : ChainClient K) (env : RoutingEnv K) where
  -- insertEgressForwardAclJumpIfNeeded
  unfoldable pub insert_egress_forward_acl_jump_if_needed : Bool → Text → Progress K → Progress K
  insert_egress_forward_acl_jump_if_needed v4 egress_interface p =
      let key = egress_interface ++ b'#' ∷ codes (if v4 then "v4" else "v6") in
      let r = rule_of default_ip_table iptable_fwd_chain (
        append_netmaker_comment_to_rule
          (into egress_interface ++ out_of env.vnat.wg_interface ++ jump acl_fwd_rules_chain)) in
      let k = client.rules.delete_if_exists (for_family v4 r) p.kernel in
      if is_empty egress_interface || mem key p.dedupe
      then p
      else elim (client.append_unique (for_family v4 r) k) [
        | none ↦ record p { dedupe = key ∷ p.dedupe; kernel = k }
        | some k' ↦ record { dedupe = key ∷ p.dedupe; made = p.made ++ r ∷ []; kernel = k' }
      ]

  -- A rule put in place of an equal one, and recorded.
  unfoldable pub put_rule : Bool → RuleInfo → Progress K → Progress K
  put_rule v4 r p =
      let (rules, k) = replace_rule client v4 r p.kernel in
      record p { made = p.made ++ rules; kernel = k }

  unfoldable pub masquerade_range : EgressInfo → Bool → Text → RuleInfo
  masquerade_range info v4 egress_interface =
      let spec = out_of egress_interface ++ jump (codes "MASQUERADE") in
      let source = if v4 then info.network else info.network6 in
      rule_of default_nat_table nattable_prt_chain (
        append_netmaker_comment_to_rule
          (if env.node_count == 1 then spec else codes "-s" ∷ source ∷ spec))

  -- The rule for an interface of Docker, if its chain is there.
  unfoldable pub put_docker_rule : Bool → Text → Progress K → Progress K
  put_docker_rule v4 egress_interface p =
      if is_docker_interface egress_interface
      then elim (client.chain_exists v4 default_ip_table docker_user_chain p.kernel) [
        | none ↦ p
        | some found ↦
            if found
            then put_rule v4
                (rule_of default_ip_table docker_user_chain (
                  append_netmaker_comment_to_rule (
                    into env.vnat.wg_interface
                    ++ out_of egress_interface
                    ++ jump acl_input_rules_chain)))
                p
            else p
      ]
      else p

  -- The traffic from the range that leaves by the interface of netmaker.
  unfoldable pub put_return_rule : Bool → Text → EgressRange → Progress K → Progress K
  put_return_rule v4 egress_interface r p =
      if text_eq egress_interface env.default_interface || text_eq egress_interface (codes "eth0")
      then p
      else if v4
      then put_rule v4
          (rule_of default_nat_table nattable_prt_chain (
            append_netmaker_comment_to_rule
              (codes "-s" ∷ r.network ∷ out_of env.vnat.wg_interface ++ jump (codes "MASQUERADE"))))
          p
      else p

  unfoldable pub insert_nat_range : EgressInfo → EgressRange → Progress K → Progress K
  insert_nat_range info r p =
      let v4 = is_addr_ipv4 env.parse_prefix r.network in
      elim (range_interface env r) [
        | none ↦ p
        | some i ↦
            let p1 = put_rule v4 (masquerade_range info v4 i) p in
            let p2 = put_docker_rule v4 i p1 in
            put_return_rule v4 i r (insert_egress_forward_acl_jump_if_needed v4 i p2)
      ]

  unfoldable pub insert_plain_range : EgressRange → Progress K → Progress K
  insert_plain_range r p = elim (range_interface env r) [
    | none ↦ p
    | some i ↦
        insert_egress_forward_acl_jump_if_needed (is_addr_ipv4 env.parse_prefix r.network) i p
  ]

  -- The body of the loop over the ranges.
  unfoldable pub insert_range : EgressInfo → EgressRange → Progress K → Progress K
  insert_range info r p = elim (should_apply_virtual_nat env.to_ip_net env.virtual_nat r) [
    | none ↦ if r.nat then insert_nat_range info r p else insert_plain_range r p
    | some v ↦ elim (range_interface env r) [
      | none ↦ p
      | some i ↦
          let (result, k) = apply_virtual_nat_rules client env.vnat info.egress_id v i p.kernel in
          elim result [
            | none ↦ record p { kernel = k }
            | some rules ↦
                insert_egress_forward_acl_jump_if_needed true i
                  (record p { made = p.made ++ rules; kernel = k })
          ]
    ]
  ]

  unfoldable pub insert_ranges : EgressInfo → List EgressRange → Progress K → Progress K
  insert_ranges info [] p = p
  insert_ranges info (r ∷ l) p = insert_ranges info l (insert_range info r p)

  -- InsertEgressRoutingRules, on the server's table.
  unfoldable pub insert_egress_routing_rules : EgressInfo → EgressTable × K → EgressTable × K
  insert_egress_routing_rules info (t, k) =
      let p =
        insert_ranges info info.ranges_with_metric
          (record { dedupe = []; made = []; kernel = k }) in
      (
        insert info.egress_id
            (record {
              rules_map = (info.egress_id, p.made) ∷ [];
              extra_info = some (ranges info.ranges_with_metric);
            })
            t,
        p.kernel,
      )

-- The entry of RemoveRoutingRules that has no virtual NAT, like those of policies.
unfoldable pub has_vnat : Text → Bool
has_vnat i = not (text_eq i (codes "allowed-network-rules")) && not (contains i (codes "acl#"))

module _ {K : Type 0} (client : ChainClient K) where
  -- The loop of RemoveRoutingRules over the rules, which leaves out those of virtual NAT.
  unfoldable pub remove_rules : List RuleInfo → K → K
  remove_rules [] k = k
  remove_rules (r ∷ rules) k =
      let k' = if has_prefix r.chain (codes "NM-VNAT-") then k else delete_for_both client r k in
      remove_rules rules k'

  -- RemoveRoutingRules, on the server's table; `egress` tells that it is the egress table. The flag
  -- is its error.
  unfoldable pub remove_routing_rules :
      {E : Type 0} → Bool → Text → RuleTable E × K → (RuleTable E × K) × Bool
  remove_routing_rules egress i (t, k) = elim (lookup i t) [
    | none ↦ ((t, k), true)
    | some c ↦
        let k1 =
          if egress && has_vnat i
          then remove_virtual_nat_rules client i false (remove_virtual_nat_rules client i true k)
          else k in
        ((remove i t, remove_rules (all_rules c.rules_map) k1), false)
  ]

  -- CleanRoutingRules, on the server's table: the rules of the kernel. DeleteRuleTable then drops
  -- the table.
  unfoldable pub clean_rules : List RuleInfo → K → K
  clean_rules [] k = k
  clean_rules (r ∷ rules) k = clean_rules rules (delete_for_both client r k)

  unfoldable pub clean_routing_rules : {E : Type 0} → RuleTable E → K → K
  clean_routing_rules [] k = k
  clean_routing_rules ((i, c) ∷ t) k = clean_routing_rules t (clean_rules (all_rules c.rules_map) k)

-- The assertion that `extraInfo` holds a request for a gateway, which panics where it does not.
unfoldable pub ranges_of : EgressCfg → Option (List EgressRange)
ranges_of c = elim c.extra_info [
  | none ↦ none
  | some e ↦ elim e [ policies l ↦ none | ranges l ↦ some l ]
]

module _ {K : Type 0} (client : ChainClient K) (env : RoutingEnv K) where
  -- The first loop of SetEgressRoutes: the entries whose key is none of the update's go. That
  -- includes the entries of policies, which processEgressFwRules makes again.
  unfoldable pub remove_gateways :
      List Text → List (Text × EgressInfo) → EgressTable × K → EgressTable × K
  remove_gateways [] gateways s = s
  remove_gateways (i ∷ ids) gateways s =
      let s' = if has_key i gateways then s else (remove_routing_rules client true i s).0 in
      remove_gateways ids gateways s'

  -- The body of its second loop; none where the assertion panics.
  unfoldable pub set_gateway : Text → EgressInfo → EgressTable × K → Option (EgressTable × K)
  set_gateway i info (t, k) = elim (lookup i t) [
    | none ↦ some (insert_egress_routing_rules client env info (t, k))
    | some c ↦ elim (ranges_of c) [
      | none ↦ none
      | some old ↦
          if is_egress_range_equal old info.ranges_with_metric
          then some (t, k)
          else some (
              insert_egress_routing_rules client env info
                (remove_routing_rules client true i (t, k)).0)
    ]
  ]

  unfoldable pub set_gateways :
      List (Text × EgressInfo) → EgressTable × K → Option (EgressTable × K)
  set_gateways [] s = some s
  set_gateways ((i, info) ∷ gateways) s = elim (set_gateway i info s) [
    | none ↦ none
    | some s' ↦ set_gateways gateways s'
  ]

  -- SetEgressRoutes, on the server's table, for gateways with distinct IDs, once the firewall is
  -- initialised; none where it panics.
  unfoldable pub set_egress_routes :
      List (Text × EgressInfo) → EgressTable × K → Option (EgressTable × K)
  set_egress_routes gateways s =
      elim (set_gateways gateways (remove_gateways (keys s.0) gateways s)) [
        | none ↦ none
        | some s' ↦ some (process_egress_fw_rules client.rules gateways s')
      ]
