-- ===== src/Firewall/Nft.antt =====
-- firewall/nftables_linux.go: the policies of the host in the second implementation. A rule of
-- nftables is a list of expressions with a key, its arguments as one text, by which it is found
-- again. The client of package nftables, net and Atoi are arguments; a port is no negative number.
pub mod Expressions
pub mod Conflict
pub mod SameKey
use netclient.Prelude.{
  ℕ, List, [], ◌∷◌, ◌++◌, Bool, true, false, Option, none, some, if◌then◌else◌, is_empty,
}
use netclient.Text.{Text, codes}
use netclient.Assoc.{lookup, insert, remove, has_key}
use netclient.Firewall.Types.{Net, AclRule, RuleInfo, default_ip_table, acl_input_rules_chain}
use netclient.Firewall.Specs.{
  net_string, join, append_netmaker_comment_to_rule, accept_args, protocol_args,
}
use netclient.Firewall.Manager.{AclTable}
use netclient.Firewall.Acl.{no_rules, recorded, rules_of}
use netclient.Firewall.Nft.Expressions.{Expr, NetBytes, accept_exprs}

-- genRuleKey
unfoldable pub gen_rule_key : List Text → Text
gen_rule_key [] = []
gen_rule_key (s ∷ []) = s
gen_rule_key (s ∷ t ∷ l) = s ++ b':' ∷ gen_rule_key (t ∷ l)

pub record NftRule : Type 0 where
  pub chain : Text
  pub exprs : List Expr
  pub key : Text

-- InsertRule with Flush, which can fail; and deleteRule, of the rule of a chain with a key.
pub record NftClient (K : Type 0) : Type 0 where
  pub insert_rule : NftRule → K → Option K
  pub delete_rule : Text → Text → K → K

-- The arguments of a rule, which are its key; UpsertAclRule leaves the destination of IPv6 out.
unfoldable pub nft_spec : Bool → Text → Option Text → AclRule → List Text
nft_spec names source destination a =
    let front : List Text = elim destination [
      | none ↦ codes "-s" ∷ source ∷ []
      | some d ↦
          if names then codes "-s" ∷ source ∷ codes "-d" ∷ d ∷ [] else codes "-s" ∷ source ∷ []
    ] in
    append_netmaker_comment_to_rule (
      front
      ++ (protocol_args a.allowed_protocol
          ++ ((if is_empty a.allowed_ports then [] else codes "--dport" ∷ join a.allowed_ports ∷ [])
              ++ accept_args)))

module _ {K : Type 0} (client : NftClient K) (net : NetBytes) (atoi : Text → Option ℕ) where
  -- A rule in front of the chain, in place of the one with its key.
  unfoldable pub insert_accept :
      Bool → Bool → AclRule → Net → Option Text → List RuleInfo × K → List RuleInfo × K
  insert_accept names v4 a source destination (rules, k) =
      let spec = nft_spec names (net_string source) destination a in
      let k' = client.delete_rule acl_input_rules_chain (gen_rule_key spec) k in
      let rule : NftRule = record {
        chain = acl_input_rules_chain;
        exprs = accept_exprs net atoi v4 a source destination;
        key = gen_rule_key spec;
      } in
      elim (client.insert_rule rule k') [
        | none ↦ (rules, k')
        | some k'' ↦ (
          rules
              ++ record {
                rule = spec;
                is_ipv4 = v4;
                table = default_ip_table;
                chain = acl_input_rules_chain;
              }
                ∷ [],
          k'',
        )
      ]

  -- The loop over the destinations, which leaves those without an IP out.
  unfoldable pub insert_destinations :
      Bool → Bool → AclRule → Net → List Net → List RuleInfo × K → List RuleInfo × K
  insert_destinations names v4 a source [] s = s
  insert_destinations names v4 a source (none ∷ dsts) s =
      insert_destinations names v4 a source dsts s
  insert_destinations names v4 a source (some d ∷ dsts) s =
      insert_destinations names v4 a source dsts (insert_accept names v4 a source (some d) s)

  -- The loop over the sources of one family.
  unfoldable pub insert_sources :
      Bool → Bool → AclRule → List Net → List Net → List RuleInfo × K → List RuleInfo × K
  insert_sources names v4 a [] dsts s = s
  insert_sources names v4 a (source ∷ sources) dsts s = insert_sources names v4 a sources dsts (
      if is_empty dsts
      then insert_accept names v4 a source none s
      else insert_destinations names v4 a source dsts s)

  -- Both families; `names6` is whether the keys of IPv6 name the destination.
  unfoldable pub insert_policy : Bool → AclRule → K → List RuleInfo × K
  insert_policy names6 a k =
      insert_sources names6 false a a.ip6_list a.dst6
        (insert_sources true true a a.ip_list a.dst ([], k))

  -- The body of the loop of AddAclRules.
  unfoldable pub add_nft_rule : AclRule → AclTable × K → AclTable × K
  add_nft_rule a (t, k) =
      let (rules, k') = insert_policy true a k in
      (recorded a rules (if has_key a.id t then t else insert a.id no_rules t), k')

  unfoldable pub add_nft_rules : List (Text × AclRule) → AclTable × K → AclTable × K
  add_nft_rules [] s = s
  add_nft_rules ((i, a) ∷ rules) s = add_nft_rules rules (add_nft_rule a s)

  -- UpsertAclRule, on the server's table.
  unfoldable pub upsert_nft_rule : AclRule → AclTable × K → AclTable × K
  upsert_nft_rule a (t, k) =
      let (rules, k') = insert_policy false a k in (recorded a rules (insert a.id no_rules t), k')

  unfoldable pub delete_rules : List RuleInfo → K → K
  delete_rules [] k = k
  delete_rules (r ∷ rules) k =
      delete_rules rules (client.delete_rule r.chain (gen_rule_key r.rule) k)

  -- DeleteAclRule, on the server's table.
  unfoldable pub delete_nft_rule : Text → AclTable × K → AclTable × K
  delete_nft_rule i (t, k) = elim (lookup i t) [
    | none ↦ (t, k)
    | some c ↦ (remove i t, delete_rules (rules_of i c) k)
  ]
