-- ===== src/Firewall/Manager.antt =====
-- firewall/iptables_linux.go: the manager, its rule tables by server, and the inserts and removals
-- of the rules of a policy.
use netclient.Prelude.{List, [], ◌∷◌, ◌++◌, Bool, true, false, none, some}
use netclient.Text.{Text}
use netclient.Assoc.{lookup, insert}
use netclient.Firewall.Types.{AclRule, EgressExtra, RuleInfo, RuleTable, Iptables, default_ip_table}

abbrev pub AclTable : Type 0
AclTable = RuleTable AclRule

-- The entries of egress gateways: one for its ranges and one for its policies.
abbrev pub EgressTable : Type 0
EgressTable = RuleTable EgressExtra

-- iptablesManager: the rules of the kernel behind its two clients, and the tables of the policies.
pub record Manager (K : Type 0) : Type 0 where
  pub kernel : K
  pub acl_rules : List (Text × AclTable)
  pub egress_rules : List (Text × EgressTable)

-- FetchRuleTable, for the table of a server in one of the maps.
unfoldable pub fetch_rule_table : {E : Type 0} → Text → List (Text × RuleTable E) → RuleTable E
fetch_rule_table server tables = elim (lookup server tables) [ none ↦ [] | some t ↦ t ]

-- SaveRules
unfoldable pub save_rules :
    {E : Type 0} → Text → RuleTable E → List (Text × RuleTable E) → List (Text × RuleTable E)
save_rules server rules tables = insert server rules tables

module _ {K : Type 0} (client : Iptables K) where
  -- The loop over the rules: those that could be inserted are recorded.
  unfoldable pub insert_all : Bool → Text → List (List Text) → K → List RuleInfo × K
  insert_all v4 chain [] k = ([], k)
  insert_all v4 chain (spec ∷ specs) k =
      let r : RuleInfo = record {
        rule = spec;
        is_ipv4 = v4;
        table = default_ip_table;
        chain = chain;
      } in
      elim (client.insert_rule r k) [
        | none ↦ insert_all v4 chain specs k
        | some k' ↦ let (rules, k'') = insert_all v4 chain specs k' in (r ∷ rules, k'')
      ]

  unfoldable pub delete_all : List RuleInfo → K → K
  delete_all [] k = k
  delete_all (r ∷ rules) k = delete_all rules (client.delete_if_exists r k)

  -- The rules of a policy for both families: those for IPv4 first.
  unfoldable pub insert_both : Text → List (List Text) → List (List Text) → K → List RuleInfo × K
  insert_both chain specs4 specs6 k =
      let (rules4, k') = insert_all true chain specs4 k in
      let (rules6, k'') = insert_all false chain specs6 k' in (rules4 ++ rules6, k'')
