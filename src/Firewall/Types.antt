-- ===== src/Firewall/Types.antt =====
-- firewall/firewall.go and the rules of an access policy, models.AclRule. A network is its text, or
-- none where its IP is nil; a protocol is its text.
use netclient.Prelude.{ℕ, List, [], Bool, Option}
use netclient.Text.{Text, codes}

abbrev pub Net : Type 0
Net = Option Text

pub record AclRule : Type 0 where
  pub id : Text
  pub allowed_protocol : Text
  pub direction : ℕ
  pub allowed_ports : List Text
  pub ip_list : List Net
  pub ip6_list : List Net
  pub dst : List Net
  pub dst6 : List Net

-- The zero value of models.AclRule.
abbrev pub zero_acl_rule : AclRule
zero_acl_rule = record {
  id = [];
  allowed_protocol = [];
  direction = 0;
  allowed_ports = [];
  ip_list = [];
  ip6_list = [];
  dst = [];
  dst6 = [];
}

-- models.EgressRangeMetric, without the metric.
pub record EgressRange : Type 0 where
  pub network : Text
  pub nat : Bool
  pub mode : Text
  pub virtual_network : Text
  pub route_metric : ℕ

-- ruleInfo, without the fields of the other implementation.
pub record RuleInfo : Type 0 where
  pub rule : List Text
  pub is_ipv4 : Bool
  pub table : Text
  pub chain : Text

-- rulesCfg; the type `E` is that of the policies in `extraInfo`.
pub record RulesCfg (E : Type 0) : Type 0 where
  pub rules_map : List (Text × List RuleInfo)
  pub extra_info : Option E

-- ruletable
abbrev pub RuleTable : Type 0 → Type 0
RuleTable E = List (Text × RulesCfg E)

abbrev pub default_ip_table : Text
default_ip_table = codes "filter"

abbrev pub acl_input_rules_chain : Text
acl_input_rules_chain = codes "NETMAKER-ACL-IN"

abbrev pub acl_fwd_rules_chain : Text
acl_fwd_rules_chain = codes "NETMAKER-ACL-FWD"

abbrev pub target_accept : Text
target_accept = codes "ACCEPT"

abbrev pub target_drop : Text
target_drop = codes "DROP"

-- The protocol `ALL` of models.
abbrev pub all_protocol : Text
all_protocol = codes "all"

-- What `extraInfo` of an entry of the egress table holds: the policies of a gateway, or its ranges.
pub data EgressExtra : Type 0 where
  policies : List (Text × AclRule) → EgressExtra
  ranges : List EgressRange → EgressExtra

-- The clients of package go-iptables: `Insert` in front of a chain, which can fail, and
-- `DeleteIfExists`, `Append` and `Exists`, on the rules `K` of the kernel.
pub record Iptables (K : Type 0) : Type 0 where
  pub insert_rule : RuleInfo → K → Option K
  pub delete_if_exists : RuleInfo → K → K
  pub append_rule : RuleInfo → K → K
  pub exists_rule : RuleInfo → K → Bool
