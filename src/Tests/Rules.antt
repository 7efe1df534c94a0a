-- ===== src/Tests/Rules.antt =====
-- firewall/ at concrete inputs: a kernel that is the list of its rules.
use netclient.Prelude.{
  ℕ, ◌+◌, ◌-◌, ◌≡◌, refl, List, [], ◌∷◌, ◌++◌, Bool, true, false, if◌then◌else◌, some, arith,
  Bool-cases, inl, inr, ap, sym, ◌∙◌,
}
use mathlib.Core.Path.{subst}
use netclient.Text.{Text, codes, text_eq}
use netclient.Assoc.{has_key, HasDistinctKeys}
use netclient.Firewall.Types.{AclRule, EgressRange, policies, zero_acl_rule, RuleInfo, Iptables}
use netclient.Firewall.Manager.{AclTable, EgressTable, Manager, fetch_rule_table}
use netclient.Firewall.Acl.{update_acl_rules, process_acl_rules, same_texts}
use netclient.Firewall.Acl.Tables.{IsKeyed}
use netclient.Firewall.Acl.Changed.{same_texts_iff}
use netclient.Firewall.Acl.Process.{process_acl_rules-has_key}
use netclient.Firewall.Acl.Updated.{AreCurrent, update_acl_rules-AreCurrent}
use netclient.Firewall.Acl.Counted.{count_rules, one_if_same}
use netclient.Firewall.Acl.Surplus.{Surplus, Surplus-update_acl_rules}
use netclient.Firewall.Egress.{EgressInfo, process_egress_fw_rules}
use netclient.Firewall.Egress.Ranges.{is_egress_range_equal}

abbrev Kernel : Type 0
Kernel = List RuleInfo

-- Two rules are the same if their arguments are.
abbrev same : RuleInfo → RuleInfo → Bool
same r x = same_texts r.rule x.rule

abbrev delete_rule : RuleInfo → Kernel → Kernel
delete_rule r [] = []
delete_rule r (x ∷ k) = if same r x then k else x ∷ delete_rule r k

abbrev client : Iptables Kernel
client = record {
  insert_rule = λ r k. some (r ∷ k);
  delete_if_exists = delete_rule;
  append_rule = λ r k. k ++ r ∷ [];
  exists_rule = λ r k. false;
}

-- The rules of the kernel that a rule is the same as.
abbrev count : RuleInfo → Kernel → ℕ
count x k = count_rules same x k

insert_law :
    (r x : RuleInfo) (k l : Kernel)
    → client.insert_rule r k ≡ some l
    → count x l ≡ count x k + one_if_same same r x
insert_law r x k l h =
    let e : r ∷ k ≡ l = ground (arith, h) in
    subst (λ m. count x m ≡ count x k + one_if_same same r x) e (omega arith)

-- Two rules that a third one is the same as are the same as one another, and count alike.
same_alike : (r y x : RuleInfo) → same r y ≡ true → same r x ≡ same y x
same_alike r y x h = ap (λ t. same_texts t x.rule) ((same_texts_iff r.rule y.rule).0 h)

same_both : (r y x : RuleInfo) → same r x ≡ true → same y x ≡ true → same r y ≡ true
same_both r y x h q =
    (same_texts_iff r.rule y.rule).1
      ((same_texts_iff r.rule x.rule).0 h ∙ sym ((same_texts_iff y.rule x.rule).0 q))

delete_law :
    (r x : RuleInfo) (k : Kernel)
    → count x (client.delete_if_exists r k) ≡ count x k - one_if_same same r x
delete_law r x [] = omega arith
delete_law r x (y ∷ k) = elim (Bool-cases (same r y)) [
  | inl e ↦ rw e (ground (arith, same_alike r y x e))
  | inr e ↦ rw e (ground (arith, delete_law r x k, e, same_both r y x))
]

abbrev policy : Text → AclRule
policy i = record zero_acl_rule {
  id = i;
  allowed_ports = codes "80-90" ∷ [] ∷ [];
  ip_list = some (codes "10.0.0.2/32") ∷ [];
}

abbrev update : List (Text × AclRule)
update = (codes "a", policy (codes "a")) ∷ (codes "b", policy (codes "b")) ∷ []

update_IsKeyed : IsKeyed update
update_IsKeyed = (refl, (refl, tt))

update_distinct : HasDistinctKeys update
unfolding has_key text_eq
update_distinct = (refl, (refl, tt))

abbrev start : AclTable × Kernel
start = ([], [])

apart : text_eq (codes "s") (codes "t") ≡ false
unfolding text_eq
apart = refl

abbrev manager : Manager Kernel
manager = record { kernel = []; acl_rules = []; egress_rules = [] }

process_acl_rules-has_key_example :
    (has_key (codes "a") (
        fetch_rule_table
          (codes "s")
          (process_acl_rules client (codes "wg0") (codes "s") false update manager).acl_rules)
      ≡ has_key (codes "a") update)
    × (fetch_rule_table
          (codes "t")
          (process_acl_rules client (codes "wg0") (codes "s") false update manager).acl_rules
        ≡ fetch_rule_table (codes "t") manager.acl_rules)
    × ((process_acl_rules client (codes "wg0") (codes "s") false update manager).egress_rules
        ≡ manager.egress_rules)
process_acl_rules-has_key_example =
    process_acl_rules-has_key client (codes "wg0") (codes "s") (codes "t") false update manager
      (codes "a") update_IsKeyed apart

update_acl_rules-AreCurrent_example : AreCurrent update (update_acl_rules client update start).0
update_acl_rules-AreCurrent_example =
    update_acl_rules-AreCurrent client update start update_IsKeyed update_distinct

abbrev some_rule : RuleInfo
some_rule = record { rule = codes "-s" ∷ []; is_ipv4 = true; table = []; chain = [] }

Surplus-update_acl_rules_example :
    Surplus same client count insert_law delete_law some_rule 0
      (update_acl_rules client update start)
Surplus-update_acl_rules_example =
    Surplus-update_acl_rules same client count insert_law delete_law some_rule 0 update start
      update_IsKeyed update_distinct tt refl

abbrev range_of : Text → EgressRange
range_of n = record { network = n; nat = true; mode = []; virtual_network = []; route_metric = 256 }

equal_ranges :
    is_egress_range_equal
      (range_of (codes "a") ∷ range_of (codes "b") ∷ [])
      (range_of (codes "b") ∷ range_of (codes "a") ∷ [])
    ≡ true
unfolding is_egress_range_equal netclient.Firewall.Egress.Ranges.take_all
    netclient.Firewall.Egress.Ranges.count_all netclient.Firewall.Egress.Ranges.add_one text_eq
    netclient.Firewall.Egress.Ranges.range_key netclient.Firewall.Egress.Ranges.take_one
equal_ranges = refl

abbrev gateways : List (Text × EgressInfo)
gateways =
    (
      codes "g",
      record {
        egress_id = codes "g";
        network = [];
        network6 = [];
        ranges_with_metric = [];
        egress_fw_rules = (codes "a", policy (codes "a")) ∷ [];
      },
    )
    ∷ []

-- A table with a gateway that the update lacks.
abbrev old_table : EgressTable
old_table = (codes "acl#old", record { rules_map = []; extra_info = some (policies []) }) ∷ []

-- The entry of the gateway that is gone is deleted, that of the new one is made.
process_egress_fw_rules_run :
    (has_key (codes "acl#old") (process_egress_fw_rules client gateways (old_table, [])).0 ≡ false)
    × (has_key (codes "acl#g") (process_egress_fw_rules client gateways (old_table, [])).0 ≡ true)
unfolding process_egress_fw_rules has_key netclient.Firewall.Egress.delete_stale_gateways
    netclient.Firewall.Egress.process_gateways netclient.Firewall.Egress.process_egress_gateway
    text_eq netclient.Firewall.Egress.egress_acl_id netclient.Firewall.Egress.add_acl_egress_rules
    netclient.Assoc.insert netclient.Text.contains netclient.Text.split
    netclient.Firewall.Egress.delete_all_acl_egress_rules netclient.Assoc.lookup
    netclient.Assoc.remove
process_egress_fw_rules_run = (refl, refl)
