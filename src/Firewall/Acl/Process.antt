-- ===== src/Firewall/Acl/Process.antt =====
-- firewall/acl.go: ProcessAclRules on the tables of all servers.
use netclient.Prelude.{◌≡◌, refl, List, Bool, false, if◌then◌else◌, arith}
use netclient.Text.{Text, text_eq, text_eq_refl}
use netclient.Assoc.{has_key, lookup-insert}
use netclient.Firewall.Types.{AclRule, Iptables, target_accept, target_drop}
use netclient.Firewall.Manager.{AclTable, Manager, fetch_rule_table, save_rules}
use netclient.Firewall.Acl.{
  process_acl_rules, update_acl_rules, change_acl_in_target, change_acl_fwd_target,
}
use netclient.Firewall.Acl.Tables.{IsKeyed, has_key-update_acl_rules}

module _ {K : Type 0} (client : Iptables K) where
  -- Behind ProcessAclRules the table of the server has an entry for the policies of the update, and
  -- for no other; the tables of the other servers and those of the egress gateways are as before.
  -- The policies of the update stand under their own IDs; the tables and the kernel are arbitrary,
  -- and any insert may fail.
  pub process_acl_rules-has_key :
      (interface_ server other : Text) (allow_all : Bool) (rules : List (Text × AclRule))
      (m : Manager K) (j : Text)
      → IsKeyed rules
      → text_eq server other ≡ false
      → (has_key j (
            fetch_rule_table server
              (process_acl_rules client interface_ server allow_all rules m).acl_rules)
          ≡ has_key j rules)
        × (fetch_rule_table other
              (process_acl_rules client interface_ server allow_all rules m).acl_rules
            ≡ fetch_rule_table other m.acl_rules)
        × ((process_acl_rules client interface_ server allow_all rules m).egress_rules
            ≡ m.egress_rules)
  unfolding process_acl_rules fetch_rule_table save_rules
  process_acl_rules-has_key interface_ server other allow_all rules m j keyed apart =
      let target = if allow_all then target_accept else target_drop in
      let k =
        change_acl_fwd_target client interface_ target
          (change_acl_in_target client interface_ target m.kernel) in
      let s : AclTable × K = (fetch_rule_table server m.acl_rules, k) in
      let t = (update_acl_rules client rules s).0 in
      (
        ground (
          arith,
          has_key-update_acl_rules client rules s j keyed,
          lookup-insert server server t m.acl_rules,
          text_eq_refl server,
        ),
        ground (arith, lookup-insert server other t m.acl_rules, apart),
        refl,
      )
