-- ===== src/Firewall/Acl/Fresh.antt =====
-- firewall/acl.go: policies without an entry, as AddAclRules finds them.
use netclient.Prelude.{◌≡◌, refl, List, [], ◌∷◌, false, arith, All}
use netclient.Text.{Text, text_eq_comm}
use netclient.Assoc.{has_key}
use netclient.Firewall.Types.{AclRule, Iptables}
use netclient.Firewall.Manager.{AclTable}
use netclient.Firewall.Acl.{add_acl_rule}
use netclient.Firewall.Acl.Tables.{has_key-add_acl_rule}

-- None of the policies has an entry.
abbrev pub AreFresh : List (Text × AclRule) → AclTable → Type 0
AreFresh rules t = All (λ r. has_key r.0 t ≡ false) rules

pub fresh_in_empty : (rules : List (Text × AclRule)) → AreFresh rules []
unfolding has_key
fresh_in_empty [] = tt
fresh_in_empty (r ∷ rules) = (refl, fresh_in_empty rules)

module _ {K : Type 0} (client : Iptables K) where
  pub fresh-add_acl_rule :
      (a : AclRule) (rules : List (Text × AclRule)) (s : AclTable × K)
      → has_key a.id rules ≡ false
      → AreFresh rules s.0
      → AreFresh rules (add_acl_rule client a s).0
  unfolding has_key
  fresh-add_acl_rule a [] s h f = tt
  fresh-add_acl_rule a ((i, b) ∷ rules) s h f = (
    ground (arith, has_key-add_acl_rule client i a s, f.0, h, text_eq_comm i a.id),
    fresh-add_acl_rule a rules s (ground (arith, h)) f.1,
  )
