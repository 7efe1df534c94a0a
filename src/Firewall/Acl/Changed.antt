-- ===== src/Firewall/Acl/Changed.antt =====
-- firewall/acl.go: what ProcessAclRules takes for an update of a policy.
use netclient.Prelude.{
  ◌≡◌, ◌↔◌, List, [], ◌∷◌, true, false, none, some, arith, ==_iff, ◌==◌, length, ap,
}
use netclient.Text.{Text, text_eq_iff}
use netclient.Firewall.Types.{AclRule, Net}
use netclient.Firewall.Acl.{acl_rule_changed, same_net, same_nets, same_texts}

same_net_iff : (n m : Net) → (same_net n m ≡ true) ↔ (n ≡ m)
unfolding same_net
same_net_iff none none = ground arith
same_net_iff none (some b) = ground arith
same_net_iff (some a) none = ground arith
same_net_iff (some a) (some b) = ground (arith, text_eq_iff a b)

same_nets_iff : (l m : List Net) → (same_nets l m ≡ true) ↔ (l ≡ m)
unfolding same_nets
same_nets_iff [] [] = ground arith
same_nets_iff [] (b ∷ m) = ground arith
same_nets_iff (a ∷ l) [] = ground arith
same_nets_iff (a ∷ l) (b ∷ m) = ground (arith, same_net_iff a b, same_nets_iff l m)

pub same_texts_iff : (l m : List Text) → (same_texts l m ≡ true) ↔ (l ≡ m)
unfolding same_texts
same_texts_iff [] [] = ground arith
same_texts_iff [] (b ∷ m) = ground arith
same_texts_iff (a ∷ l) [] = ground arith
same_texts_iff (a ∷ l) (b ∷ m) = ground (arith, text_eq_iff a b, same_texts_iff l m)

same_length : {A : Type 0} (l m : List A) → l ≡ m → (length l == length m) ≡ true
same_length l m e = (==_iff (length l) (length m)).1 (ap length e)

-- The fields of two policies that their rules depend on, and the direction, are the same.
abbrev pub IsSamePolicy : AclRule → AclRule → Type 0
IsSamePolicy old new =
    (old.ip_list ≡ new.ip_list)
    × (old.ip6_list ≡ new.ip6_list)
    × (old.dst ≡ new.dst)
    × (old.dst6 ≡ new.dst6)
    × (old.allowed_ports ≡ new.allowed_ports)
    × (old.allowed_protocol ≡ new.allowed_protocol)
    × (old.direction ≡ new.direction)

-- ProcessAclRules takes a policy for updated exactly when one of its networks, destinations, ports,
-- its protocol or its direction is not what it was.
pub acl_rule_changed_iff :
    (old new : AclRule) → (acl_rule_changed old new ≡ false) ↔ IsSamePolicy old new
unfolding acl_rule_changed
acl_rule_changed_iff old new = ground (
  arith,
  same_nets_iff old.ip_list new.ip_list,
  same_nets_iff old.ip6_list new.ip6_list,
  same_nets_iff old.dst new.dst,
  same_nets_iff old.dst6 new.dst6,
  same_texts_iff old.allowed_ports new.allowed_ports,
  text_eq_iff new.allowed_protocol old.allowed_protocol,
  ==_iff old.direction new.direction,
  same_length old.ip_list new.ip_list,
  same_length old.ip6_list new.ip6_list,
  same_length old.dst new.dst,
  same_length old.dst6 new.dst6,
  same_length old.allowed_ports new.allowed_ports,
)
