-- ===== src/Tests/Nft.antt =====
-- The nftables implementation and the map of servers at concrete inputs.
use netclient.Prelude.{
  ℕ, ◌-◌, ◌≤◌, ◌≡◌, refl, List, [], ◌∷◌, true, false, Option, none, some, arith, length, map, ◌==◌,
  if◌then◌else◌, Bool-cases, inl, inr,
}
use netclient.Text.{Text, codes, text_eq}
use netclient.Firewall.Types.{AclRule, zero_acl_rule}
use netclient.Firewall.Nft.Expressions.{NetBytes, Packet, accept_exprs, accepts}
use netclient.Firewall.Nft.Conflict.{accept_exprs-conflict}
use netclient.Firewall.Nft.{NftClient, insert_destinations}
use netclient.Firewall.Nft.SameKey.{count_key, key_of, Inserts, insert_destinations-one_rule}

-- A chain is the keys of its rules.
abbrev drop_key : Text → List Text → List Text
drop_key key [] = []
drop_key key (k ∷ keys) = if text_eq k key then keys else k ∷ drop_key key keys

abbrev client : NftClient (List Text)
client = record {
  insert_rule = λ r keys. some (r.key ∷ keys);
  delete_rule = λ chain key keys. drop_key key keys;
}

abbrev keys_of : List Text → List Text
keys_of keys = keys

count-drop_key :
    (key : Text) (keys : List Text) → count_key key (drop_key key keys) ≡ count_key key keys - 1
count-drop_key key [] = refl
count-drop_key key (k ∷ keys) = elim (Bool-cases (text_eq k key)) [
  | inl e ↦ ground (arith, e)
  | inr e ↦ ground (arith, e, count-drop_key key keys)
]

client-Inserts : Inserts client keys_of
client-Inserts r keys = (r.key ∷ keys, refl, refl)

abbrev net : NetBytes
net = record {
  to4 = λ n. some (10 ∷ 0 ∷ 0 ∷ 0 ∷ []);
  to16 = λ n. none;
  mask = λ n. 255 ∷ 0 ∷ 0 ∷ 0 ∷ [];
}

abbrev atoi : Text → Option ℕ
atoi t = if text_eq t (codes "80") then some 80 else some 443

abbrev web : AclRule
web = record zero_acl_rule {
  id = codes "p1";
  allowed_protocol = codes "tcp";
  allowed_ports = codes "80" ∷ codes "443" ∷ [];
}

abbrev lan : Option Text
lan = some (codes "10.0.0.0/8")

-- A TCP packet from 10.0.0.0 to port 80.
abbrev packet : Packet
packet = record {
  field = λ base offset len.
      if offset == 12 then 10 ∷ 0 ∷ 0 ∷ 0 ∷ [] else if offset == 9 then 6 ∷ [] else 0 ∷ 80 ∷ [];
  masked = λ mask reg. reg;
}

accept_exprs-conflict_example : accepts packet [] (accept_exprs net atoi true web lan none) ≡ false
unfolding netclient.Text.contains text_eq
accept_exprs-conflict_example =
    accept_exprs-conflict net atoi true web lan none (codes "80") (codes "443") 80 443 packet []
      (inl refl) (inr (inl refl)) (refl, refl) (refl, refl) (omega arith)

-- With one of the two ports the rule accepts the packet.
one_port_run :
    accepts packet []
      (accept_exprs net atoi true (record web { allowed_ports = codes "80" ∷ [] }) lan none)
    ≡ true
unfolding accepts accept_exprs netclient.Firewall.Nft.Expressions.get_ip_expr text_eq
    netclient.Firewall.Nft.Expressions.get_expr_for_proto
    netclient.Firewall.Nft.Expressions.protocol_number
    netclient.Firewall.Nft.Expressions.get_expr_for_port
    netclient.Firewall.Nft.Expressions.port_exprs netclient.Text.contains
    netclient.Firewall.Nft.Expressions.port_bytes
one_port_run = refl

abbrev sites : List Text
sites = codes "fd00:1::/64" ∷ codes "fd00:2::/64" ∷ []

insert_destinations-one_rule_example :
    (count_key
        (key_of lan web)
        (insert_destinations client net atoi false false web lan (map some sites) ([], [])).1
      ≤ 1)
    × (length (insert_destinations client net atoi false false web lan (map some sites) ([], [])).0
        ≡ length sites)
insert_destinations-one_rule_example =
    insert_destinations-one_rule client keys_of net atoi web lan sites [] count-drop_key
      client-Inserts refl
