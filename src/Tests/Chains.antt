-- ===== src/Tests/Chains.antt =====
-- firewall/: the chains of the kernel at concrete inputs.
use netclient.Prelude.{
  ◌≡◌, ◌≢◌, refl, List, [], ◌∷◌, ◌++◌, map, Bool, true, false, ◌&&◌, none, some, if◌then◌else◌,
  arith, All,
}
use netclient.Text.{Text, codes, text_eq, text_eq_refl}
use netclient.Sets.{mem}
use netclient.Firewall.Types.{RuleInfo, Iptables}
use netclient.Firewall.Kernel.{ChainClient, or_same}
use netclient.Firewall.Chains.{netmaker_chains, create_chains, fields}
use netclient.Firewall.Chains.Created.{ChainLaws, create_chains-AllStand}
use netclient.Firewall.Chains.Flush.{listed_rule}
use netclient.Firewall.Chains.Unsigned.{Place, same_family, same_place, ListLaws}

-- A client whose calls succeed and change nothing.
abbrev pub plain_rules : (K : Type 0) → Iptables K
plain_rules K = record {
  insert_rule = λ r k. some k;
  delete_if_exists = λ r k. k;
  append_rule = λ r k. k;
  exists_rule = λ r k. false;
}

abbrev pub plain : (K : Type 0) → ChainClient K
plain K = record {
  rules = plain_rules K;
  append = λ r k. some k;
  append_unique = λ r k. some k;
  insert_unique = λ n r k. some k;
  exists = λ r k. some false;
  delete = λ r k. some k;
  list = λ v t c k. some [];
  list_chains = λ v t k. some [];
  chain_exists = λ v t c k. some false;
  new_chain = λ v t c k. some k;
  clear_chain = λ v t c k. k;
  delete_chain = λ v t c k. k;
  clear_and_delete_chain = λ v t c k. k;
  change_policy = λ v t c target k. k;
}

-- A kernel that is the list of its chains.
abbrev names : Bool → Text → List Place → List Text
names v t [] = []
names v t ((v', t', c) ∷ k) =
    let rest = names v t k in if same_family v' v && text_eq t' t then c ∷ rest else rest

abbrev chains : ChainClient (List Place)
chains = record (plain (List Place)) {
  list_chains = λ v t k. some (names v t k);
  new_chain = λ v t c k. some ((v, t, c) ∷ k);
}

abbrev stands : Bool → Text → Text → List Place → Bool
stands v t c k = mem c (names v t k)

same_family_refl : (v : Bool) → same_family v v ≡ true
same_family_refl true = refl
same_family_refl false = refl

new_law :
    (v : Bool) (t c : Text) (k l : List Place)
    → chains.new_chain v t c k ≡ some l
    → stands v t c l ≡ true
unfolding mem
new_law v t c k l e =
    let made : stands v t c ((v, t, c) ∷ k) ≡ true =
      ground (arith, same_family_refl v, text_eq_refl t, text_eq_refl c) in
    ground (arith, e, made)

new_keeps :
    (v : Bool) (t c : Text) (k l : List Place) (v' : Bool) (t' c' : Text)
    → chains.new_chain v t c k ≡ some l
    → stands v' t' c' k ≡ true
    → stands v' t' c' l ≡ true
unfolding mem
new_keeps v t c k l v' t' c' e h =
    let made : stands v' t' c' ((v, t, c) ∷ k) ≡ true = ground (arith, h) in ground (arith, e, made)

names_law :
    (v : Bool) (t c : Text) (cs : List Text) (k : List Place)
    → chains.list_chains v t k ≡ some cs
    → mem c cs ≡ stands v t c k
names_law v t c cs k e = ground (arith, e)

same_state :
    (v : Bool) (t c : Text) (k l : List Place)
    → some k ≡ some l
    → stands v t c k ≡ true
    → stands v t c l ≡ true
same_state v t c k l e h = ground (arith, e, h)

abbrev chain_laws : ChainLaws chains stands
chain_laws = record {
  list_law = names_law;
  new_law = new_law;
  new_keeps = new_keeps;
  append_keeps = λ r k l v t c e h. same_state v t c k l e h;
  insert_keeps = λ r k l v t c e h. same_state v t c k l e h;
  insert_unique_keeps = λ n r k l v t c e h. same_state v t c k l e h;
}

create_chains-AllStand_example :
    let (l, failed) = create_chains chains (codes "netmaker") (some (codes "51821")) [] in
    ((v : Bool) (t c : Text) → stands v t c [] ≡ true → stands v t c l ≡ true)
    × (failed ≡ false
        → All (λ p. stands true p.0 p.1 l ≡ true) netmaker_chains
          × All (λ p. stands false p.0 p.1 l ≡ true) netmaker_chains)
create_chains-AllStand_example =
    create_chains-AllStand chains stands chain_laws (codes "netmaker") (some (codes "51821")) []

create_chains_run : (create_chains chains (codes "netmaker") none []).1 ≡ false
unfolding create_chains netclient.Firewall.Chains.create_each netclient.Firewall.Chains.create_chain
    mem text_eq
create_chains_run = refl

-- A kernel whose rules are of netmaker or of another program.
abbrev Rules : Type 0
Rules = Place → List Bool

abbrev print : Bool → Text
print true = codes "-A FORWARD -j NETMAKER-ACL-FWD -m comment --comment NETMAKER"
print false = codes "-A FORWARD -j DOCKER"

abbrev is_signed : RuleInfo → Bool
is_signed r = mem (codes "NETMAKER") r.rule

abbrev remove_first : Bool → List Bool → List Bool
remove_first w [] = []
remove_first w (x ∷ l) = if same_family x w then l else x ∷ remove_first w l

abbrev rule_client : ChainClient Rules
rule_client = record (plain Rules) {
  list = λ v t c k. some (map print (k (v, t, c)));
  delete = λ r k. some (λ q.
      if same_place (r.is_ipv4, r.table, r.chain) q then remove_first (is_signed r) (k q) else k q);
}

is_signed_lem : (p : Place) (w : Bool) → is_signed (listed_rule p.0 p.1 p.2 (print w)) ≡ w
unfolding mem fields netclient.Firewall.Chains.non_empty netclient.Text.split text_eq
is_signed_lem p true = refl
is_signed_lem p false = refl

same_place_refl : (p : Place) → same_place p p ≡ true
unfolding same_place
same_place_refl (v, t, c) = ground (arith, same_family_refl v, text_eq_refl t, text_eq_refl c)

remove_first_lem :
    (w : Bool) (before after : List Bool)
    → All (λ b. b ≢ w) before
    → remove_first w (before ++ w ∷ after) ≡ before ++ after
remove_first_lem w [] after h = ground (arith, same_family_refl w)
remove_first_lem true (true ∷ before) after h = absurd (h.0 refl)
remove_first_lem true (false ∷ before) after h =
    ground (arith, remove_first_lem true before after h.1)
remove_first_lem false (true ∷ before) after h =
    ground (arith, remove_first_lem false before after h.1)
remove_first_lem false (false ∷ before) after h = absurd (h.0 refl)

deleted :
    (p : Place) (w : Bool) (before after : List Bool) (k : Rules)
    → k p ≡ before ++ w ∷ after
    → All (λ b. b ≢ w) before
    → or_same (rule_client.delete (listed_rule p.0 p.1 p.2 (print w)) k) k p ≡ before ++ after
deleted p w before after k e h =
    rw (same_place_refl p, is_signed_lem p w, e) (remove_first_lem w before after h)

others :
    (p q : Place) (w : Bool) (k : Rules)
    → same_place p q ≡ false
    → or_same (rule_client.delete (listed_rule p.0 p.1 p.2 (print w)) k) k q ≡ k q
others p q w k h = rw h refl

abbrev rule_laws : ListLaws rule_client print (λ p k. k p)
rule_laws = record { list_law = λ p k. refl; delete_law = deleted; delete_others = others }

abbrev some_rules : Rules
some_rules q = true ∷ false ∷ true ∷ []
