-- ===== src/Firewall/Nft/SameKey.antt =====
-- firewall/nftables_linux.go: UpsertAclRule for the destinations of IPv6, whose keys do not name the
-- destination.
use netclient.Prelude.{
  ℕ, ◌+◌, ◌-◌, ◌≤◌, ◌≡◌, List, [], ◌∷◌, false, Option, none, some, arith, length, length-append,
  if◌then◌else◌, map,
}
use netclient.Text.{Text, text_eq, text_eq_refl}
use netclient.Firewall.Types.{Net, AclRule, RuleInfo, default_ip_table, acl_input_rules_chain}
use netclient.Firewall.Specs.{net_string}
use netclient.Firewall.Nft.Expressions.{NetBytes, accept_exprs}
use netclient.Firewall.Nft.{
  NftRule, NftClient, gen_rule_key, nft_spec, insert_accept, insert_destinations,
}

-- How many rules have a key.
abbrev pub count_key : Text → List Text → ℕ
count_key key [] = 0
count_key key (k ∷ keys) = (if text_eq k key then 1 else 0) + count_key key keys

-- The key of each rule of a source in IPv6.
abbrev pub key_of : Net → AclRule → Text
key_of source a = gen_rule_key (nft_spec false (net_string source) none a)

module _ {K : Type 0} (client : NftClient K) (keys : K → List Text) where
  -- A deletion takes one rule with the key out, where there is one; an insertion that succeeds
  -- adds its own; and insertions succeed.
  abbrev pub Deletes : Type 0
  Deletes =
      (key : Text) (k : K)
      → count_key key (keys (client.delete_rule acl_input_rules_chain key k))
        ≡ count_key key (keys k) - 1

  abbrev pub Inserts : Type 0
  Inserts =
      (r : NftRule) (k : K)
      → (k' : K) × (client.insert_rule r k ≡ some k') × (keys k' ≡ r.key ∷ keys k)

  module _ (net : NetBytes) (atoi : Text → Option ℕ) (a : AclRule) (source : Net) where
    abbrev rule_for : Text → NftRule
    rule_for d = record {
      chain = acl_input_rules_chain;
      exprs = accept_exprs net atoi false a source (some d);
      key = key_of source a;
    }

    abbrev info_for : RuleInfo
    info_for = record {
      rule = nft_spec false (net_string source) none a;
      is_ipv4 = false;
      table = default_ip_table;
      chain = acl_input_rules_chain;
    }

    -- A step of the loop: the rule of the step before is gone.
    insert_accept-same :
        (d : Text) (s : List RuleInfo × K)
        → Deletes
        → Inserts
        → count_key (key_of source a) (keys s.1) ≤ 1
        → (count_key
              (key_of source a)
              (keys (insert_accept client net atoi false false a source (some d) s).1)
            ≡ 1)
          × (length (insert_accept client net atoi false false a source (some d) s).0
              ≡ length s.0 + 1)
    unfolding insert_accept nft_spec
    insert_accept-same d (rules, k) deletes inserts h =
        let (k', e, q) =
          inserts (rule_for d) (client.delete_rule acl_input_rules_chain (key_of source a) k) in
        ground (
          arith,
          e,
          q,
          deletes (key_of source a) k,
          h,
          text_eq_refl (key_of source a),
          length-append rules (info_for ∷ []),
        )

    insert_destinations-same :
        (dsts : List Text) (s : List RuleInfo × K)
        → Deletes
        → Inserts
        → count_key (key_of source a) (keys s.1) ≤ 1
        → (count_key
              (key_of source a)
              (keys (insert_destinations client net atoi false false a source (map some dsts) s).1)
            ≤ 1)
          × (length (insert_destinations client net atoi false false a source (map some dsts) s).0
              ≡ length s.0 + length dsts)
    unfolding insert_destinations
    insert_destinations-same [] s deletes inserts h = (h, omega arith)
    insert_destinations-same (d ∷ dsts) s deletes inserts h =
        let (one, longer) = insert_accept-same d s deletes inserts h in
        let s' = insert_accept client net atoi false false a source (some d) s in
        let (few, all) = insert_destinations-same dsts s' deletes inserts (ground (arith, one)) in
        (few, omega (arith, all, longer))

    -- UpsertAclRule for a source and its destinations in IPv6, where the calls of nftables succeed:
    -- each destination is recorded with a rule, and the chain has the rule of no more than one of
    -- them, since their keys are the same and each takes the one before it away.
    pub insert_destinations-one_rule :
        (dsts : List Text) (k : K)
        → Deletes
        → Inserts
        → count_key (key_of source a) (keys k) ≡ 0
        → (count_key (key_of source a) (
              keys
                (insert_destinations client net atoi false false a source
                  (map some dsts)
                  ([], k)).1)
            ≤ 1)
          × (length
                (insert_destinations client net atoi false false a source (map some dsts) ([], k)).0
              ≡ length dsts)
    insert_destinations-one_rule dsts k deletes inserts h =
        let (few, all) = insert_destinations-same dsts ([], k) deletes inserts (omega (arith, h)) in
        (few, omega (arith, all))
