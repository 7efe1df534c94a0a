-- ===== src/Firewall/Acl/Counted.antt =====
-- firewall/acl.go: the rules in the kernel and the rules that the table records.
use netclient.Prelude.{
  ℕ, ◌+◌, ◌-◌, ◌≡◌, List, [], ◌∷◌, ◌++◌, Bool, true, false, if◌then◌else◌, Option, none, some,
  arith, inl, inr, Bool-cases, Option-cases, ap,
}
use netclient.Text.{Text, text_eq, text_eq_iff, text_eq_refl}
use netclient.Assoc.{
  lookup, insert, remove, has_key, has_key-eq_lookup, lookup-insert, HasDistinctKeys,
}
use netclient.Firewall.Types.{AclRule, RuleInfo, RulesCfg, Iptables, default_ip_table}
use netclient.Firewall.Manager.{AclTable, insert_all, insert_both, delete_all}
use netclient.Firewall.Acl.{no_rules, recorded, rules_of}

module _ (same : RuleInfo → RuleInfo → Bool) where
  abbrev pub one_if_same : RuleInfo → RuleInfo → ℕ
  one_if_same r x = if same r x then 1 else 0

  -- The copies of a rule in a list.
  abbrev pub count_rules : RuleInfo → List RuleInfo → ℕ
  count_rules x [] = 0
  count_rules x (r ∷ rules) = one_if_same r x + count_rules x rules

  -- The copies of a rule that a table records, each policy's under its own ID.
  abbrev pub count_table : RuleInfo → AclTable → ℕ
  count_table x [] = 0
  count_table x ((i, c) ∷ t) = count_rules x (rules_of i c) + count_table x t

  abbrev pub count_entry : RuleInfo → Text → Option (RulesCfg AclRule) → ℕ
  count_entry x i none = 0
  count_entry x i (some c) = count_rules x (rules_of i c)

  pub count_rules-append :
      (x : RuleInfo) (l m : List RuleInfo)
      → count_rules x (l ++ m) ≡ count_rules x l + count_rules x m
  count_rules-append x [] m = omega arith
  count_rules-append x (r ∷ l) m = omega (arith, count_rules-append x l m)

  pub count_table-insert :
      (x : RuleInfo) (i : Text) (c : RulesCfg AclRule) (t : AclTable)
      → count_table x (insert i c t) + count_entry x i (lookup i t)
        ≡ count_table x t + count_rules x (rules_of i c)
  unfolding insert lookup
  count_table-insert x i c [] = omega arith
  count_table-insert x i c ((j, d) ∷ t) = elim (Bool-cases (text_eq j i)) [
    | inl e ↦ rw e (ground (arith, ap (λ y. count_rules x (rules_of y d)) ((text_eq_iff j i).0 e)))
    | inr e ↦ rw e (ground (arith, count_table-insert x i c t))
  ]

  pub count_table-remove :
      (x : RuleInfo) (i : Text) (t : AclTable)
      → HasDistinctKeys t
      → count_table x (remove i t) + count_entry x i (lookup i t) ≡ count_table x t
  unfolding remove lookup
  count_table-remove x i [] h = omega arith
  count_table-remove x i ((j, d) ∷ t) h = elim (Bool-cases (text_eq j i)) [
    | inl e ↦
        let q : j ≡ i = (text_eq_iff j i).0 e in
        let absent : lookup i t ≡ none =
          ground (arith, has_key-eq_lookup i t, h.0, ap (λ y. has_key y t) q) in
        let rest = count_table-remove x i t h.1 in
        rw e (
          ground
            (arith, ap (λ y. count_rules x (rules_of y d)) q, ap (count_entry x i) absent, rest))
    | inr e ↦ rw e (ground (arith, count_table-remove x i t h.1))
  ]

  -- The entry of a policy that had none.
  pub count_table-recorded :
      (x : RuleInfo) (a : AclRule) (rules : List RuleInfo) (t : AclTable)
      → lookup a.id t ≡ none
      → count_table x (recorded a rules (insert a.id no_rules t))
        ≡ count_table x t + count_rules x rules
  unfolding recorded lookup
  count_table-recorded x a [] t h =
      ground (arith, count_table-insert x a.id no_rules t, h, ap (count_entry x a.id) h)
  count_table-recorded x a (r ∷ rules) t h =
      let c : RulesCfg AclRule = record {
        rules_map = (a.id, r ∷ rules) ∷ [];
        extra_info = some a;
      } in
      let t' = insert a.id no_rules t in
      let found : lookup a.id t' ≡ some no_rules =
        ground (arith, lookup-insert a.id a.id no_rules t, text_eq_refl a.id) in
      ground (
        arith,
        count_table-insert x a.id no_rules t,
        count_table-insert x a.id c t',
        ap (count_entry x a.id) h,
        ap (count_entry x a.id) found,
        text_eq_refl a.id,
      )

  module _ {K : Type 0} (client : Iptables K) (count : RuleInfo → K → ℕ)
      (insert_law : (r x : RuleInfo) (k l : K)
        → client.insert_rule r k ≡ some l
        → count x l ≡ count x k + one_if_same r x)
      (delete_law : (r x : RuleInfo) (k : K)
        → count x (client.delete_if_exists r k) ≡ count x k - one_if_same r x) where
    count-insert_all :
        (x : RuleInfo) (v4 : Bool) (chain : Text) (specs : List (List Text)) (k : K)
        → count x (insert_all client v4 chain specs k).1
          ≡ count x k + count_rules x (insert_all client v4 chain specs k).0
    unfolding insert_all
    count-insert_all x v4 chain [] k = omega arith
    count-insert_all x v4 chain (spec ∷ specs) k =
        let r : RuleInfo = record {
          rule = spec;
          is_ipv4 = v4;
          table = default_ip_table;
          chain = chain;
        } in
        elim (Option-cases (client.insert_rule r k)) [
          | inl e ↦ rw (e, insert_all) (count-insert_all x v4 chain specs k)
          | inr (l, e) ↦
              rw (e, insert_all)
                (omega (arith, insert_law r x k l e, count-insert_all x v4 chain specs l))
        ]

    pub count-insert_both :
        (x : RuleInfo) (chain : Text) (specs4 specs6 : List (List Text)) (k : K)
        → count x (insert_both client chain specs4 specs6 k).1
          ≡ count x k + count_rules x (insert_both client chain specs4 specs6 k).0
    unfolding insert_both
    count-insert_both x chain specs4 specs6 k =
        let (rules4, k') = insert_all client true chain specs4 k in
        let (rules6, k'') = insert_all client false chain specs6 k' in
        omega (
          arith,
          count-insert_all x true chain specs4 k,
          count-insert_all x false chain specs6 k',
          count_rules-append x rules4 rules6,
        )

    pub count-delete_all :
        (x : RuleInfo) (rules : List RuleInfo) (k : K)
        → count x (delete_all client rules k) ≡ count x k - count_rules x rules
    unfolding delete_all
    count-delete_all x [] k = omega arith
    count-delete_all x (r ∷ rules) k =
        omega (arith, count-delete_all x rules (client.delete_if_exists r k), delete_law r x k)
