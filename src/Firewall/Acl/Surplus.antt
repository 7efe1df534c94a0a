-- ===== src/Firewall/Acl/Surplus.antt =====
-- firewall/acl.go: the update keeps the kernel's rules in step with the table.
use netclient.Prelude.{
  ℕ, ◌+◌, ◌-◌, ◌≡◌, List, [], ◌∷◌, Bool, false, none, some, arith, inl, inr, Bool-cases,
  Option-cases, ap,
}
use netclient.Text.{Text, text_eq_refl}
use netclient.Assoc.{
  lookup, has_key, keys, has_key-eq_lookup, lookup-remove, HasDistinctKeys, HasDistinctKeys-insert,
  HasDistinctKeys-remove,
}
use netclient.Firewall.Types.{
  AclRule, RuleInfo, RulesCfg, Iptables, acl_input_rules_chain, zero_acl_rule,
}
use netclient.Firewall.Manager.{AclTable, insert_both}
use netclient.Firewall.Acl.{
  no_rules, recorded, rules_of, add_acl_rule, add_each, upsert_acl_rule, delete_acl_rule,
  process_acl_rule, process_each, delete_stale, update_acl_rules, updated_specs, updated_specs6,
  added_specs, acl_rule_changed,
}
use netclient.Firewall.Acl.Fresh.{AreFresh, fresh_in_empty, fresh-add_acl_rule}
use netclient.Firewall.Acl.Tables.{IsKeyed}
use netclient.Firewall.Acl.Counted.{
  one_if_same, count_table, count_entry, count_table-remove, count_table-recorded,
  count-insert_both, count-delete_all,
}

distinct-recorded :
    (a : AclRule) (rules : List RuleInfo) (t : AclTable)
    → HasDistinctKeys t
    → HasDistinctKeys (recorded a rules t)
unfolding recorded
distinct-recorded a [] t d = d
distinct-recorded a (r ∷ rules) t d = HasDistinctKeys-insert a.id _ t d

module _ (same : RuleInfo → RuleInfo → Bool) where
  module _ {K : Type 0} (client : Iptables K) (count : RuleInfo → K → ℕ)
      (insert_law : (r x : RuleInfo) (k l : K)
        → client.insert_rule r k ≡ some l
        → count x l ≡ count x k + one_if_same same r x)
      (delete_law : (r x : RuleInfo) (k : K)
        → count x (client.delete_if_exists r k) ≡ count x k - one_if_same same r x) where
    -- `n` copies of the rule stand in the kernel besides those that the table records.
    abbrev pub Surplus : RuleInfo → ℕ → AclTable × K → Type 0
    Surplus x n s = count x s.1 ≡ n + count_table same x s.0

    Surplus-upsert_acl_rule :
        (x : RuleInfo) (n : ℕ) (a : AclRule) (s : AclTable × K)
        → lookup a.id s.0 ≡ none
        → Surplus x n s
        → Surplus x n (upsert_acl_rule client a s)
    unfolding upsert_acl_rule
    Surplus-upsert_acl_rule x n a s h q =
        let specs4 = updated_specs a a.ip_list a.dst in
        let specs6 = updated_specs6 a a.ip6_list a.dst6 in
        let (rules, k) = insert_both client acl_input_rules_chain specs4 specs6 s.1 in
        omega (
          arith,
          q,
          count_table-recorded same x a rules s.0 h,
          count-insert_both same client count insert_law delete_law x acl_input_rules_chain specs4
              specs6 s.1,
        )

    Surplus-delete_acl_rule :
        (x : RuleInfo) (n : ℕ) (i : Text) (s : AclTable × K)
        → HasDistinctKeys s.0
        → Surplus x n s
        → Surplus x n (delete_acl_rule client i s)
    unfolding delete_acl_rule
    Surplus-delete_acl_rule x n i s d q = elim (Option-cases (lookup i s.0)) [
      | inl e ↦ rw (e, delete_acl_rule) q
      | inr (c, e) ↦
          rw (e, delete_acl_rule)
            (omega (
              arith,
              q,
              count_table-remove same x i s.0 d,
              ap (count_entry same x i) e,
              count-delete_all same client count insert_law delete_law x (rules_of i c) s.1,
            ))
    ]

    Surplus-add_acl_rule :
        (x : RuleInfo) (n : ℕ) (a : AclRule) (s : AclTable × K)
        → has_key a.id s.0 ≡ false
        → Surplus x n s
        → Surplus x n (add_acl_rule client a s)
    unfolding add_acl_rule
    Surplus-add_acl_rule x n a s h q =
        let specs4 = added_specs a a.ip_list a.dst in
        let specs6 = added_specs a a.ip6_list a.dst6 in
        let (rules, k) = insert_both client acl_input_rules_chain specs4 specs6 s.1 in
        let absent : lookup a.id s.0 ≡ none = ground (arith, has_key-eq_lookup a.id s.0, h) in
        rw h (
          omega (
            arith,
            q,
            count_table-recorded same x a rules s.0 absent,
            count-insert_both same client count insert_law delete_law x acl_input_rules_chain specs4
                specs6 s.1,
          ))

    lookup-delete_acl_rule :
        (i : Text) (s : AclTable × K) → lookup i (delete_acl_rule client i s).0 ≡ none
    unfolding delete_acl_rule
    lookup-delete_acl_rule i s = elim (Option-cases (lookup i s.0)) [
      | inl e ↦ rw (e, delete_acl_rule) e
      | inr (c, e) ↦ rw (e, delete_acl_rule) (ground (arith, lookup-remove i i s.0, text_eq_refl i))
    ]

    Surplus-process_acl_rule :
        (x : RuleInfo) (n : ℕ) (a : AclRule) (s : AclTable × K)
        → HasDistinctKeys s.0
        → Surplus x n s
        → Surplus x n (process_acl_rule client a s)
    unfolding process_acl_rule
    Surplus-process_acl_rule x n a s d q = elim (Option-cases (lookup a.id s.0)) [
      | inl e ↦ rw (e, process_acl_rule) (Surplus-upsert_acl_rule x n a s e q)
      | inr (c, e) ↦
          rw (e, process_acl_rule)
            (elim (Bool-cases (acl_rule_changed (known c) a)) [
              | inl e' ↦ rw e' (
                  Surplus-upsert_acl_rule x n a (delete_acl_rule client a.id s)
                    (lookup-delete_acl_rule a.id s) (Surplus-delete_acl_rule x n a.id s d q))
              | inr e' ↦ rw e' q
            ])
    ]
      where
        known : RulesCfg AclRule → AclRule
        known c = elim c.extra_info [ none ↦ zero_acl_rule | some o ↦ o ]

    distinct-upsert_acl_rule :
        (a : AclRule) (s : AclTable × K)
        → HasDistinctKeys s.0
        → HasDistinctKeys (upsert_acl_rule client a s).0
    unfolding upsert_acl_rule
    distinct-upsert_acl_rule a s d =
        distinct-recorded a _ _ (HasDistinctKeys-insert a.id no_rules s.0 d)

    distinct-delete_acl_rule :
        (i : Text) (s : AclTable × K)
        → HasDistinctKeys s.0
        → HasDistinctKeys (delete_acl_rule client i s).0
    unfolding delete_acl_rule
    distinct-delete_acl_rule i s d = elim (Option-cases (lookup i s.0)) [
      | inl e ↦ rw (e, delete_acl_rule) d
      | inr (c, e) ↦ rw (e, delete_acl_rule) (HasDistinctKeys-remove i s.0 d)
    ]

    distinct-process_acl_rule :
        (a : AclRule) (s : AclTable × K)
        → HasDistinctKeys s.0
        → HasDistinctKeys (process_acl_rule client a s).0
    unfolding process_acl_rule
    distinct-process_acl_rule a s d = elim (Option-cases (lookup a.id s.0)) [
      | inl e ↦ rw (e, process_acl_rule) (distinct-upsert_acl_rule a s d)
      | inr (c, e) ↦
          rw (e, process_acl_rule)
            (elim (Bool-cases (acl_rule_changed (known c) a)) [
              | inl e' ↦ rw e' (
                  distinct-upsert_acl_rule a (delete_acl_rule client a.id s)
                    (distinct-delete_acl_rule a.id s d))
              | inr e' ↦ rw e' d
            ])
    ]
      where
        known : RulesCfg AclRule → AclRule
        known c = elim c.extra_info [ none ↦ zero_acl_rule | some o ↦ o ]

    Surplus-process_each :
        (x : RuleInfo) (n : ℕ) (rules : List (Text × AclRule)) (s : AclTable × K)
        → HasDistinctKeys s.0
        → Surplus x n s
        → HasDistinctKeys (process_each client rules s).0
          × Surplus x n (process_each client rules s)
    unfolding process_each
    Surplus-process_each x n [] s d q = (d, q)
    Surplus-process_each x n ((i, a) ∷ rules) s d q =
        Surplus-process_each x n rules (process_acl_rule client a s)
          (distinct-process_acl_rule a s d) (Surplus-process_acl_rule x n a s d q)

    Surplus-delete_stale :
        (x : RuleInfo) (n : ℕ) (ids : List Text) (rules : List (Text × AclRule)) (s : AclTable × K)
        → HasDistinctKeys s.0
        → Surplus x n s
        → Surplus x n (delete_stale client ids rules s)
    unfolding delete_stale
    Surplus-delete_stale x n [] rules s d q = q
    Surplus-delete_stale x n (i ∷ ids) rules s d q = elim (Bool-cases (has_key i rules)) [
      | inl e ↦ rw (e, delete_stale) (Surplus-delete_stale x n ids rules s d q)
      | inr e ↦
          rw (e, delete_stale)
            (Surplus-delete_stale x n ids rules (delete_acl_rule client i s)
              (distinct-delete_acl_rule i s d) (Surplus-delete_acl_rule x n i s d q))
    ]

    Surplus-add_each :
        (x : RuleInfo) (n : ℕ) (rules : List (Text × AclRule)) (s : AclTable × K)
        → IsKeyed rules
        → HasDistinctKeys rules
        → AreFresh rules s.0
        → Surplus x n s
        → Surplus x n (add_each client rules s)
    unfolding add_each
    Surplus-add_each x n [] s keyed d f q = q
    Surplus-add_each x n ((i, a) ∷ rules) s keyed d f q =
        let absent : has_key a.id s.0 ≡ false = rw keyed.0 at f.0 in
        Surplus-add_each x n rules (add_acl_rule client a s) keyed.1 d.1
          (fresh-add_acl_rule client a rules s (rw keyed.0 at d.0) f.1)
          (Surplus-add_acl_rule x n a s absent q)

    -- If the kernel has `n` copies of a rule besides those that the table records, it has as many
    -- besides those that the table records behind ProcessAclRules' update of the policies: no rule
    -- is left behind, none is recorded that is not there, and no other rule comes or goes. An insert
    -- that succeeds adds one copy to the kernel and a removal takes one away, if there is one. The
    -- update has each policy once and under its own ID, and the table each key once; inserts may
    -- fail.
    pub Surplus-update_acl_rules :
        (x : RuleInfo) (n : ℕ) (rules : List (Text × AclRule)) (s : AclTable × K)
        → IsKeyed rules
        → HasDistinctKeys rules
        → HasDistinctKeys s.0
        → Surplus x n s
        → Surplus x n (update_acl_rules client rules s)
    unfolding update_acl_rules process_each
    Surplus-update_acl_rules x n [] ([], k) keyed d e q = Surplus-delete_stale x n [] [] ([], k) e q
    Surplus-update_acl_rules x n (r ∷ rules) ([], k) keyed d e q =
        Surplus-add_each x n (r ∷ rules) ([], k) keyed d (fresh_in_empty (r ∷ rules)) q
    Surplus-update_acl_rules x n rules (c ∷ t, k) keyed d e q =
        let s = process_each client rules (c ∷ t, k) in
        let (e', q') = Surplus-process_each x n rules (c ∷ t, k) e q in
        Surplus-delete_stale x n (keys s.0) rules s e' q'
