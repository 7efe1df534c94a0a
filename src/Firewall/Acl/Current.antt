-- ===== src/Firewall/Acl/Current.antt =====
-- firewall/acl.go: the entry of one policy, and the steps that leave it alone.
use netclient.Prelude.{
  ◌≡◌, refl, List, [], ◌∷◌, true, false, Option, none, some, arith, inl, inr, ◌⊎◌, Bool-cases,
  Option-cases, ap, ◌∙◌,
}
use netclient.Text.{Text, text_eq, text_eq_iff, text_eq_refl}
use netclient.Assoc.{lookup, insert, has_key, lookup-insert, lookup-remove, HasDistinctKeys}
use netclient.Firewall.Types.{AclRule, RuleInfo, RulesCfg, Iptables, zero_acl_rule}
use netclient.Firewall.Manager.{AclTable}
use netclient.Firewall.Acl.{
  no_rules, recorded, add_acl_rule, add_each, upsert_acl_rule, delete_acl_rule, process_acl_rule,
  process_each, delete_stale, acl_rule_changed,
}
use netclient.Firewall.Acl.Changed.{IsSamePolicy, acl_rule_changed_iff}
use netclient.Firewall.Acl.Tables.{IsKeyed}
use netclient.Firewall.Acl.Fresh.{AreFresh, fresh-add_acl_rule}

-- The entry of a policy: it has no rules, or it is that of a policy with the same fields.
abbrev pub IsCurrent : AclRule → Option (RulesCfg AclRule) → Type 0
IsCurrent a none = ⊥
IsCurrent a (some c) =
    (c.extra_info ≡ none) ⊎ ((o : AclRule) × (c.extra_info ≡ some o) × IsSamePolicy o a)

same_policy : (a : AclRule) → IsSamePolicy a a
same_policy a = (refl, refl, refl, refl, refl, refl, refl)

module _ {K : Type 0} (client : Iptables K) where
  upsert-IsCurrent :
      (a : AclRule) (rules : List RuleInfo) (t : AclTable)
      → IsCurrent a (lookup a.id (recorded a rules (insert a.id no_rules t)))
  unfolding recorded
  upsert-IsCurrent a [] t =
      rw (lookup-insert a.id a.id no_rules t) (rw (text_eq_refl a.id) (inl refl))
  upsert-IsCurrent a (r ∷ rules) t =
      rw
        (lookup-insert a.id a.id
          (record { rules_map = (a.id, r ∷ rules) ∷ []; extra_info = some a })
          (insert a.id no_rules t))
        (rw (text_eq_refl a.id) (inr (a, refl, same_policy a)))

  lookup-recorded :
      (j : Text) (a : AclRule) (rules : List RuleInfo) (t : AclTable)
      → text_eq a.id j ≡ false
      → lookup j (recorded a rules t) ≡ lookup j t
  unfolding recorded
  lookup-recorded j a [] t h = refl
  lookup-recorded j a (r ∷ rules) t h = ground (
    arith,
    h,
    lookup-insert a.id j (record { rules_map = (a.id, r ∷ rules) ∷ []; extra_info = some a }) t,
  )

  lookup-upsert_acl_rule :
      (j : Text) (a : AclRule) (s : AclTable × K)
      → text_eq a.id j ≡ false
      → lookup j (upsert_acl_rule client a s).0 ≡ lookup j s.0
  unfolding upsert_acl_rule
  lookup-upsert_acl_rule j a s h =
      rw (lookup-recorded j a _ (insert a.id no_rules s.0) h)
        (ground (arith, h, lookup-insert a.id j no_rules s.0))

  lookup-delete_acl_rule :
      (j i : Text) (s : AclTable × K)
      → text_eq i j ≡ false
      → lookup j (delete_acl_rule client i s).0 ≡ lookup j s.0
  unfolding delete_acl_rule
  lookup-delete_acl_rule j i s h = elim (Option-cases (lookup i s.0)) [
    | inl e ↦ rw (e, delete_acl_rule) refl
    | inr (c, e) ↦ rw (e, delete_acl_rule) (ground (arith, h, lookup-remove i j s.0))
  ]

  pub process_acl_rule-IsCurrent :
      (a : AclRule) (s : AclTable × K) → IsCurrent a (lookup a.id (process_acl_rule client a s).0)
  unfolding process_acl_rule upsert_acl_rule
  process_acl_rule-IsCurrent a s = elim (Option-cases (lookup a.id s.0)) [
    | inl e ↦ rw (e, process_acl_rule) (upsert-IsCurrent a _ s.0)
    | inr (c, e) ↦
        rw (e, process_acl_rule)
          (elim (Bool-cases (acl_rule_changed (known c) a)) [
            | inl e' ↦ rw e' (upsert-IsCurrent a _ (delete_acl_rule client a.id s).0)
            | inr e' ↦ rw e' (
                rw e (elim (Option-cases c.extra_info) [
                  | inl f ↦ inl f
                  | inr (o, f) ↦ inr (o, f, (acl_rule_changed_iff o a).0 (unchanged c o f e'))
                ]))
          ])
  ]
    where
      known : RulesCfg AclRule → AclRule
      known c = elim c.extra_info [ none ↦ zero_acl_rule | some o ↦ o ]

      unchanged :
          (c : RulesCfg AclRule) (o : AclRule)
          → c.extra_info ≡ some o
          → acl_rule_changed (known c) a ≡ false
          → acl_rule_changed o a ≡ false
      unchanged c o f h = rw f at h

  lookup-process_acl_rule :
      (j : Text) (a : AclRule) (s : AclTable × K)
      → text_eq a.id j ≡ false
      → lookup j (process_acl_rule client a s).0 ≡ lookup j s.0
  unfolding process_acl_rule
  lookup-process_acl_rule j a s h = elim (Option-cases (lookup a.id s.0)) [
    | inl e ↦ rw (e, process_acl_rule) (lookup-upsert_acl_rule j a s h)
    | inr (c, e) ↦
        rw (e, process_acl_rule)
          (elim (Bool-cases (acl_rule_changed (known c) a)) [
            | inl e' ↦ rw e' (
                lookup-upsert_acl_rule j a (delete_acl_rule client a.id s) h
                ∙ lookup-delete_acl_rule j a.id s h)
            | inr e' ↦ rw e' refl
          ])
  ]
    where
      known : RulesCfg AclRule → AclRule
      known c = elim c.extra_info [ none ↦ zero_acl_rule | some o ↦ o ]

  pub lookup-process_each :
      (j : Text) (rules : List (Text × AclRule)) (s : AclTable × K)
      → IsKeyed rules
      → has_key j rules ≡ false
      → lookup j (process_each client rules s).0 ≡ lookup j s.0
  unfolding process_each has_key
  lookup-process_each j [] s keyed h = refl
  lookup-process_each j ((i, a) ∷ rules) s keyed h =
      let other : text_eq i j ≡ false = ground (arith, h) in
      let rest : has_key j rules ≡ false = ground (arith, h) in
      lookup-process_each j rules (process_acl_rule client a s) keyed.1 rest
      ∙ lookup-process_acl_rule j a s (rw keyed.0 at other)

  lookup-add_acl_rule :
      (j : Text) (a : AclRule) (s : AclTable × K)
      → has_key a.id s.0 ≡ false
      → text_eq a.id j ≡ false
      → lookup j (add_acl_rule client a s).0 ≡ lookup j s.0
  unfolding add_acl_rule
  lookup-add_acl_rule j a s f h = rw f (
      rw (lookup-recorded j a _ (insert a.id no_rules s.0) h)
        (ground (arith, h, lookup-insert a.id j no_rules s.0)))

  pub add_acl_rule-IsCurrent :
      (a : AclRule) (s : AclTable × K)
      → has_key a.id s.0 ≡ false
      → IsCurrent a (lookup a.id (add_acl_rule client a s).0)
  unfolding add_acl_rule
  add_acl_rule-IsCurrent a s f = rw f (upsert-IsCurrent a _ s.0)

  pub lookup-add_each :
      (j : Text) (rules : List (Text × AclRule)) (s : AclTable × K)
      → IsKeyed rules
      → HasDistinctKeys rules
      → AreFresh rules s.0
      → has_key j rules ≡ false
      → lookup j (add_each client rules s).0 ≡ lookup j s.0
  unfolding add_each has_key
  lookup-add_each j [] s keyed d f h = refl
  lookup-add_each j ((i, a) ∷ rules) s keyed d f h =
      let other : text_eq i j ≡ false = ground (arith, h) in
      let rest : has_key j rules ≡ false = ground (arith, h) in
      lookup-add_each j rules (add_acl_rule client a s) keyed.1 d.1
        (fresh-add_acl_rule client a rules s (rw keyed.0 at d.0) f.1) rest
      ∙ lookup-add_acl_rule j a s (rw keyed.0 at f.0) (rw keyed.0 at other)

  pub lookup-delete_stale :
      (j : Text) (ids : List Text) (rules : List (Text × AclRule)) (s : AclTable × K)
      → has_key j rules ≡ true
      → lookup j (delete_stale client ids rules s).0 ≡ lookup j s.0
  unfolding delete_stale
  lookup-delete_stale j [] rules s h = refl
  lookup-delete_stale j (i ∷ ids) rules s h = elim (Bool-cases (has_key i rules)) [
    | inl e ↦ rw (e, delete_stale) (lookup-delete_stale j ids rules s h)
    | inr e ↦
        rw (e, delete_stale)
          (elim (Bool-cases (text_eq i j)) [
            | inl q ↦ ground (arith, e, h, ap (λ x. has_key x rules) ((text_eq_iff i j).0 q))
            | inr q ↦
                lookup-delete_stale j ids rules (delete_acl_rule client i s) h
                ∙ lookup-delete_acl_rule j i s q
          ])
  ]
