-- ===== src/Firewall/Egress/Frames.antt =====
-- firewall/egress.go: the entries that processEgressFwRules leaves as they are.
use netclient.Prelude.{
  ◌≡◌, refl, List, [], ◌∷◌, true, false, some, none, arith, inl, inr, Bool-cases, Option-cases,
  is_empty, ◌∙◌, ap, ◌⊎◌,
}
use netclient.Text.{Text, text_eq, text_eq_iff, text_eq_refl}
use netclient.Assoc.{lookup, insert, has_key, keys, lookup-insert, lookup-remove}
use netclient.Firewall.Types.{AclRule, Iptables, zero_acl_rule, acl_fwd_rules_chain}
use netclient.Firewall.Manager.{EgressTable, insert_both}
use netclient.Firewall.Egress.{
  EgressInfo, EgressCfg, policies_of, egress_acl_id, updated_egress_specs, updated_egress_specs6,
  egress_rule_changed, add_acl_egress_rules, upsert_acl_egress_rule, delete_acl_egress_rule,
  delete_all_acl_egress_rules, process_egress_rule, process_egress_each, delete_stale_rules,
  rule_ids, process_egress_gateway, process_gateways, is_stale, delete_stale_gateways,
  process_egress_fw_rules,
}
use netclient.Firewall.Egress.Tables.{is_entry_of}

pub lookup-insert_other {ℓ} :
    {V : Type ℓ} (i j : Text) (v : V) (m : List (Text × V))
    → text_eq i j ≡ false
    → lookup j (insert i v m) ≡ lookup j m
lookup-insert_other i j v m h = lookup-insert i j v m ∙ rw h refl

pub lookup-insert_self {ℓ} :
    {V : Type ℓ} (i : Text) (v : V) (m : List (Text × V)) → lookup i (insert i v m) ≡ some v
lookup-insert_self i v m = lookup-insert i i v m ∙ rw (text_eq_refl i) refl

module _ {K : Type 0} (client : Iptables K) where
  lookup-upsert_acl_egress_rule :
      (j i : Text) (c : EgressCfg) (extra : List (Text × AclRule)) (a : AclRule)
      (s : EgressTable × K)
      → text_eq i j ≡ false
      → lookup j (upsert_acl_egress_rule client i c extra a s).0 ≡ lookup j s.0
  unfolding upsert_acl_egress_rule
  lookup-upsert_acl_egress_rule j i c extra a s h =
      let rules =
        (insert_both client acl_fwd_rules_chain (updated_egress_specs a a.ip_list a.dst)
          (updated_egress_specs6 a a.ip6_list a.dst6) s.1).0 in
      elim (Bool-cases (is_empty rules)) [
        | inl e ↦ rw (e, upsert_acl_egress_rule) refl
        | inr e ↦ rw (e, upsert_acl_egress_rule) (lookup-insert_other i j _ s.0 h)
      ]

  lookup-delete_acl_egress_rule :
      (j i acl_id : Text) (s : EgressTable × K)
      → text_eq i j ≡ false
      → lookup j (delete_acl_egress_rule client i acl_id s).0 ≡ lookup j s.0
  unfolding delete_acl_egress_rule
  lookup-delete_acl_egress_rule j i acl_id s h = elim (Option-cases (lookup i s.0)) [
    | inl e ↦ rw (e, delete_acl_egress_rule) refl
    | inr (c, e) ↦ rw (e, delete_acl_egress_rule) (lookup-insert_other i j _ s.0 h)
  ]

  lookup-process_egress_rule :
      (j i : Text) (a : AclRule) (s : EgressTable × K)
      → text_eq i j ≡ false
      → lookup j (process_egress_rule client i a s).0 ≡ lookup j s.0
  unfolding process_egress_rule
  lookup-process_egress_rule j i a s h = elim (Option-cases (lookup i s.0)) [
    | inl e ↦ rw (e, process_egress_rule) refl
    | inr (c, e) ↦
        rw (e, process_egress_rule)
          (elim (Option-cases (policies_of c)) [
            | inl e' ↦ rw e' refl
            | inr (extra, e') ↦ rw e' (elim (Bool-cases (has_key a.id c.rules_map)) [
              | inr e2 ↦ rw e2 (lookup-upsert_acl_egress_rule j i c extra a s h)
              | inl e2 ↦ rw e2 (elim (Bool-cases (egress_rule_changed (old extra) a)) [
                | inr e3 ↦ rw e3 refl
                | inl e3 ↦ rw e3 (replaced extra)
              ])
            ])
          ])
  ]
    where
      old : List (Text × AclRule) → AclRule
      old extra = elim (lookup a.id extra) [ none ↦ zero_acl_rule | some o ↦ o ]

      replaced :
          (extra : List (Text × AclRule))
          → let s' = delete_acl_egress_rule client i a.id s in
            lookup j
              (elim (lookup i s'.0) as (λ x. EgressTable × K) [
                | none ↦ s'
                | some c' ↦ upsert_acl_egress_rule client i c' extra a s'
              ]).0
            ≡ lookup j s.0
      replaced extra =
          let s' = delete_acl_egress_rule client i a.id s in
          elim (Option-cases (lookup i s'.0)) [
            | inl e ↦ rw e (lookup-delete_acl_egress_rule j i a.id s h)
            | inr (c', e) ↦ rw e (
                lookup-upsert_acl_egress_rule j i c' extra a s' h
                ∙ lookup-delete_acl_egress_rule j i a.id s h)
          ]

  lookup-process_egress_each :
      (j i : Text) (rules : List (Text × AclRule)) (s : EgressTable × K)
      → text_eq i j ≡ false
      → lookup j (process_egress_each client i rules s).0 ≡ lookup j s.0
  unfolding process_egress_each
  lookup-process_egress_each j i [] s h = refl
  lookup-process_egress_each j i ((n, a) ∷ rules) s h =
      lookup-process_egress_each j i rules (process_egress_rule client i a s) h
      ∙ lookup-process_egress_rule j i a s h

  lookup-delete_stale_rules :
      (j i : Text) (ids : List Text) (rules : List (Text × AclRule)) (s : EgressTable × K)
      → text_eq i j ≡ false
      → lookup j (delete_stale_rules client i ids rules s).0 ≡ lookup j s.0
  unfolding delete_stale_rules
  lookup-delete_stale_rules j i [] rules s h = refl
  lookup-delete_stale_rules j i (n ∷ ids) rules s h = elim (Bool-cases (has_key n rules)) [
    | inl e ↦ rw (e, delete_stale_rules) (lookup-delete_stale_rules j i ids rules s h)
    | inr e ↦
        rw (e, delete_stale_rules)
          (lookup-delete_stale_rules j i ids rules (delete_acl_egress_rule client i n s) h
            ∙ lookup-delete_acl_egress_rule j i n s h)
  ]

  lookup-add_acl_egress_rules :
      (j : Text) (info : EgressInfo) (s : EgressTable × K)
      → text_eq (egress_acl_id info.egress_id) j ≡ false
      → lookup j (add_acl_egress_rules client info s).0 ≡ lookup j s.0
  unfolding add_acl_egress_rules
  lookup-add_acl_egress_rules j info s h =
      lookup-insert_other (egress_acl_id info.egress_id) j _ s.0 h

  lookup-process_egress_gateway :
      (j : Text) (info : EgressInfo) (s : EgressTable × K)
      → text_eq (egress_acl_id info.egress_id) j ≡ false
      → lookup j (process_egress_gateway client info s).0 ≡ lookup j s.0
  unfolding process_egress_gateway
  lookup-process_egress_gateway j info s h =
      let i = egress_acl_id info.egress_id in
      let s' = process_egress_each client i info.egress_fw_rules s in
      elim (Bool-cases (has_key i s.0)) [
        | inl e ↦
            rw (e, process_egress_gateway)
              (lookup-delete_stale_rules j i (rule_ids (lookup i s'.0)) info.egress_fw_rules s' h
                ∙ lookup-process_egress_each j i info.egress_fw_rules s h)
        | inr e ↦ rw (e, process_egress_gateway) (lookup-add_acl_egress_rules j info s h)
      ]

  lookup-process_gateways :
      (j : Text) (gateways : List (Text × EgressInfo)) (s : EgressTable × K)
      → is_entry_of j gateways ≡ false
      → lookup j (process_gateways client gateways s).0 ≡ lookup j s.0
  unfolding process_gateways
  lookup-process_gateways j [] s h = refl
  lookup-process_gateways j ((i, info) ∷ gateways) s h =
      lookup-process_gateways j gateways (process_egress_gateway client info s) (ground (arith, h))
      ∙ lookup-process_egress_gateway j info s (ground (arith, h))

  lookup-delete_all_acl_egress_rules :
      (j i : Text) (s : EgressTable × K)
      → text_eq i j ≡ false
      → lookup j (delete_all_acl_egress_rules client i s).0 ≡ lookup j s.0
  unfolding delete_all_acl_egress_rules
  lookup-delete_all_acl_egress_rules j i s h = elim (Option-cases (lookup i s.0)) [
    | inl e ↦ rw (e, delete_all_acl_egress_rules) refl
    | inr (c, e) ↦ rw (e, delete_all_acl_egress_rules) (lookup-remove i j s.0 ∙ rw h refl)
  ]

  lookup-delete_stale_gateways :
      (j : Text) (ids : List Text) (gateways : List (Text × EgressInfo)) (s : EgressTable × K)
      → is_stale gateways j ≡ false
      → lookup j (delete_stale_gateways client ids gateways s).0 ≡ lookup j s.0
  unfolding delete_stale_gateways
  lookup-delete_stale_gateways j [] gateways s h = refl
  lookup-delete_stale_gateways j (i ∷ ids) gateways s h = elim (Bool-cases (is_stale gateways i)) [
    | inr e ↦ rw (e, delete_stale_gateways) (lookup-delete_stale_gateways j ids gateways s h)
    | inl e ↦
        rw (e, delete_stale_gateways)
          (lookup-delete_stale_gateways j ids gateways (delete_all_acl_egress_rules client i s) h
            ∙ lookup-delete_all_acl_egress_rules j i s (apart e (Bool-cases (text_eq i j))))
  ]
    where
      apart :
          is_stale gateways i ≡ true
          → (text_eq i j ≡ true) ⊎ (text_eq i j ≡ false)
          → text_eq i j ≡ false
      apart e (inr n) = n
      apart e (inl q) = cc (e, h, ap (is_stale gateways) ((text_eq_iff i j).0 q))

  -- processEgressFwRules leaves alone the entries that are not of policies of the update's gateways
  -- and not stale.
  pub lookup-process_egress_fw_rules :
      (j : Text) (gateways : List (Text × EgressInfo)) (s : EgressTable × K)
      → is_entry_of j gateways ≡ false
      → is_stale gateways j ≡ false
      → lookup j (process_egress_fw_rules client gateways s).0 ≡ lookup j s.0
  unfolding process_egress_fw_rules
  lookup-process_egress_fw_rules j gateways s h g =
      let s' = process_gateways client gateways s in
      lookup-delete_stale_gateways j (keys s'.0) gateways s' g
      ∙ lookup-process_gateways j gateways s h
