-- ===== src/Firewall/Egress/Tables.antt =====
-- firewall/egress.go: the entries of processEgressFwRules in the table.
use netclient.Prelude.{
  ◌≡◌, refl, List, [], ◌∷◌, Bool, true, false, not, ◌&&◌, ◌||◌, if◌then◌else◌, some, none, arith,
  inl, inr, ◌⊎◌, Bool-cases, Option-cases, ap, sym, is_empty,
}
use netclient.Text.{Text, text_eq, text_eq_iff}
use netclient.Sets.{mem}
use netclient.Assoc.{
  lookup, insert, has_key, keys, has_key-insert, has_key-remove, has_key-eq_lookup, has_key_at,
}
use netclient.Firewall.Types.{AclRule, Iptables, zero_acl_rule, acl_fwd_rules_chain}
use netclient.Firewall.Manager.{EgressTable, insert_both}
use netclient.Firewall.Acl.Tables.{mem-keys}
use netclient.Firewall.Egress.{
  EgressInfo, EgressCfg, policies_of, egress_acl_id, updated_egress_specs, updated_egress_specs6,
  egress_rule_changed, add_acl_egress_rules, upsert_acl_egress_rule, delete_acl_egress_rule,
  delete_all_acl_egress_rules, process_egress_rule, process_egress_each, delete_stale_rules,
  rule_ids, process_egress_gateway, process_gateways, is_stale, delete_stale_gateways,
  process_egress_fw_rules,
}

-- Whether the entry is that of a gateway of the update.
abbrev pub is_entry_of : Text → List (Text × EgressInfo) → Bool
is_entry_of j [] = false
is_entry_of j ((i, info) ∷ gateways) =
    text_eq (egress_acl_id info.egress_id) j || is_entry_of j gateways

has_key-insert_present :
    (i j : Text) (c : EgressCfg) (t : EgressTable)
    → has_key i t ≡ true
    → has_key j (insert i c t) ≡ has_key j t
has_key-insert_present i j c t h = elim (Bool-cases (text_eq i j)) [
  | inl e ↦
      ground (arith, has_key-insert i j c t, e, h, ap (λ x. has_key x t) ((text_eq_iff i j).0 e))
  | inr e ↦ ground (arith, has_key-insert i j c t, e)
]

found : (i : Text) (c : EgressCfg) (t : EgressTable) → lookup i t ≡ some c → has_key i t ≡ true
found i c t e = ground (arith, has_key-eq_lookup i t, e)

module _ {K : Type 0} (client : Iptables K) where
  has_key-upsert_acl_egress_rule :
      (j i : Text) (c : EgressCfg) (extra : List (Text × AclRule)) (a : AclRule)
      (s : EgressTable × K)
      → has_key i s.0 ≡ true
      → has_key j (upsert_acl_egress_rule client i c extra a s).0 ≡ has_key j s.0
  unfolding upsert_acl_egress_rule
  has_key-upsert_acl_egress_rule j i c extra a s h =
      let rules =
        (insert_both client acl_fwd_rules_chain (updated_egress_specs a a.ip_list a.dst)
          (updated_egress_specs6 a a.ip6_list a.dst6) s.1).0 in
      elim (Bool-cases (is_empty rules)) [
        | inl e ↦ rw (e, upsert_acl_egress_rule) refl
        | inr e ↦ rw (e, upsert_acl_egress_rule) (has_key-insert_present i j _ s.0 h)
      ]

  has_key-delete_acl_egress_rule :
      (j i : Text) (acl_id : Text) (s : EgressTable × K)
      → has_key j (delete_acl_egress_rule client i acl_id s).0 ≡ has_key j s.0
  unfolding delete_acl_egress_rule
  has_key-delete_acl_egress_rule j i acl_id s = elim (Option-cases (lookup i s.0)) [
    | inl e ↦ rw (e, delete_acl_egress_rule) refl
    | inr (c, e) ↦
        rw (e, delete_acl_egress_rule) (has_key-insert_present i j _ s.0 (found i c s.0 e))
  ]

  has_key-process_egress_rule :
      (j i : Text) (a : AclRule) (s : EgressTable × K)
      → has_key j (process_egress_rule client i a s).0 ≡ has_key j s.0
  unfolding process_egress_rule
  has_key-process_egress_rule j i a s = elim (Option-cases (lookup i s.0)) [
    | inl e ↦ rw (e, process_egress_rule) refl
    | inr (c, e) ↦
        rw (e, process_egress_rule)
          (elim (Option-cases (policies_of c)) [
            | inl e' ↦ rw e' refl
            | inr (extra, e') ↦ rw e' (elim (Bool-cases (has_key a.id c.rules_map)) [
              | inr e2 ↦ rw e2 (has_key-upsert_acl_egress_rule j i c extra a s (found i c s.0 e))
              | inl e2 ↦ rw e2 (elim (Bool-cases (egress_rule_changed (old extra) a)) [
                | inr e3 ↦ rw e3 refl
                | inl e3 ↦ rw e3 (
                    let s' = delete_acl_egress_rule client i a.id s in
                    elim (Option-cases (lookup i s'.0)) [
                      | inl e4 ↦ rw e4 (has_key-delete_acl_egress_rule j i a.id s)
                      | inr (c', e4) ↦ rw e4 (
                          ground (
                            arith,
                            has_key-upsert_acl_egress_rule j i c' extra a s' (found i c' s'.0 e4),
                            has_key-delete_acl_egress_rule j i a.id s,
                          ))
                    ])
              ])
            ])
          ])
  ]
    where
      old : List (Text × AclRule) → AclRule
      old extra = elim (lookup a.id extra) [ none ↦ zero_acl_rule | some o ↦ o ]

  has_key-process_egress_each :
      (j i : Text) (rules : List (Text × AclRule)) (s : EgressTable × K)
      → has_key j (process_egress_each client i rules s).0 ≡ has_key j s.0
  unfolding process_egress_each
  has_key-process_egress_each j i [] s = refl
  has_key-process_egress_each j i ((n, a) ∷ rules) s = ground (
    arith,
    has_key-process_egress_each j i rules (process_egress_rule client i a s),
    has_key-process_egress_rule j i a s,
  )

  has_key-delete_stale_rules :
      (j i : Text) (ids : List Text) (rules : List (Text × AclRule)) (s : EgressTable × K)
      → has_key j (delete_stale_rules client i ids rules s).0 ≡ has_key j s.0
  unfolding delete_stale_rules
  has_key-delete_stale_rules j i [] rules s = refl
  has_key-delete_stale_rules j i (n ∷ ids) rules s = elim (Bool-cases (has_key n rules)) [
    | inl e ↦ rw (e, delete_stale_rules) (has_key-delete_stale_rules j i ids rules s)
    | inr e ↦
        rw (e, delete_stale_rules)
          (ground (
            arith,
            has_key-delete_stale_rules j i ids rules (delete_acl_egress_rule client i n s),
            has_key-delete_acl_egress_rule j i n s,
          ))
  ]

  has_key-add_acl_egress_rules :
      (j : Text) (info : EgressInfo) (s : EgressTable × K)
      → has_key j (add_acl_egress_rules client info s).0
        ≡ (if text_eq (egress_acl_id info.egress_id) j then true else has_key j s.0)
  unfolding add_acl_egress_rules
  has_key-add_acl_egress_rules j info s = has_key-insert (egress_acl_id info.egress_id) j _ s.0

  has_key-process_egress_gateway :
      (j : Text) (info : EgressInfo) (s : EgressTable × K)
      → has_key j (process_egress_gateway client info s).0
        ≡ text_eq (egress_acl_id info.egress_id) j || has_key j s.0
  unfolding process_egress_gateway
  has_key-process_egress_gateway j info s =
      let i = egress_acl_id info.egress_id in
      let s' = process_egress_each client i info.egress_fw_rules s in
      elim (Bool-cases (has_key i s.0)) [
        | inl e ↦
            rw (e, process_egress_gateway)
              (ground (
                arith,
                has_key-delete_stale_rules j i (rule_ids (lookup i s'.0)) info.egress_fw_rules s',
                has_key-process_egress_each j i info.egress_fw_rules s,
                has_key_at i j s.0 e,
              ))
        | inr e ↦
            rw (e, process_egress_gateway) (ground (arith, has_key-add_acl_egress_rules j info s))
      ]

  has_key-process_gateways :
      (j : Text) (gateways : List (Text × EgressInfo)) (s : EgressTable × K)
      → has_key j (process_gateways client gateways s).0 ≡ is_entry_of j gateways || has_key j s.0
  unfolding process_gateways
  has_key-process_gateways j [] s = refl
  has_key-process_gateways j ((i, info) ∷ gateways) s = ground (
    arith,
    has_key-process_gateways j gateways (process_egress_gateway client info s),
    has_key-process_egress_gateway j info s,
  )

  has_key-delete_all_acl_egress_rules :
      (j i : Text) (s : EgressTable × K)
      → has_key j (delete_all_acl_egress_rules client i s).0
        ≡ (if text_eq i j then false else has_key j s.0)
  unfolding delete_all_acl_egress_rules
  has_key-delete_all_acl_egress_rules j i s = elim (Option-cases (lookup i s.0)) [
    | inl e ↦
        rw (e, delete_all_acl_egress_rules)
          (elim (Bool-cases (text_eq i j)) [
            | inl e' ↦ ground (
              arith,
              e,
              e',
              has_key-eq_lookup j s.0,
              ap (λ x. lookup x s.0) ((text_eq_iff i j).0 e'),
            )
            | inr e' ↦ ground (arith, e')
          ])
    | inr (c, e) ↦ rw (e, delete_all_acl_egress_rules) (has_key-remove i j s.0)
  ]

  has_key-delete_stale_gateways :
      (j : Text) (ids : List Text) (gateways : List (Text × EgressInfo)) (s : EgressTable × K)
      → has_key j (delete_stale_gateways client ids gateways s).0
        ≡ (if mem j ids then not (is_stale gateways j) && has_key j s.0 else has_key j s.0)
  unfolding delete_stale_gateways mem
  has_key-delete_stale_gateways j [] gateways s = refl
  has_key-delete_stale_gateways j (i ∷ ids) gateways s = elim (Bool-cases (is_stale gateways i)) [
    | inl e ↦
        rw (e, delete_stale_gateways)
          (ground (
            arith,
            has_key-delete_stale_gateways j ids gateways (delete_all_acl_egress_rules client i s),
            has_key-delete_all_acl_egress_rules j i s,
            e,
            kept (Bool-cases (text_eq i j)),
          ))
    | inr e ↦
        rw (e, delete_stale_gateways)
          (ground (
            arith,
            has_key-delete_stale_gateways j ids gateways s,
            e,
            kept (Bool-cases (text_eq i j)),
          ))
  ]
    where
      kept :
          (text_eq i j ≡ true) ⊎ (text_eq i j ≡ false)
          → (text_eq i j ≡ false) ⊎ (is_stale gateways j ≡ is_stale gateways i)
      kept (inl e) = inr (ap (is_stale gateways) (sym ((text_eq_iff i j).0 e)))
      kept (inr e) = inl e

  -- Behind processEgressFwRules the server's table has an entry if it had one or the update names
  -- its gateway, and the entry is not stale: not one of policies (its key contains `acl#`) whose ID
  -- behind the `#` the update lacks. The table and the kernel are arbitrary, and any insert may fail.
  pub has_key-process_egress_fw_rules :
      (gateways : List (Text × EgressInfo)) (s : EgressTable × K) (j : Text)
      → has_key j (process_egress_fw_rules client gateways s).0
        ≡ (is_entry_of j gateways || has_key j s.0) && not (is_stale gateways j)
  unfolding process_egress_fw_rules
  has_key-process_egress_fw_rules gateways s j =
      let s' = process_gateways client gateways s in
      ground (
        arith,
        has_key-delete_stale_gateways j (keys s'.0) gateways s',
        mem-keys j s'.0,
        has_key-process_gateways j gateways s,
      )
