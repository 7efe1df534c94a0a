-- ===== src/Firewall/Acl/Tables.antt =====
-- firewall/acl.go: the policies in the table.
use netclient.Prelude.{
  ◌≡◌, refl, List, [], ◌∷◌, true, false, ◌&&◌, ◌||◌, if◌then◌else◌, some, arith, inl, inr, ◌⊎◌,
  Bool-cases, Option-cases, ap, sym,
}
use netclient.Text.{Text, text_eq, text_eq_iff, text_eq_comm, text_eq_refl}
use netclient.Sets.{mem}
use netclient.Assoc.{
  lookup, insert, has_key, keys, has_key-insert, has_key-remove, has_key-eq_lookup, has_key_at,
}
use netclient.Firewall.Types.{AclRule, RuleInfo, Iptables}
use netclient.Firewall.Manager.{AclTable}
use netclient.Firewall.Acl.{
  no_rules, recorded, add_acl_rule, add_each, upsert_acl_rule, delete_acl_rule, process_acl_rule,
  process_each, delete_stale, update_acl_rules,
}

-- Every policy of the update stands under its own ID.
abbrev pub IsKeyed : List (Text × AclRule) → Type 0
IsKeyed [] = Unit
IsKeyed ((i, a) ∷ rules) = (i ≡ a.id) × IsKeyed rules

has_key-recorded :
    (j : Text) (a : AclRule) (rules : List RuleInfo) (t : AclTable)
    → has_key a.id t ≡ true
    → has_key j (recorded a rules t) ≡ has_key j t
unfolding recorded
has_key-recorded j a [] t h = refl
has_key-recorded j a (r ∷ rules) t h = elim (Bool-cases (text_eq a.id j)) [
  | inl e ↦ ground (
    arith,
    has_key-insert a.id j (record { rules_map = (a.id, r ∷ rules) ∷ []; extra_info = some a }) t,
    text_eq_iff a.id j,
    h,
    e,
    ap (λ x. has_key x t) ((text_eq_iff a.id j).0 e),
  )
  | inr e ↦ ground (
    arith,
    has_key-insert a.id j (record { rules_map = (a.id, r ∷ rules) ∷ []; extra_info = some a }) t,
    e,
  )
]

pub mem-keys {ℓ} : {V : Type ℓ} → (j : Text) (t : List (Text × V)) → mem j (keys t) ≡ has_key j t
unfolding mem has_key
mem-keys j [] = refl
mem-keys j ((i, c) ∷ t) = ground (arith, mem-keys j t, text_eq_comm i j)

module _ {K : Type 0} (client : Iptables K) where
  abbrev pub State : Type 0
  State = AclTable × K

  has_key-upsert_acl_rule :
      (j : Text) (a : AclRule) (s : State)
      → has_key j (upsert_acl_rule client a s).0 ≡ text_eq a.id j || has_key j s.0
  unfolding upsert_acl_rule
  has_key-upsert_acl_rule j a s =
      let t = insert a.id no_rules s.0 in
      let has : has_key a.id t ≡ true =
        ground (arith, has_key-insert a.id a.id no_rules s.0, text_eq_refl a.id) in
      rw (has_key-recorded j a _ t has) (ground (arith, has_key-insert a.id j no_rules s.0))

  pub has_key-add_acl_rule :
      (j : Text) (a : AclRule) (s : State)
      → has_key j (add_acl_rule client a s).0 ≡ text_eq a.id j || has_key j s.0
  unfolding add_acl_rule
  has_key-add_acl_rule j a s = elim (Bool-cases (has_key a.id s.0)) [
    | inl e ↦ rw e (rw (has_key-recorded j a _ s.0 e) (has_key_at a.id j s.0 e))
    | inr e ↦
        let t = insert a.id no_rules s.0 in
        let has : has_key a.id t ≡ true =
          ground (arith, has_key-insert a.id a.id no_rules s.0, text_eq_refl a.id) in
        rw e
          (rw (has_key-recorded j a _ t has) (ground (arith, has_key-insert a.id j no_rules s.0)))
  ]

  has_key-delete_acl_rule :
      (j i : Text) (s : State)
      → has_key j (delete_acl_rule client i s).0 ≡ (if text_eq i j then false else has_key j s.0)
  unfolding delete_acl_rule
  has_key-delete_acl_rule j i s = elim (Option-cases (lookup i s.0)) [
    | inl e ↦
        rw (e, delete_acl_rule)
          (elim (Bool-cases (text_eq i j)) [
            | inl e' ↦ ground (
              arith,
              e,
              e',
              has_key-eq_lookup j s.0,
              ap (λ x. lookup x s.0) ((text_eq_iff i j).0 e'),
            )
            | inr e' ↦ ground (arith, e')
          ])
    | inr (c, e) ↦ rw (e, delete_acl_rule) (has_key-remove i j s.0)
  ]

  has_key-process_acl_rule :
      (j : Text) (a : AclRule) (s : State)
      → has_key j (process_acl_rule client a s).0 ≡ text_eq a.id j || has_key j s.0
  unfolding process_acl_rule
  has_key-process_acl_rule j a s = elim (Option-cases (lookup a.id s.0)) [
    | inl e ↦ rw (e, process_acl_rule) (has_key-upsert_acl_rule j a s)
    | inr (c, e) ↦
        let has : has_key a.id s.0 ≡ true = ground (arith, has_key-eq_lookup a.id s.0, e) in
        rw (e, process_acl_rule)
          (ground (
            arith,
            has_key_at a.id j s.0 has,
            has_key-upsert_acl_rule j a (delete_acl_rule client a.id s),
            has_key-delete_acl_rule j a.id s,
          ))
  ]

  has_key-add_each :
      (j : Text) (rules : List (Text × AclRule)) (s : State)
      → IsKeyed rules
      → has_key j (add_each client rules s).0 ≡ has_key j rules || has_key j s.0
  unfolding add_each has_key
  has_key-add_each j [] s h = refl
  has_key-add_each j ((i, a) ∷ rules) s h = ground (
    arith,
    has_key-add_each j rules (add_acl_rule client a s) h.1,
    has_key-add_acl_rule j a s,
    ap (λ x. text_eq x j) h.0,
  )

  has_key-process_each :
      (j : Text) (rules : List (Text × AclRule)) (s : State)
      → IsKeyed rules
      → has_key j (process_each client rules s).0 ≡ has_key j rules || has_key j s.0
  unfolding process_each has_key
  has_key-process_each j [] s h = refl
  has_key-process_each j ((i, a) ∷ rules) s h = ground (
    arith,
    has_key-process_each j rules (process_acl_rule client a s) h.1,
    has_key-process_acl_rule j a s,
    ap (λ x. text_eq x j) h.0,
  )

  has_key-delete_stale :
      (j : Text) (ids : List Text) (rules : List (Text × AclRule)) (s : State)
      → has_key j (delete_stale client ids rules s).0
        ≡ (if mem j ids then has_key j rules && has_key j s.0 else has_key j s.0)
  unfolding delete_stale mem
  has_key-delete_stale j [] rules s = refl
  has_key-delete_stale j (i ∷ ids) rules s = elim (Bool-cases (has_key i rules)) [
    | inl e ↦
        rw (e, delete_stale)
          (ground (arith, has_key-delete_stale j ids rules s, e, kept (Bool-cases (text_eq i j))))
    | inr e ↦
        rw (e, delete_stale)
          (ground (
            arith,
            has_key-delete_stale j ids rules (delete_acl_rule client i s),
            has_key-delete_acl_rule j i s,
            e,
            kept (Bool-cases (text_eq i j)),
          ))
  ]
    where
      kept :
          (text_eq i j ≡ true) ⊎ (text_eq i j ≡ false)
          → (text_eq i j ≡ false) ⊎ (has_key j rules ≡ has_key i rules)
      kept (inl e) = inr (ap (λ x. has_key x rules) (sym ((text_eq_iff i j).0 e)))
      kept (inr e) = inl e

  -- Behind ProcessAclRules the table of the server has an entry for the policies of the update, and
  -- for no other: for an update whose policies stand under their own IDs, whatever the table and
  -- the kernel were, and whichever inserts failed.
  pub has_key-update_acl_rules :
      (rules : List (Text × AclRule)) (s : AclTable × K) (j : Text)
      → IsKeyed rules
      → has_key j (update_acl_rules client rules s).0 ≡ has_key j rules
  unfolding update_acl_rules has_key delete_stale process_each
  has_key-update_acl_rules [] ([], k) j h = refl
  has_key-update_acl_rules (r ∷ rules) ([], k) j h =
      ground (arith, has_key-add_each j (r ∷ rules) ([], k) h)
  has_key-update_acl_rules rules (c ∷ t, k) j h =
      let s = process_each client rules (c ∷ t, k) in
      ground (
        arith,
        has_key-delete_stale j (keys s.0) rules s,
        mem-keys j s.0,
        has_key-process_each j rules (c ∷ t, k) h,
      )
