-- ===== src/Firewall/Acl/Updated.antt =====
-- firewall/acl.go: the policies that the table holds are those of the update.
use netclient.Prelude.{◌≡◌, List, [], ◌∷◌, true, false, arith, ap, All}
use netclient.Text.{Text, text_eq, text_eq_refl}
use netclient.Assoc.{lookup, has_key, keys, HasDistinctKeys}
use netclient.Firewall.Types.{AclRule, Iptables}
use netclient.Firewall.Manager.{AclTable}
use netclient.Firewall.Acl.{
  add_acl_rule, add_each, process_acl_rule, process_each, delete_stale, update_acl_rules,
}
use netclient.Firewall.Acl.Tables.{IsKeyed}
use netclient.Firewall.Acl.Fresh.{AreFresh, fresh_in_empty, fresh-add_acl_rule}
use netclient.Firewall.Acl.Current.{
  IsCurrent, process_acl_rule-IsCurrent, add_acl_rule-IsCurrent, lookup-process_each,
  lookup-add_each, lookup-delete_stale,
}

abbrev pub AreCurrent : List (Text × AclRule) → AclTable → Type 0
AreCurrent rules t = All (λ r. IsCurrent r.1 (lookup r.1.id t)) rules

abbrev AreIn : List (Text × AclRule) → List (Text × AclRule) → Type 0
AreIn some_ rules = All (λ r. has_key r.1.id rules ≡ true) some_

in_more :
    (i : Text) (a : AclRule) (some_ rules : List (Text × AclRule))
    → AreIn some_ rules
    → AreIn some_ ((i, a) ∷ rules)
unfolding has_key
in_more i a [] rules h = tt
in_more i a (r ∷ some_) rules h = (ground (arith, h.0), in_more i a some_ rules h.1)

in_itself : (rules : List (Text × AclRule)) → IsKeyed rules → AreIn rules rules
unfolding has_key
in_itself [] keyed = tt
in_itself ((i, a) ∷ rules) keyed = (
  ground (arith, text_eq_refl a.id, ap (λ x. text_eq x a.id) keyed.0),
  in_more i a rules rules (in_itself rules keyed.1),
)

module _ {K : Type 0} (client : Iptables K) where
  process_each-AreCurrent :
      (rules : List (Text × AclRule)) (s : AclTable × K)
      → IsKeyed rules
      → HasDistinctKeys rules
      → AreCurrent rules (process_each client rules s).0
  unfolding process_each
  process_each-AreCurrent [] s keyed d = tt
  process_each-AreCurrent ((i, a) ∷ rules) s keyed d =
      let s' = process_acl_rule client a s in
      (
        rw (lookup-process_each client a.id rules s' keyed.1 (rw keyed.0 at d.0))
            (process_acl_rule-IsCurrent client a s),
        process_each-AreCurrent rules s' keyed.1 d.1,
      )

  add_each-AreCurrent :
      (rules : List (Text × AclRule)) (s : AclTable × K)
      → IsKeyed rules
      → HasDistinctKeys rules
      → AreFresh rules s.0
      → AreCurrent rules (add_each client rules s).0
  unfolding add_each
  add_each-AreCurrent [] s keyed d f = tt
  add_each-AreCurrent ((i, a) ∷ rules) s keyed d f =
      let s' = add_acl_rule client a s in
      let absent : has_key a.id rules ≡ false = rw keyed.0 at d.0 in
      let fresh' = fresh-add_acl_rule client a rules s absent f.1 in
      (
        rw (lookup-add_each client a.id rules s' keyed.1 d.1 fresh' absent)
            (add_acl_rule-IsCurrent client a s (rw keyed.0 at f.0)),
        add_each-AreCurrent rules s' keyed.1 d.1 fresh',
      )

  delete_stale-AreCurrent :
      (ids : List Text) (some_ rules : List (Text × AclRule)) (s : AclTable × K)
      → AreIn some_ rules
      → AreCurrent some_ s.0
      → AreCurrent some_ (delete_stale client ids rules s).0
  delete_stale-AreCurrent ids [] rules s i c = tt
  delete_stale-AreCurrent ids (r ∷ some_) rules s i c = (
    rw (lookup-delete_stale client r.1.id ids rules s i.0) c.0,
    delete_stale-AreCurrent ids some_ rules s i.1 c.1,
  )

  -- Behind ProcessAclRules' update every policy of the update has an entry, and the entry is up to
  -- date: it was made of a policy with the same networks, destinations, ports, protocol and
  -- direction, or no policy is recorded in it, as when no insert succeeded. The update has each policy once and under its own ID.
  pub update_acl_rules-AreCurrent :
      (rules : List (Text × AclRule)) (s : AclTable × K)
      → IsKeyed rules
      → HasDistinctKeys rules
      → AreCurrent rules (update_acl_rules client rules s).0
  unfolding update_acl_rules process_each
  update_acl_rules-AreCurrent [] ([], k) keyed d = tt
  update_acl_rules-AreCurrent (r ∷ rules) ([], k) keyed d =
      add_each-AreCurrent (r ∷ rules) ([], k) keyed d (fresh_in_empty (r ∷ rules))
  update_acl_rules-AreCurrent rules (c ∷ t, k) keyed d =
      let s = process_each client rules (c ∷ t, k) in
      delete_stale-AreCurrent (keys s.0) rules rules s (in_itself rules keyed)
        (process_each-AreCurrent rules (c ∷ t, k) keyed d)
