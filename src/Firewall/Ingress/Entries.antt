-- ===== src/Firewall/Ingress/Entries.antt =====
-- firewall/ingress.go: the entries of ProcessIngressUpdate in the table.
use netclient.Prelude.{
  ◌≡◌, refl, sym, ap, ◌∙◌, List, [], ◌∷◌, Bool, true, false, ◌&&◌, if◌then◌else◌, some, arith, inl,
  inr, ◌⊎◌, Bool-cases, Option-cases, All,
}
use netclient.Text.{Text, text_eq, text_eq_iff, text_eq_comm}
use netclient.Sets.{mem}
use netclient.Assoc.{lookup, has_key, keys, has_key-eq_lookup, HasDistinctKeys, own_keys}
use netclient.Firewall.Kernel.{ChainClient}
use netclient.Firewall.Acl.Tables.{mem-keys}
use netclient.Firewall.Routing.{remove_routing_rules}
use netclient.Firewall.Routing.Removed.{has_key-remove_routing_rules, lookup-remove_routing_rules}
use netclient.Firewall.Ingress.{
  IngressInfo, IngressTable, remove_ingress, ingress_changed, set_ingress, set_all_ingress,
  process_ingress_update,
}
use netclient.Firewall.Ingress.Inserted.{IsCurrent, HasInfo, Sets, inserted-Sets}

-- Every gateway of the update stands under its own ID.
abbrev pub IsKeyed : List (Text × IngressInfo) → Type 0
IsKeyed [] = Unit
IsKeyed ((i, info) ∷ update) = (i ≡ info.ingress_id) × IsKeyed update

module _ {K : Type 0} (client : ChainClient K) where
  has_key-remove_ingress :
      (j : Text) (ids : List Text) (update : List (Text × IngressInfo)) (s : IngressTable × K)
      → has_key j (remove_ingress client ids update s).0
        ≡ (if mem j ids then has_key j update && has_key j s.0 else has_key j s.0)
  unfolding remove_ingress mem
  has_key-remove_ingress j [] update s = refl
  has_key-remove_ingress j (i ∷ ids) update s = elim (Bool-cases (has_key i update)) [
    | inl e ↦
        rw (e, remove_ingress)
          (ground
            (arith, has_key-remove_ingress j ids update s, e, kept (Bool-cases (text_eq i j))))
    | inr e ↦
        rw (e, remove_ingress)
          (ground (
            arith,
            has_key-remove_ingress j ids update (remove_routing_rules client false i s).0,
            has_key-remove_routing_rules client false j i s,
            e,
            kept (Bool-cases (text_eq i j)),
          ))
  ]
    where
      kept :
          (text_eq i j ≡ true) ⊎ (text_eq i j ≡ false)
          → (text_eq i j ≡ false) ⊎ (has_key j update ≡ has_key i update)
      kept (inl e) = inr (ap (λ x. has_key x update) (sym ((text_eq_iff i j).0 e)))
      kept (inr e) = inl e

module _ {K : Type 0} (client : ChainClient K)
    (list_law : (v4 : Bool) (table chain : Text) (k : K)
      → (lines : List Text) × (client.list v4 table chain k ≡ some lines)) where
  set_ingress-Sets :
      (i : Text) (info : IngressInfo) (s : IngressTable × K)
      → i ≡ info.ingress_id
      → HasInfo s.0 i
      → (r : IngressTable × K) × (set_ingress client i info s ≡ some r) × Sets i info s.0 r.0
  unfolding set_ingress
  set_ingress-Sets i info s q h = elim (Option-cases (lookup i s.0)) [
    | inl e ↦ rw (e, set_ingress) (inserted-Sets client list_law i info s q)
    | inr (c, e) ↦
        let (old, e') = h c e in
        rw (e, set_ingress)
          (rw e' (elim (Bool-cases (ingress_changed old info)) [
            | inr e2 ↦ rw e2 (s, refl, ((c, old, e, e', e2), λ j g. refl))
            | inl e2 ↦
                let s' = (remove_routing_rules client false i s).0 in
                let (r, e3, (now, others)) = inserted-Sets client list_law i info s' q in
                rw e2 (
                  r,
                  e3,
                  (now, λ j g. others j g ∙ lookup-remove_routing_rules client false j i s g),
                )
          ]))
  ]

  -- The entries behind the second loop, for keys that the rest of the update lacks and for its own.
  set_all_ingress-Sets :
      (update : List (Text × IngressInfo)) (s : IngressTable × K)
      → IsKeyed update
      → HasDistinctKeys update
      → All (λ g. HasInfo s.0 g.0) update
      → (r : IngressTable × K) × (set_all_ingress client update s ≡ some r)
        × All (λ g. IsCurrent r.0 g.0 g.1) update
        × ((j : Text) → has_key j update ≡ false → lookup j r.0 ≡ lookup j s.0)
  unfolding set_all_ingress has_key
  set_all_ingress-Sets [] s q d h = (s, refl, tt, λ j g. refl)
  set_all_ingress-Sets ((i, info) ∷ update) s q d h =
      let (s', e, (now, others)) = set_ingress-Sets i info s q.0 h.0 in
      let (r, e', all, rest) =
        set_all_ingress-Sets update s' q.1 d.1 (holds i s s' update d.0 others h.1) in
      (
        r,
        rw (e, set_all_ingress) e',
        (moved i info s' r (rest i d.0) now, all),
        λ j g. rest j (ground (arith, g)) ∙ others j (ground (arith, g)),
      )
    where
      moved :
          (i : Text) (info : IngressInfo) (s' r : IngressTable × K)
          → lookup i r.0 ≡ lookup i s'.0
          → IsCurrent s'.0 i info
          → IsCurrent r.0 i info
      moved i info s' r e (c, old, e', e2, e3) = (c, old, e ∙ e', e2, e3)

      holds :
          (i : Text) (s s' : IngressTable × K) (l : List (Text × IngressInfo))
          → has_key i l ≡ false
          → ((j : Text) → text_eq i j ≡ false → lookup j s'.0 ≡ lookup j s.0)
          → All (λ g. HasInfo s.0 g.0) l
          → All (λ g. HasInfo s'.0 g.0) l
      holds i s s' [] d f h = tt
      holds i s s' ((j, other) ∷ l) d f h = (
        λ c e. h.0 c (sym (f j (ground (arith, d, text_eq_comm i j))) ∙ e),
        holds i s s' l (ground (arith, d)) f h.1,
      )

  lookup-remove_ingress :
      (j : Text) (ids : List Text) (update : List (Text × IngressInfo)) (s : IngressTable × K)
      → has_key j update ≡ true
      → lookup j (remove_ingress client ids update s).0 ≡ lookup j s.0
  unfolding remove_ingress
  lookup-remove_ingress j [] update s h = refl
  lookup-remove_ingress j (i ∷ ids) update s h = elim (Bool-cases (has_key i update)) [
    | inl e ↦ rw (e, remove_ingress) (lookup-remove_ingress j ids update s h)
    | inr e ↦
        rw (e, remove_ingress)
          (lookup-remove_ingress j ids update (remove_routing_rules client false i s).0 h
            ∙ lookup-remove_routing_rules client false j i s (apart e (Bool-cases (text_eq i j))))
  ]
    where
      apart :
          has_key i update ≡ false
          → (text_eq i j ≡ true) ⊎ (text_eq i j ≡ false)
          → text_eq i j ≡ false
      apart e (inr n) = n
      apart e (inl q) = cc (e, h, ap (λ t. has_key t update) ((text_eq_iff i j).0 q))

  held :
      (all l : List (Text × IngressInfo)) (ids : List Text) (s : IngressTable × K)
      → All (λ g. has_key g.0 all ≡ true) l
      → All (λ g. HasInfo s.0 g.0) l
      → All (λ g. HasInfo (remove_ingress client ids all s).0 g.0) l
  held all [] ids s k h = tt
  held all ((i, info) ∷ l) ids s k h =
      (λ c e. h.0 c (sym (lookup-remove_ingress i ids all s k.0) ∙ e), held all l ids s k.1 h.1)

  -- ProcessIngressUpdate returns, and behind it the server's table has an entry for each gateway of
  -- the update, with the update's information as far as the test for an update goes, and no other
  -- entry. The gateways stand under their own IDs, each once; the entries that they have before, if
  -- any, have information; the rules of the kernel can be listed, and any other call may fail.
  pub process_ingress_update-AreCurrent :
      (update : List (Text × IngressInfo)) (s : IngressTable × K)
      → IsKeyed update
      → HasDistinctKeys update
      → All (λ g. HasInfo s.0 g.0) update
      → (r : IngressTable × K) × (process_ingress_update client update s ≡ some r)
        × All (λ g. IsCurrent r.0 g.0 g.1) update
        × ((j : Text) → has_key j update ≡ false → has_key j r.0 ≡ false)
  unfolding process_ingress_update
  process_ingress_update-AreCurrent update s q d h =
      let s1 = remove_ingress client (keys s.0) update s in
      let (r, e, all, rest) =
        set_all_ingress-Sets update s1 q d (held update update (keys s.0) s (own_keys update) h) in
      (
        r,
        e,
        all,
        λ j g. ground (
          arith,
          has_key-eq_lookup j r.0,
          has_key-eq_lookup j s1.0,
          rest j g,
          g,
          has_key-remove_ingress client j (keys s.0) update s,
          mem-keys j s.0,
        ),
      )
