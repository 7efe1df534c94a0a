-- ===== src/Firewall/Routing/Current.antt =====
-- firewall/egress.go: behind SetEgressRoutes the entries of gateways are those of the update.
use mathlib.Core.Path.{subst}
use netclient.Prelude.{
  ◌≡◌, refl, sym, ap, ◌∙◌, List, [], ◌∷◌, true, false, some, arith, inl, inr, ◌⊎◌, Bool-cases, All,
}
use netclient.Text.{Text, codes, text_eq, text_eq_iff, contains, has_prefix}
use netclient.Assoc.{lookup, has_key, keys, HasDistinctKeys, own_keys}
use netclient.Firewall.Types.{EgressRange}
use netclient.Firewall.Kernel.{ChainClient}
use netclient.Firewall.Manager.{EgressTable}
use netclient.Firewall.Egress.{
  EgressInfo, EgressCfg, egress_acl_id, is_stale, process_egress_fw_rules,
}
use netclient.Firewall.Egress.Ranges.{occurrences, is_egress_range_equal_iff}
use netclient.Firewall.Egress.Tables.{is_entry_of}
use netclient.Firewall.Egress.Frames.{lookup-insert_self, lookup-process_egress_fw_rules}
use netclient.Firewall.Routing.{
  RoutingEnv, insert_egress_routing_rules, remove_routing_rules, ranges_of, remove_gateways,
  set_egress_routes,
}
use netclient.Firewall.Routing.Stale.{IsKeyed}
use netclient.Firewall.Routing.Placed.{
  HoldsRanges, IsPlaced, created, unchanged, replaced, ArePlaced, all_set, set_next,
  lookup-IsPlaced, set_gateways-ArePlaced,
}
use netclient.Firewall.Routing.Entries.{held}

-- The entry of the gateway holds its ranges: as many with each key, in whatever order.
abbrev pub IsUpdated : EgressTable → Text → EgressInfo → Type 0
IsUpdated t i info =
    (c : EgressCfg) × (l : List EgressRange) × (lookup i t ≡ some c)
    × (ranges_of c ≡ some l)
    × ((k : Text) → occurrences k l ≡ occurrences k info.ranges_with_metric)

-- The ID of a gateway, unlike the key of its policies, has no `acl#` in it.
abbrev pub IsPlain : Text → Type 0
IsPlain i = contains i (codes "acl#") ≡ false

contains-egress_acl_id : (x : Text) → contains (egress_acl_id x) (codes "acl#") ≡ true
unfolding egress_acl_id contains has_prefix
contains-egress_acl_id [] = refl
contains-egress_acl_id (c ∷ x) = refl

is_entry_of-plain :
    (i : Text) (gateways : List (Text × EgressInfo)) → IsPlain i → is_entry_of i gateways ≡ false
is_entry_of-plain i [] h = refl
is_entry_of-plain i ((n, info) ∷ gateways) h =
    ground (arith, is_entry_of-plain i gateways h, apart (Bool-cases (text_eq acl i)))
  where
    acl : Text
    acl = egress_acl_id info.egress_id

    apart : (text_eq acl i ≡ true) ⊎ (text_eq acl i ≡ false) → text_eq acl i ≡ false
    apart (inr e) = e
    apart (inl e) = cc (
      ap (λ t. contains t (codes "acl#")) ((text_eq_iff acl i).0 e),
      contains-egress_acl_id info.egress_id,
      h,
    )

is_stale-plain :
    (i : Text) (gateways : List (Text × EgressInfo)) → IsPlain i → is_stale gateways i ≡ false
is_stale-plain i gateways h = rw h refl

module _ {K : Type 0} (client : ChainClient K) (env : RoutingEnv K) where
  insert_egress_routing_rules-IsUpdated :
      (info : EgressInfo) (s : EgressTable × K)
      → IsUpdated (insert_egress_routing_rules client env info s).0 info.egress_id info
  unfolding insert_egress_routing_rules ranges_of
  insert_egress_routing_rules-IsUpdated info s =
      (_, info.ranges_with_metric, lookup-insert_self info.egress_id _ s.0, refl, λ k. refl)

  IsPlaced-IsUpdated :
      (info : EgressInfo) (s : EgressTable × K) {s' : EgressTable × K}
      → IsPlaced client env info.egress_id info s s'
      → IsUpdated s'.0 info.egress_id info
  IsPlaced-IsUpdated info s (created e) = insert_egress_routing_rules-IsUpdated info s
  IsPlaced-IsUpdated info s (unchanged c old e e' e2) =
      (c, old, e, e', (is_egress_range_equal_iff old info.ranges_with_metric).0 e2)
  IsPlaced-IsUpdated info s replaced =
      insert_egress_routing_rules-IsUpdated info
        (remove_routing_rules client true info.egress_id s).0

  lookup-ArePlaced :
      (j : Text) {gateways : List (Text × EgressInfo)} {s s' : EgressTable × K}
      → IsKeyed gateways
      → has_key j gateways ≡ false
      → ArePlaced client env gateways s s'
      → lookup j s'.0 ≡ lookup j s.0
  unfolding has_key
  lookup-ArePlaced j q h (all_set s) = refl
  lookup-ArePlaced j q h (set_next i info gateways s s1 s' w r) =
      lookup-ArePlaced j q.1 (ground (arith, h)) r
      ∙ lookup-IsPlaced client env j i info s q.0 (ground (arith, h)) w

  ArePlaced-AreUpdated :
      {gateways : List (Text × EgressInfo)} {s s' : EgressTable × K}
      → IsKeyed gateways
      → HasDistinctKeys gateways
      → ArePlaced client env gateways s s'
      → All (λ g. IsUpdated s'.0 g.0 g.1) gateways
  ArePlaced-AreUpdated q d (all_set s) = tt
  ArePlaced-AreUpdated q d (set_next i info gateways s s1 s' w r) =
      let set : IsUpdated s1.0 i info =
        subst (λ n. IsUpdated s1.0 n info) (sym q.0)
          (IsPlaced-IsUpdated info s (subst (λ n. IsPlaced client env n info s s1) q.0 w)) in
      (
        (set.0, set.1, lookup-ArePlaced i q.1 d.0 r ∙ set.2, set.3, set.4),
        ArePlaced-AreUpdated q.1 d.1 r,
      )

  kept :
      (all l : List (Text × EgressInfo)) (s : EgressTable × K)
      → All (λ g. IsPlain g.0) l
      → All (λ g. IsUpdated s.0 g.0 g.1) l
      → All (λ g. IsUpdated (process_egress_fw_rules client.rules all s).0 g.0 g.1) l
  kept all [] s p a = tt
  kept all ((i, info) ∷ l) s p ((c, r, e, e', e2), a) =
      let same =
        lookup-process_egress_fw_rules client.rules i all s (is_entry_of-plain i all p.0)
          (is_stale-plain i all p.0) in
      ((c, r, same ∙ e, e', e2), kept all l s p.1 a)

  -- Behind SetEgressRoutes every gateway of the update has an entry for its ranges, and the entry
  -- has the ranges of the update, each as often and in whatever order, as far as network, mode,
  -- translation and virtual network tell; the metric of the route is not compared. That holds also
  -- where the firewall had other ranges for the gateway. The gateways stand under their own IDs,
  -- each once, and no ID contains `acl#`; the entries that gateways have before, if any, are entries
  -- for ranges, since SetEgressRoutes panics at others. The kernel is arbitrary, and any call to it
  -- may fail.
  pub set_egress_routes-AreUpdated :
      (gateways : List (Text × EgressInfo)) (s : EgressTable × K)
      → IsKeyed gateways
      → HasDistinctKeys gateways
      → All (λ g. IsPlain g.0) gateways
      → All (λ g. HoldsRanges s.0 g.0) gateways
      → (s' : EgressTable × K) × (set_egress_routes client env gateways s ≡ some s')
        × All (λ g. IsUpdated s'.0 g.0 g.1) gateways
  unfolding set_egress_routes
  set_egress_routes-AreUpdated gateways s q d plain h =
      let s1 = remove_gateways client env (keys s.0) gateways s in
      let (s2, e, w) =
        set_gateways-ArePlaced client env gateways s1 q d
          (held client env gateways gateways (keys s.0) s (own_keys gateways) h) in
      (
        process_egress_fw_rules client.rules gateways s2,
        rw (e, set_egress_routes) refl,
        kept gateways gateways s2 plain (ArePlaced-AreUpdated q d w),
      )
