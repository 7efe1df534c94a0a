-- ===== src/Firewall/Routing/Entries.antt =====
-- firewall/egress.go: the entries of SetEgressRoutes in the table.
use netclient.Prelude.{◌≡◌, refl, List, [], ◌∷◌, true, ◌||◌, arith, sym, ◌∙◌, some, All}
use netclient.Text.{Text}
use netclient.Assoc.{has_key, keys, HasDistinctKeys, own_keys}
use netclient.Firewall.Kernel.{ChainClient}
use netclient.Firewall.Manager.{EgressTable}
use netclient.Firewall.Acl.Tables.{mem-keys}
use netclient.Firewall.Egress.{EgressInfo, process_egress_fw_rules}
use netclient.Firewall.Egress.Tables.{is_entry_of, has_key-process_egress_fw_rules}
use netclient.Firewall.Routing.{RoutingEnv, remove_gateways, set_egress_routes}
use netclient.Firewall.Routing.Stale.{IsKeyed, IsHashless, is_stale-entry, is_stale-gateway}
use netclient.Firewall.Routing.Removed.{lookup-remove_gateways, has_key-remove_gateways}
use netclient.Firewall.Routing.Placed.{HoldsRanges, set_gateways-ArePlaced, has_key-ArePlaced}

module _ {K : Type 0} (client : ChainClient K) (env : RoutingEnv K) where
  -- The keys of a part of the update stand in the update.
  pub held :
      (all l : List (Text × EgressInfo)) (ids : List Text) (s : EgressTable × K)
      → All (λ g. has_key g.0 all ≡ true) l
      → All (λ g. HoldsRanges s.0 g.0) l
      → All (λ g. HoldsRanges (remove_gateways client env ids all s).0 g.0) l
  held all [] ids s k h = tt
  held all ((i, info) ∷ l) ids s k h = (
    λ c e. h.0 c (sym (lookup-remove_gateways client env i ids all s k.0) ∙ e),
    held all l ids s k.1 h.1,
  )

  -- Behind SetEgressRoutes the server's table has the entries of the gateways of the update, those
  -- of their policies, whose keys are `acl#` before the IDs, and no other. The gateways stand under
  -- their own IDs, each once, and no ID contains a `#`. The entries that gateways have before, if
  -- any, hold ranges, since SetEgressRoutes panics at others; those of policies go in its first loop
  -- whatever they hold. The table is else arbitrary, as is the kernel, and any call to it may fail.
  pub has_key-set_egress_routes :
      (gateways : List (Text × EgressInfo)) (s : EgressTable × K) (j : Text)
      → IsKeyed gateways
      → HasDistinctKeys gateways
      → All (λ g. IsHashless g.0) gateways
      → All (λ g. HoldsRanges s.0 g.0) gateways
      → (s' : EgressTable × K) × (set_egress_routes client env gateways s ≡ some s')
        × (has_key j s'.0 ≡ is_entry_of j gateways || has_key j gateways)
  unfolding set_egress_routes
  has_key-set_egress_routes gateways s j q d plain h =
      let s1 = remove_gateways client env (keys s.0) gateways s in
      let (s2, e, w) =
        set_gateways-ArePlaced client env gateways s1 q d
          (held gateways gateways (keys s.0) s (own_keys gateways) h) in
      (
        process_egress_fw_rules client.rules gateways s2,
        rw (e, set_egress_routes) refl,
        ground (
          arith,
          has_key-process_egress_fw_rules client.rules gateways s2 j,
          has_key-ArePlaced client env j q w,
          has_key-remove_gateways client env j (keys s.0) gateways s,
          mem-keys j s.0,
          is_stale-entry j gateways q plain,
          is_stale-gateway j gateways plain,
        ),
      )
