-- ===== src/Handlers/EgressDomain.antt =====
-- functions/mqhandlers.go: CheckEgressDomainUpdates, processEgressDomain and checkIPConnectivity,
-- and functions/egressdomains.go: isLocalEgressGateway. An address is its text. Dialling, pinging,
-- the lookup of a name and the message to the server are arguments. The cached addresses are sorted
-- in place, so that the cache holds them sorted.
pub mod Careful
use netclient.Prelude.{
  ℕ, Bool, true, false, not, ◌&&◌, ◌||◌, Option, none, some, List, [], ◌∷◌, ◌++◌, ◌==◌, ltb, map,
  is_empty, if◌then◌else◌,
}
use netclient.Text.{Text, codes, text_eq}
use netclient.Assoc.{lookup, insert}

-- models.EgressDomain, in the parts that are read here.
pub record GatewayDomain : Type 0 where
  pub id : Text
  pub domain : Text
  pub host_id : Text

-- The order of strings.
unfoldable pub text_leb : Text → Text → Bool
text_leb [] t = true
text_leb (x ∷ s) [] = false
text_leb (x ∷ s) (y ∷ t) = if x == y then text_leb s t else ltb x y

-- slices.Sort
unfoldable pub insert_sorted : Text → List Text → List Text
insert_sorted a [] = a ∷ []
insert_sorted a (b ∷ l) = if text_leb a b then a ∷ b ∷ l else b ∷ insert_sorted a l

unfoldable pub sort : List Text → List Text
sort [] = []
sort (a ∷ l) = insert_sorted a (sort l)

-- slices.Equal
unfoldable pub equal : List Text → List Text → Bool
equal [] [] = true
equal (a ∷ l) (b ∷ m) = text_eq a b && equal l m
equal _ _ = false

-- isLocalEgressGateway on the host of that ID.
unfoldable pub is_local_egress_gateway : Text → GatewayDomain → Bool
is_local_egress_gateway host_id d =
    if is_empty host_id
    then true
    else if is_empty d.host_id
    then true
    else text_eq d.host_id host_id

-- What is asked: the ID of the host; the family of an address, none where it does not parse; a
-- dialled connection by network, address and port; a ping; the addresses of a name, none on an
-- error; and whether the server takes an update.
pub record DomainEnv : Type 0 where
  pub host_id : Text
  pub is_v4 : Text → Option Bool
  pub dials : Text → Text → ℕ → Bool
  pub pings : Text → Bool
  pub resolve_domain_to_ips : Text → Option (List Text)
  pub sends : Bool

module _ (env : DomainEnv) where
  unfoldable pub dial_ports : Text → Text → List ℕ → Bool
  dial_ports network ip [] = false
  dial_ports network ip (port ∷ ports) = env.dials network ip port || dial_ports network ip ports

  -- Whether an address answers: on a port, or to a ping.
  unfoldable pub ip_reachable : Text → Bool
  ip_reachable ip = elim (env.is_v4 ip) [
    | none ↦ false
    | some v4 ↦
        dial_ports (if v4 then codes "tcp4" else codes "tcp6") ip (80 ∷ 443 ∷ 22 ∷ [])
        || env.pings ip
  ]

  unfoldable pub check_ip_connectivity : List Text → Bool
  check_ip_connectivity [] = false
  check_ip_connectivity (ip ∷ ips) = ip_reachable ip || check_ip_connectivity ips

  -- The range of an address; one that does not parse has no four bytes.
  unfoldable pub range_of : Text → Text
  range_of ip = elim (env.is_v4 ip) [
    | none ↦ ip ++ codes "/128"
    | some v4 ↦ if v4 then ip ++ codes "/32" else ip ++ codes "/128"
  ]

  -- The update that is sent, as its ranges, and the cache of addresses by ID.
  abbrev pub Processed : Type 0
  Processed = Option (List Text) × List (Text × List Text)

  unfoldable pub send_update : GatewayDomain → List Text → List (Text × List Text) → Processed
  send_update d ips cache =
      (some (map range_of ips), if env.sends then insert d.id ips cache else cache)

  -- Whether to send, where the cached addresses and the new ones are sorted.
  unfoldable pub must_send : Bool → List Text → List Text → Bool
  must_send force old new = force || (not (equal old new) && not (check_ip_connectivity old))

  -- The comparison with the cached addresses.
  unfoldable pub compare_ips :
      GatewayDomain → Bool → List Text → List Text → List (Text × List Text) → Processed
  compare_ips d force [] ips cache = send_update d ips cache
  compare_ips d force (c ∷ current) ips cache =
      let old = sort (c ∷ current) in
      let new = sort ips in
      let cache' = insert d.id old cache in
      if must_send force old new then send_update d new cache' else (none, cache')

  abbrev pub cached : GatewayDomain → List (Text × List Text) → List Text
  cached d cache = elim (lookup d.id cache) [ none ↦ [] | some ips ↦ ips ]

  unfoldable pub process_egress_domain : GatewayDomain → Bool → List (Text × List Text) → Processed
  process_egress_domain d force cache =
      if not (is_local_egress_gateway env.host_id d)
      then (none, cache)
      else elim (env.resolve_domain_to_ips d.domain) [
        | none ↦ (none, cache)
        | some ips ↦
            if is_empty ips then (none, cache) else compare_ips d force (cached d cache) ips cache
      ]

  -- CheckEgressDomainUpdates: the updates that are sent, by the domain, and the cache.
  unfoldable pub check_egress_domain_updates :
      List GatewayDomain
      → List (Text × List Text)
      → List (Text × List Text) × List (Text × List Text)
  check_egress_domain_updates [] cache = ([], cache)
  check_egress_domain_updates (d ∷ domains) cache =
      let (sent, cache') = process_egress_domain d false cache in
      let (more, cache'') = check_egress_domain_updates domains cache' in
      (elim sent [ none ↦ more | some ranges ↦ (d.id, ranges) ∷ more ], cache'')
