-- ===== src/Handlers/EgressDomain/Careful.antt =====
-- functions/mqhandlers.go: when processEgressDomain reports addresses and when it remembers them.
use netclient.Prelude.{
  ◌≡◌, refl, ◌⊎◌, inl, inr, Bool, true, false, not, Option, none, some, List, [], ◌∷◌, map, arith,
  is_empty, if◌then◌else◌, Bool-cases, ap, ◌∙◌,
}
use netclient.Text.{Text, text_eq, text_eq_refl}
use netclient.Assoc.{lookup, insert, lookup-insert}
use netclient.Handlers.EgressDomain.{
  GatewayDomain, DomainEnv, sort, equal, is_local_egress_gateway, check_ip_connectivity, range_of,
  must_send, send_update, compare_ips, cached, process_egress_domain,
}

module _ (env : DomainEnv) (d : GatewayDomain) (force : Bool)
    (cache : List (Text × List Text)) where
  -- What is sent is the ranges of the addresses that the name has, in some order, of a domain whose
  -- gateway the host is; and without force only where none were known, or where those known
  -- differ and do not answer.
  abbrev pub IsJustified : List Text → Type 0
  IsJustified ranges =
      (is_local_egress_gateway env.host_id d ≡ true)
      × ((ips : List Text) × (env.resolve_domain_to_ips d.domain ≡ some ips)
          × ((ranges ≡ map (range_of env) ips) ⊎ (ranges ≡ map (range_of env) (sort ips)))
          × (force ≡ false
              → (cached env d cache ≡ [])
                ⊎ ((equal (sort (cached env d cache)) (sort ips) ≡ false)
                    × (check_ip_connectivity env (sort (cached env d cache)) ≡ false))))

  -- The addresses that are remembered for another domain stay, and those of this one are as they
  -- were, sorted or not; or the server has taken an update with the new ones.
  abbrev pub IsRemembered : Option (List Text) × List (Text × List Text) → Type 0
  IsRemembered r =
      ((id : Text) → text_eq d.id id ≡ false → lookup id r.1 ≡ lookup id cache)
      × ((lookup d.id r.1 ≡ lookup d.id cache)
          ⊎ ((lookup d.id r.1 ≡ some (sort (cached env d cache)))
              ⊎ ((ips : List Text) × (lookup d.id r.1 ≡ some ips)
                  × (r.0 ≡ some (map (range_of env) ips))
                  × (env.sends ≡ true))))

  abbrev pub IsCareful : Option (List Text) × List (Text × List Text) → Type 0
  IsCareful r = ((ranges : List Text) → r.0 ≡ some ranges → IsJustified ranges) × IsRemembered r

  -- The comparison, for addresses that the name has and a cache entry `current`.
  module _ (ips current : List Text) (is_local : is_local_egress_gateway env.host_id d ≡ true)
      (resolved : env.resolve_domain_to_ips d.domain ≡ some ips)
      (known : cached env d cache ≡ current) where
    first-IsCareful : current ≡ [] → IsCareful (send_update env d ips cache)
    unfolding send_update
    first-IsCareful e = (
      λ ranges h. (is_local, (ips, resolved, inl (ground (arith, h)), λ f. inl (known ∙ e))),
      (
        λ id n. ground (arith, n, lookup-insert d.id id ips cache),
        ground (arith, lookup-insert d.id d.id ips cache, text_eq_refl d.id),
      ),
    )

    abbrev sorted : List (Text × List Text)
    sorted = insert d.id (sort current) cache

    kept-IsCareful : IsCareful (none, sorted)
    kept-IsCareful = (
      λ ranges h. absurd (ground (arith, h)),
      (
        λ id n. ground (arith, n, lookup-insert d.id id (sort current) cache),
        inr (
            inl (
              ground (
                arith,
                lookup-insert d.id d.id (sort current) cache,
                text_eq_refl d.id,
                ap sort known,
              ))),
      ),
    )

    must_send-justified :
        must_send env force (sort current) (sort ips) ≡ true
        → force ≡ false
        → (equal (sort current) (sort ips) ≡ false)
          × (check_ip_connectivity env (sort current) ≡ false)
    unfolding must_send
    must_send-justified m f = ground (arith, m, f)

    sent-IsCareful :
        must_send env force (sort current) (sort ips) ≡ true
        → IsCareful (send_update env d (sort ips) sorted)
    unfolding send_update
    sent-IsCareful m = (
      λ ranges h. (
        is_local,
        (ips, resolved, inr (ground (arith, h)), λ f. inr (rw known (must_send-justified m f))),
      ),
      (
        λ id n. ground (
          arith,
          n,
          lookup-insert d.id id (sort ips) sorted,
          lookup-insert d.id id (sort current) cache,
        ),
        elim (Bool-cases env.sends) [
          | inl e ↦ inr (
              inr (
                sort ips,
                ground (arith, e, lookup-insert d.id d.id (sort ips) sorted, text_eq_refl d.id),
                refl,
                e,
              ))
          | inr e ↦ inr (
              inl (
                ground (
                  arith,
                  e,
                  lookup-insert d.id d.id (sort current) cache,
                  text_eq_refl d.id,
                  ap sort known,
                )))
        ],
      ),
    )

  compare_ips-IsCareful :
      (ips current : List Text)
      → is_local_egress_gateway env.host_id d ≡ true
      → env.resolve_domain_to_ips d.domain ≡ some ips
      → cached env d cache ≡ current
      → IsCareful (compare_ips env d force current ips cache)
  unfolding compare_ips
  compare_ips-IsCareful ips [] l r c = first-IsCareful ips [] l r c refl
  compare_ips-IsCareful ips (a ∷ current) l r c = by_test _ refl
    where
      by_test :
          (b : Bool)
          → must_send env force (sort (a ∷ current)) (sort ips) ≡ b
          → IsCareful (
              if b
              then send_update env d (sort ips) (insert d.id (sort (a ∷ current)) cache)
              else (none, insert d.id (sort (a ∷ current)) cache))
      by_test true e = sent-IsCareful ips (a ∷ current) l r c e
      by_test false e = kept-IsCareful ips (a ∷ current) l r c

  untouched-IsCareful : IsCareful (none, cache)
  untouched-IsCareful = (λ ranges h. absurd (ground (arith, h)), (λ id n. refl, inl refl))

  -- processEgressDomain sends only what it may: the ranges of the addresses that the name has, for a
  -- domain whose gateway the host is, and without force only where none were remembered, or where
  -- those remembered differ and none of them answers. It remembers new addresses only where
  -- the server has taken them, and touches no other domain's.
  pub process_egress_domain-IsCareful : IsCareful (process_egress_domain env d force cache)
  unfolding process_egress_domain
  process_egress_domain-IsCareful = by_gateway _ refl
    where
      by_ips :
          (ips : List Text)
          → is_local_egress_gateway env.host_id d ≡ true
          → env.resolve_domain_to_ips d.domain ≡ some ips
          → IsCareful (
              if is_empty ips
              then (none, cache)
              else compare_ips env d force (cached env d cache) ips cache)
      by_ips [] l r = untouched-IsCareful
      by_ips (ip ∷ ips) l r = compare_ips-IsCareful (ip ∷ ips) (cached env d cache) l r refl

      by_answer :
          (o : Option (List Text))
          → is_local_egress_gateway env.host_id d ≡ true
          → env.resolve_domain_to_ips d.domain ≡ o
          → IsCareful (elim o [
            | none ↦ (none, cache)
            | some ips ↦
                if is_empty ips
                then (none, cache)
                else compare_ips env d force (cached env d cache) ips cache
          ])
      by_answer none l r = untouched-IsCareful
      by_answer (some ips) l r = by_ips ips l r

      by_gateway :
          (b : Bool)
          → is_local_egress_gateway env.host_id d ≡ b
          → IsCareful (
              if not b then (none, cache) else elim (env.resolve_domain_to_ips d.domain) [
                | none ↦ (none, cache)
                | some ips ↦
                    if is_empty ips
                    then (none, cache)
                    else compare_ips env d force (cached env d cache) ips cache
              ])
      by_gateway false e = untouched-IsCareful
      by_gateway true e = by_answer (env.resolve_domain_to_ips d.domain) e refl
