-- ===== src/Dns/Resolver/Forward.antt =====
-- The nested loops of the handler, against one pass over a list of addresses.
use netclient.Prelude.{
  ◌≡◌, refl, List, [], ◌∷◌, ◌++◌, Bool, true, false, if◌then◌else◌, none, some, arith, Option-cases,
  inl, inr,
}
use netclient.Text.{Text}
use netclient.Dns.Types.{Nameserver}
use netclient.Dns.Resolver.{
  Exchange, usable, exchange_dns_query_with_pool, try_ips, try_nameservers, forward,
}

-- The addresses of the nameservers with the flag, in order.
unfoldable pub ips_of : Bool → List Nameserver → List Text
ips_of fallback [] = []
ips_of fallback (n ∷ ns) =
    let rest = ips_of fallback ns in
    if fallback
    then (if n.is_fallback then n.ips ++ rest else rest)
    else (if n.is_fallback then rest else n.ips ++ rest)

module _ {I W : Type 0} (exchange : Text → W → Exchange I × W) where
  try_ips-append :
      (l r : List Text) (w : W)
      → try_ips exchange (l ++ r) w ≡ elim (try_ips exchange l w).0 [
        | some m ↦ (some m, (try_ips exchange l w).1)
        | none ↦ try_ips exchange r (try_ips exchange l w).1
      ]
  unfolding try_ips
  try_ips-append [] r w = refl
  try_ips-append (ns ∷ l) r w =
      let (reply, w') = exchange_dns_query_with_pool exchange ns w in
      elim (Option-cases (usable exchange reply)) [
        | inl unusable ↦ ground (arith, try_ips-append l r w')
        | inr (m, u) ↦ ground arith
      ]

  try_nameservers-ips_of :
      (fallback : Bool) (ns : List Nameserver) (w : W)
      → try_nameservers exchange fallback ns w ≡ try_ips exchange (ips_of fallback ns) w
  unfolding try_nameservers ips_of
  try_nameservers-ips_of fallback [] w = unfold try_ips in refl
  try_nameservers-ips_of fallback (n ∷ ns) w = ground (
    arith,
    try_nameservers-ips_of fallback ns w,
    try_nameservers-ips_of fallback ns (try_ips exchange n.ips w).1,
    try_ips-append n.ips (ips_of fallback ns) w,
  )

  -- The handler asks the addresses of the nameservers one by one, all those that are no fallback
  -- before all that are, each list in order, and stops at the first usable reply.
  pub forward-ips_of :
      (best : List Nameserver) (w : W)
      → forward exchange best w ≡ try_ips exchange (ips_of false best ++ ips_of true best) w
  unfolding forward
  forward-ips_of best w = ground (
    arith,
    try_nameservers-ips_of false best w,
    try_nameservers-ips_of true best (try_ips exchange (ips_of false best) w).1,
    try_ips-append (ips_of false best) (ips_of true best) w,
  )
