-- ===== src/Dns/Resolver/Recorded.antt =====
-- What the query cache knows after recordDNSAnswers.
use netclient.Prelude.{
  ℕ, ◌≤◌, ◌≡◌, refl, List, [], ◌∷◌, true, if◌then◌else◌, Option, none, some, arith,
}
use netclient.Text.{Text, trim_suffix}
use netclient.Dns.Types.{Rr, a, aaaa, other}
use netclient.Dns.Domain.{dot}
use netclient.Dns.QueryCache.{Manager, record_resolution, lookup_domain}
use netclient.Dns.QueryCache.Reads.{
  same_address, record_resolution_lem, record_enabled, IsValid, NotAfter, IsMostRecent,
  lookup_domain-IsMostRecent, record_resolution-IsValid, record_resolution-NotAfter,
}
use netclient.Dns.Resolver.{record_dns_answers}

module _ {I : Type 0} (ip_string : I → Text) (canonical : Text → Option Text) where
  -- The name of the last answer for an address.
  unfoldable pub answered_name : Text → List (Rr I) → Option Text
  answered_name asked [] = none
  answered_name asked (a h ip ∷ rs) = elim (answered_name asked rs) [
    | some n ↦ some n
    | none ↦ if same_address (canonical (ip_string ip)) (canonical asked) then some h.name else none
  ]
  answered_name asked (aaaa h ip ∷ rs) = elim (answered_name asked rs) [
    | some n ↦ some n
    | none ↦ if same_address (canonical (ip_string ip)) (canonical asked) then some h.name else none
  ]
  answered_name asked (other h r ∷ rs) = answered_name asked rs

  -- Recording at a time and looking up then or later, whatever the order of the entries.
  record_dns_answers_lem :
      (answers : List (Rr I)) (m : Manager) (asked : Text) (now before : ℕ)
      → m.enabled ≡ true
      → now ≤ before
      → lookup_domain canonical (record_dns_answers ip_string canonical answers now m) asked before
        ≡ elim (answered_name asked answers) [
          | some name ↦ trim_suffix name dot
          | none ↦ lookup_domain canonical m asked before
        ]
  unfolding record_dns_answers answered_name
  record_dns_answers_lem [] m asked now before on h = refl
  record_dns_answers_lem (a hd ip ∷ rs) m asked now before on h =
      let next = record_resolution canonical m (ip_string ip) hd.name now in
      ground (
        arith,
        record_enabled canonical m (ip_string ip) hd.name now,
        record_dns_answers_lem rs next asked now before,
        record_resolution_lem canonical m (ip_string ip) hd.name asked now before on,
      )
  record_dns_answers_lem (aaaa hd ip ∷ rs) m asked now before on h =
      let next = record_resolution canonical m (ip_string ip) hd.name now in
      ground (
        arith,
        record_enabled canonical m (ip_string ip) hd.name now,
        record_dns_answers_lem rs next asked now before,
        record_resolution_lem canonical m (ip_string ip) hd.name asked now before on,
      )
  record_dns_answers_lem (other hd r ∷ rs) m asked now before on h =
      record_dns_answers_lem rs m asked now before on h

  record_dns_answers-IsValid :
      (answers : List (Rr I)) (m : Manager) (now : ℕ)
      → IsValid m
      → NotAfter now m.entries
      → IsValid (record_dns_answers ip_string canonical answers now m)
  unfolding record_dns_answers
  record_dns_answers-IsValid [] m now v n = v
  record_dns_answers-IsValid (a hd ip ∷ rs) m now v n =
      record_dns_answers-IsValid rs (record_resolution canonical m (ip_string ip) hd.name now) now
        (record_resolution-IsValid canonical m (ip_string ip) hd.name now v n)
        (record_resolution-NotAfter canonical m (ip_string ip) hd.name now n)
  record_dns_answers-IsValid (aaaa hd ip ∷ rs) m now v n =
      record_dns_answers-IsValid rs (record_resolution canonical m (ip_string ip) hd.name now) now
        (record_resolution-IsValid canonical m (ip_string ip) hd.name now v n)
        (record_resolution-NotAfter canonical m (ip_string ip) hd.name now n)
  record_dns_answers-IsValid (other hd r ∷ rs) m now v n = record_dns_answers-IsValid rs m now v n

  -- After the answers of a reply are recorded at a time that no stored entry exceeds, Lookup at that
  -- time or later gives for an address the name of the last answer with it, less the root dot, and
  -- for an address that no answer has what it gave before. Where the entries were in order, either
  -- is the domain that was resolved last at or before the time asked for. The cache is enabled.
  pub lookup_domain-record_dns_answers :
      (answers : List (Rr I)) (m : Manager) (asked : Text) (now before : ℕ)
      → m.enabled ≡ true
      → IsValid m
      → NotAfter now m.entries
      → now ≤ before
      → let m' = record_dns_answers ip_string canonical answers now m in
        (lookup_domain canonical m' asked before ≡ elim (answered_name asked answers) [
          | some name ↦ trim_suffix name dot
          | none ↦ lookup_domain canonical m asked before
        ])
        × IsMostRecent canonical m' asked before
  lookup_domain-record_dns_answers answers m asked now before on v n h = (
    record_dns_answers_lem answers m asked now before on h,
    lookup_domain-IsMostRecent canonical (record_dns_answers ip_string canonical answers now m)
        asked before (record_dns_answers-IsValid answers m now v n),
  )
