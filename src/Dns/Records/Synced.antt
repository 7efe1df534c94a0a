-- ===== src/Dns/Records/Synced.antt =====
-- What Lookup answers after a sync.
use netclient.Prelude.{
  ℕ, ◌≡◌, refl, ap, sym, ◌∙◌, List, [], ◌∷◌, ◌++◌, Bool, ◌&&◌, if◌then◌else◌, Option, none, some,
  ◌==◌, arith, Bool-cases, inl, inr, eq_of_iff,
}
use netclient.Text.{
  Text, text_eq, text_eq_iff, trim_suffix, decimal, decimal_injective, decimal-Lacks, cut_last,
  cut_last_append,
}
use netclient.Assoc.{lookup, insert, lookup-insert}
use netclient.Dns.Types.{Question, type_a, type_aaaa}
use netclient.Dns.Domain.{dot}
use netclient.Dns.Records.{
  DnsRecord, DnsEntry, build_dns_entry_key, Record, Resolver, a_record, aaaa_record, register_all,
  register_a, register_aaaa, refresh, records_of, sync_dns, lookup_record, synced, found, missing,
  nx_domain, no_qtype_record, LookupResult,
}

some_pair :
    {A B : Type 0} {x y : A} {u v : B}
    → ◌≡◌ {A = Option (A × B)} (some (x, u)) (some (y, v))
    → (x ≡ y) × (u ≡ v)
some_pair e = (cc, cc)

-- The keys of the store tell names and record types apart: no two records share a key by accident.
pub build_dns_entry_key_injective :
    (n m : Text) (t u : ℕ) → build_dns_entry_key n t ≡ build_dns_entry_key m u → (n ≡ m) × (t ≡ u)
unfolding build_dns_entry_key
build_dns_entry_key_injective n m t u e =
    let (names, types) = some_pair (
      sym (cut_last_append b'.' n (decimal t) (decimal-Lacks t))
      ∙ (ap (cut_last b'.') e ∙ cut_last_append b'.' m (decimal u) (decimal-Lacks u))) in
    (names, decimal_injective t u types)

key_test :
    (n m : Text) (t u : ℕ)
    → text_eq (build_dns_entry_key n t) (build_dns_entry_key m u) ≡ (text_eq n m && t == u)
key_test n m t u =
    eq_of_iff _ _
      (λ h.
        let (e, f) =
          build_dns_entry_key_injective n m t u
            ((text_eq_iff (build_dns_entry_key n t) (build_dns_entry_key m u)).0 h) in
        ground (arith, text_eq_iff n m))
      (λ h.
        let e : n ≡ m = ground (arith, text_eq_iff n m) in
        let f : t ≡ u = ground arith in (text_eq_iff _ _).1 (cc))

-- The last record of the list with the name and the type.
unfoldable pub last_record : Text → ℕ → List DnsRecord → Option DnsRecord
last_record name t [] = none
last_record name t (r ∷ records) = elim (last_record name t records) [
  | some found_later ↦ some found_later
  | none ↦ if text_eq r.name name && r.rtype == t then some r else none
]

-- All records of all networks, in the order in which the map is visited.
unfoldable pub all_records : List (Text × List DnsRecord) → List DnsRecord
all_records [] = []
all_records ((network, records) ∷ networks) = records ++ all_records networks

last_record-append :
    (name : Text) (t : ℕ) (l r : List DnsRecord)
    → last_record name t (l ++ r)
      ≡ elim (last_record name t r) [ some x ↦ some x | none ↦ last_record name t l ]
unfolding last_record
last_record-append name t [] r = ground arith
last_record-append name t (x ∷ l) r = ground (arith, last_record-append name t l r)

module _ (Ip : Type 0) (parse_ip : Text → Option Ip) (to4 : Ip → Bool) (fqdn : Text → Text) where
  -- The record of the dns package that is stored for a record of a network.
  unfoldable pub stored : ℕ → DnsRecord → Option (Record Ip parse_ip to4 fqdn)
  stored t r =
      if t == type_a
      then some (a_record Ip parse_ip to4 fqdn r)
      else if t == type_aaaa
      then some (aaaa_record Ip parse_ip to4 fqdn r)
      else none

  -- What the store holds for a name and a type, given the records that were registered last.
  unfoldable pub held :
      Option DnsRecord
      → ℕ
      → Option (Record Ip parse_ip to4 fqdn)
      → Option (Record Ip parse_ip to4 fqdn)
  unfolding stored
  held (some r) t before =
      if t == type_a then stored t r else if t == type_aaaa then stored t r else before
  held none t before = before

  register_a-lookup :
      (name : Text) (t : ℕ) (store : List (Text × Record Ip parse_ip to4 fqdn)) (r : DnsRecord)
      → lookup (build_dns_entry_key name t) (register_a Ip parse_ip to4 fqdn store r) ≡ (
          if text_eq (build_dns_entry_key r.name r.rtype) (build_dns_entry_key name t)
          then some (a_record Ip parse_ip to4 fqdn r)
          else lookup (build_dns_entry_key name t) store)
  unfolding register_a
  register_a-lookup name t store r =
      lookup-insert (build_dns_entry_key r.name r.rtype) (build_dns_entry_key name t)
        (a_record Ip parse_ip to4 fqdn r) store

  register_aaaa-lookup :
      (name : Text) (t : ℕ) (store : List (Text × Record Ip parse_ip to4 fqdn)) (r : DnsRecord)
      → lookup (build_dns_entry_key name t) (register_aaaa Ip parse_ip to4 fqdn store r) ≡ (
          if text_eq (build_dns_entry_key r.name r.rtype) (build_dns_entry_key name t)
          then some (aaaa_record Ip parse_ip to4 fqdn r)
          else lookup (build_dns_entry_key name t) store)
  unfolding register_aaaa
  register_aaaa-lookup name t store r =
      lookup-insert (build_dns_entry_key r.name r.rtype) (build_dns_entry_key name t)
        (aaaa_record Ip parse_ip to4 fqdn r) store

  register_all-lookup :
      (name : Text) (t : ℕ) (records : List DnsRecord)
      (store : List (Text × Record Ip parse_ip to4 fqdn))
      → lookup (build_dns_entry_key name t) (register_all Ip parse_ip to4 fqdn store records)
        ≡ held (last_record name t records) t (lookup (build_dns_entry_key name t) store)
  unfolding register_all last_record held
  register_all-lookup name t [] store = refl
  register_all-lookup name t (r ∷ records) store = elim (Bool-cases (r.rtype == type_a)) [
    | inl v4 ↦ ground (
      arith,
      register_all-lookup name t records (register_a Ip parse_ip to4 fqdn store r),
      register_a-lookup name t store r,
      key_test r.name name r.rtype t,
    )
    | inr e ↦ elim (Bool-cases (r.rtype == type_aaaa)) [
      | inl v6 ↦ ground (
        arith,
        register_all-lookup name t records (register_aaaa Ip parse_ip to4 fqdn store r),
        register_aaaa-lookup name t store r,
        key_test r.name name r.rtype t,
      )
      | inr f ↦ ground (arith, register_all-lookup name t records store)
    ]
  ]

  refresh-lookup :
      (name : Text) (t : ℕ) (networks : List (Text × List DnsRecord))
      (store : List (Text × Record Ip parse_ip to4 fqdn))
      → lookup (build_dns_entry_key name t) (refresh Ip parse_ip to4 fqdn store networks)
        ≡ held
            (last_record name t (all_records networks))
            t
            (lookup (build_dns_entry_key name t) store)
  unfolding refresh all_records held last_record
  refresh-lookup name t [] store = refl
  refresh-lookup name t ((network, records) ∷ networks) store = ground (
    arith,
    refresh-lookup name t networks (register_all Ip parse_ip to4 fqdn store records),
    register_all-lookup name t records store,
    last_record-append name t records (all_records networks),
  )

  -- What a question is answered with, by the records alone.
  unfoldable pub answer_of : List DnsRecord → Text → ℕ → LookupResult (Record Ip parse_ip to4 fqdn)
  answer_of records name t =
      if t == type_a
      then elim (last_record name type_a records) [
        | some r ↦ found (a_record Ip parse_ip to4 fqdn r)
        | none ↦ elim (last_record name type_aaaa records) [
          | some r ↦ missing no_qtype_record
          | none ↦ missing nx_domain
        ]
      ]
      else if t == type_aaaa
      then elim (last_record name type_aaaa records) [
        | some r ↦ found (aaaa_record Ip parse_ip to4 fqdn r)
        | none ↦ elim (last_record name type_a records) [
          | some r ↦ missing no_qtype_record
          | none ↦ missing nx_domain
        ]
      ]
      else missing nx_domain

  refreshed :
      (name : Text) (t : ℕ) (networks : List (Text × List DnsRecord))
      → lookup (build_dns_entry_key name t) (refresh Ip parse_ip to4 fqdn [] networks)
        ≡ held (last_record name t (all_records networks)) t none
  unfolding lookup
  refreshed name t networks = refresh-lookup name t networks []

  lookup_record-refresh :
      (networks : List (Text × List DnsRecord)) (q : Question)
      → lookup_record Ip parse_ip to4 fqdn (refresh Ip parse_ip to4 fqdn [] networks) q
        ≡ answer_of (all_records networks) (trim_suffix q.name dot) q.qtype
  unfolding lookup_record answer_of held
  lookup_record-refresh networks q =
      let name = trim_suffix q.name dot in
      ground (
        arith,
        refreshed name q.qtype networks,
        refreshed name type_a networks,
        refreshed name type_aaaa networks,
      )

  -- After SyncDNS with entries, Lookup answers by the records of all networks, the synced network's
  -- replaced by its new entries: a question for an address gets the record registered last for its
  -- name and type; without one it is told apart whether the name has an address of the other kind;
  -- every other question gets that the domain does not exist.
  pub lookup_record-sync_dns :
      (d d' : Resolver Ip parse_ip to4 fqdn) (network : Text) (entries : List DnsEntry)
      (q : Question)
      → sync_dns Ip parse_ip to4 fqdn d network entries ≡ synced d'
      → (d'.cache_map ≡ insert network (records_of Ip parse_ip to4 fqdn entries) d.cache_map)
        × (lookup_record Ip parse_ip to4 fqdn d'.store q
            ≡ answer_of (all_records d'.cache_map) (trim_suffix q.name dot) q.qtype)
  unfolding sync_dns
  lookup_record-sync_dns d d' network entries q h =
      let cm = insert network (records_of Ip parse_ip to4 fqdn entries) d.cache_map in
      let e : d' ≡ record { store = refresh Ip parse_ip to4 fqdn [] cm; cache_map = cm } =
        ground arith in
      rw e (refl, lookup_record-refresh cm q)
