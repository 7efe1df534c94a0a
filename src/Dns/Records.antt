-- ===== src/Dns/Records.antt =====
-- dns/dns.go and the resolver's store in dns/resolver.go: the records of the networks, the store
-- that SyncDNS builds from them, and Lookup. `Ip` stands for net.IP without nil; `parse_ip` and
-- `to4` for net.ParseIP and for whether To4 is an address; `fqdn` for dns.Fqdn of the dns package.
pub mod Synced
use netclient.Prelude.{
  ℕ, List, [], ◌∷◌, ◌++◌, Bool, true, false, not, ◌&&◌, if◌then◌else◌, is_empty, Option, none, some,
  ◌==◌,
}
use netclient.Text.{Text, trim_suffix, decimal}
use netclient.Assoc.{lookup, insert}
use netclient.Dns.Types.{Rr, a, aaaa, Header, Question, type_a, type_aaaa}
use netclient.Dns.Domain.{dot}

abbrev pub ttl_timeout : ℕ
ttl_timeout = 3600

pub record DnsRecord : Type 0 where
  pub name : Text
  pub rtype : ℕ  -- uint16
  pub rdata : Text

-- models.DNSEntry, with the fields that SyncDNS reads.
pub record DnsEntry : Type 0 where
  pub name : Text
  pub address : Text
  pub address6 : Text

-- buildDNSEntryKey
unfoldable pub build_dns_entry_key : Text → ℕ → Text
build_dns_entry_key name t = name ++ (b'.' ∷ decimal t)

pub data LookupError : Type 0 where
  nx_domain no_qtype_record : LookupError

pub data LookupResult (R : Type 0) : Type 0 where
  found : R → LookupResult R
  missing : LookupError → LookupResult R

pub data SyncResult (S : Type 0) : Type 0 where
  synced : S → SyncResult S
  no_dns_entry : SyncResult S

module _ (Ip : Type 0) (parse_ip : Text → Option Ip) (to4 : Ip → Bool) (fqdn : Text → Text) where
  abbrev pub Record : Type 0
  Record = Rr (Option Ip)

  -- DNSResolver
  pub record Resolver : Type 0 where
    pub store : List (Text × Record)
    pub cache_map : List (Text × List DnsRecord)

  abbrev pub header_of : DnsRecord → Header
  header_of record_ = record { name = fqdn record_.name; class_inet = true; ttl = ttl_timeout }

  abbrev pub a_record : DnsRecord → Record
  a_record r = a (header_of r) (parse_ip r.rdata)

  abbrev pub aaaa_record : DnsRecord → Record
  aaaa_record r = aaaa (header_of r) (parse_ip r.rdata)

  -- RegisterA and RegisterAAAA
  unfoldable pub register_a : List (Text × Record) → DnsRecord → List (Text × Record)
  register_a store r = insert (build_dns_entry_key r.name r.rtype) (a_record r) store

  unfoldable pub register_aaaa : List (Text × Record) → DnsRecord → List (Text × Record)
  register_aaaa store r = insert (build_dns_entry_key r.name r.rtype) (aaaa_record r) store

  -- Whether To4 gives an address; nil has none.
  abbrev pub has_v4 : Option Ip → Bool
  has_v4 none = false
  has_v4 (some ip) = to4 ip

  -- The body of the first loop of SyncDNS: the records of one entry.
  unfoldable pub entry_records : DnsEntry → List DnsRecord
  entry_records v =
      (if not (is_empty v.address) && has_v4 (parse_ip v.address)
        then record { name = v.name; rtype = type_a; rdata = v.address } ∷ []
        else [])
      ++ (if not (is_empty v.address6) && not (has_v4 (parse_ip v.address6))
          then record { name = v.name; rtype = type_aaaa; rdata = v.address6 } ∷ []
          else [])

  unfoldable pub records_of : List DnsEntry → List DnsRecord
  unfolding entry_records
  records_of [] = []
  records_of (v ∷ entries) = entry_records v ++ records_of entries

  -- The loops that refresh the store, over the records of one network and over the networks.
  unfoldable pub register_all : List (Text × Record) → List DnsRecord → List (Text × Record)
  unfolding register_a register_aaaa
  register_all store [] = store
  register_all store (d ∷ records) =
      register_all
        (if d.rtype == type_a
          then register_a store d
          else if d.rtype == type_aaaa
          then register_aaaa store d
          else store)
        records

  unfoldable pub refresh :
      List (Text × Record) → List (Text × List DnsRecord) → List (Text × Record)
  unfolding register_all
  refresh store [] = store
  refresh store ((network, records) ∷ networks) = refresh (register_all store records) networks

  -- SyncDNS. A failed flush of the local cache is only logged.
  unfoldable pub sync_dns : Resolver → Text → List DnsEntry → SyncResult Resolver
  unfolding records_of refresh
  sync_dns d network entries =
      if is_empty entries
      then no_dns_entry
      else (let cache_map = insert network (records_of entries) d.cache_map in
          synced (record { store = refresh [] cache_map; cache_map = cache_map }))

  -- The switch of Lookup, when the key is missing.
  unfoldable pub missing_kind : List (Text × Record) → Text → ℕ → LookupError
  missing_kind store name qtype =
      if qtype == type_a
      then elim (lookup (build_dns_entry_key name type_aaaa) store) [
        | some r ↦ no_qtype_record
        | none ↦ nx_domain
      ]
      else if qtype == type_aaaa
      then elim (lookup (build_dns_entry_key name type_a) store) [
        | some r ↦ no_qtype_record
        | none ↦ nx_domain
      ]
      else nx_domain

  -- DNSResolver.Lookup, on the first question of the message.
  unfoldable pub lookup_record : List (Text × Record) → Question → LookupResult Record
  unfolding missing_kind
  lookup_record store q =
      let name = trim_suffix q.name dot in
      elim (lookup (build_dns_entry_key name q.qtype) store) [
        | some r ↦ found r
        | none ↦ missing (missing_kind store name q.qtype)
      ]
