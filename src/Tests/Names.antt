-- ===== src/Tests/Names.antt =====
-- Names, patterns, servers and records at concrete inputs.
use netclient.Prelude.{
  ◌≡◌, ◌↔◌, refl, List, [], ◌∷◌, ◌++◌, Bool, true, false, if◌then◌else◌, is_empty, take, keep, All,
  Option, none, some,
}
use netclient.Text.{Text, codes, has_suffix, trim_space, trim_suffix}
use netclient.Sets.{IsDistinct, nub_from}
use netclient.Assoc.{insert}
use netclient.Dns.Types.{Nameserver, EgressDomain, Rr, a, Question}
use netclient.Dns.Domain.{
  dot, canonicalize_domain_for_matching, normalize_domain_name, domain_matches_pattern,
  normalize_egress_lookup_domain, ok, sync_egress_domain_patterns, matches_egress_domain,
}
use netclient.Dns.Domain.Boundaries.{InDomain, IsBare, domain_matches_pattern_iff}
use netclient.Dns.Domain.Synced.{some_domain_matches, sync-matches_egress_domain}
use netclient.Dns.BestMatch.{find_best_match}
use netclient.Dns.BestMatch.Longest.{fits_at, top_score, IsNoBetter, find_best_match_lem}
use netclient.Dns.Servers.Limits.{limit_egress_dns_answers}
use netclient.Dns.Servers.Limits.First.{address_keys, others, limit_egress_dns_answers-take}
use netclient.Dns.Records.{DnsEntry, Resolver, refresh, records_of, sync_dns, synced, lookup_record}
use netclient.Dns.Records.Synced.{answer_of, all_records, lookup_record-sync_dns}

abbrev server : List Text → Text → Nameserver
server ips domain = record {
  ips = ips;
  match_domain = domain;
  is_fallback = false;
  is_search_domain = false;
  is_ad_domain = false;
}

abbrev wide : Nameserver
wide = server (codes "10.0.0.1" ∷ []) (codes "example.com")

abbrev narrow : Nameserver
narrow = server (codes "10.0.0.2" ∷ []) (codes "dev.example.com")

abbrev servers : List Nameserver
servers = wide ∷ narrow ∷ []

abbrev asked : Text
asked = codes "db.dev.example.com"

find_best_match_example :
    (find_best_match asked servers ≡ keep (fits_at asked (top_score asked servers)) servers)
    × All (IsNoBetter asked (top_score asked servers)) servers
find_best_match_example = find_best_match_lem asked servers

-- The narrower domain wins.
finds_narrow : find_best_match (canonicalize_domain_for_matching asked) servers ≡ narrow ∷ []
unfolding find_best_match has_suffix canonicalize_domain_for_matching netclient.Text.has_prefix
    netclient.Text.count_char
finds_narrow = refl

abbrev pattern_ : Text
pattern_ = codes "*.example.com"

pattern_trimmed : trim_space pattern_ ≡ pattern_
unfolding trim_space
pattern_trimmed = refl

domain_matches_pattern_example :
    (domain_matches_pattern asked pattern_ ≡ true)
    ↔ ((base : Text) × (normalize_egress_lookup_domain pattern_ ≡ ok base) × InDomain asked base)
domain_matches_pattern_example = domain_matches_pattern_iff asked pattern_ pattern_trimmed

asked-IsBare : IsBare asked
unfolding has_suffix netclient.Text.has_prefix
asked-IsBare = record { filled = refl; no_front = refl; no_end = refl }

domain_IsBare : IsBare (codes "example.com")
unfolding has_suffix netclient.Text.has_prefix
domain_IsBare = record { filled = refl; no_front = refl; no_end = refl }

abbrev domains : List EgressDomain
domains =
    record { id = codes "1"; domain = codes " *.Example.com" }
    ∷ record { id = codes "2"; domain = codes "*.example.com" }
    ∷ []

sync-matches_egress_domain_example :
    IsDistinct (sync_egress_domain_patterns domains)
    × (matches_egress_domain (sync_egress_domain_patterns domains) asked ≡ (
        if is_empty (normalize_domain_name asked)
        then false
        else some_domain_matches (normalize_domain_name asked) domains))
sync-matches_egress_domain_example = sync-matches_egress_domain domains asked

one_pattern : sync_egress_domain_patterns domains ≡ codes "*.example.com" ∷ []
unfolding sync_egress_domain_patterns trim_space netclient.Text.to_lower netclient.Sets.mem
    netclient.Text.text_eq
one_pattern = refl

abbrev ip_text : Text → Text
ip_text ip = ip

abbrev five_ips : List (Option Text)
five_ips =
    some (codes "1")
    ∷ none
    ∷ some (codes "2")
    ∷ some (codes "1")
    ∷ some (codes "3")
    ∷ some (codes "4")
    ∷ some (codes "5")
    ∷ []

abbrev answers : List (Rr Text)
answers =
    a (record { name = asked; class_inet = true; ttl = 60 }) (codes "1")
    ∷ a (record { name = asked; class_inet = true; ttl = 60 }) (codes "1")
    ∷ []

limit_egress_dns_answers-take_example :
    (address_keys ip_text (limit_egress_dns_answers ip_text answers)
      ≡ take 4 (nub_from [] (address_keys ip_text answers)))
    × (others ip_text (limit_egress_dns_answers ip_text answers) ≡ others ip_text answers)
limit_egress_dns_answers-take_example = limit_egress_dns_answers-take ip_text answers

abbrev parse_ip : Text → Option Text
parse_ip t = some t

abbrev is_v4 : Text → Bool
is_v4 t = true

abbrev fqdn : Text → Text
fqdn t = t ++ dot

abbrev entries : List DnsEntry
entries = record { name = codes "db.net"; address = codes "10.0.0.1"; address6 = [] } ∷ []

abbrev no_records : Resolver Text parse_ip is_v4 fqdn
no_records = record { store = []; cache_map = [] }

abbrev with_records : Resolver Text parse_ip is_v4 fqdn
with_records = record {
  store =
      refresh Text parse_ip is_v4 fqdn []
        (insert (codes "net") (records_of Text parse_ip is_v4 fqdn entries) []);
  cache_map = insert (codes "net") (records_of Text parse_ip is_v4 fqdn entries) [];
}

sync_test : sync_dns Text parse_ip is_v4 fqdn no_records (codes "net") entries ≡ synced with_records
unfolding sync_dns
sync_test = refl

abbrev question : Question
question = record { name = codes "db.net."; qtype = 1 }

lookup_record-sync_dns_example :
    (with_records.cache_map
      ≡ insert (codes "net") (records_of Text parse_ip is_v4 fqdn entries) no_records.cache_map)
    × (lookup_record Text parse_ip is_v4 fqdn with_records.store question
        ≡ answer_of Text parse_ip is_v4 fqdn
            (all_records with_records.cache_map)
            (trim_suffix question.name dot)
            question.qtype)
lookup_record-sync_dns_example =
    lookup_record-sync_dns Text parse_ip is_v4 fqdn no_records with_records (codes "net") entries
      question sync_test
