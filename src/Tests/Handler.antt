-- ===== src/Tests/Handler.antt =====
-- dns/resolver.go at concrete inputs: one local record, a nameserver that answers, an egress domain.
use netclient.Prelude.{
  ℕ, ◌+◌, ◌≡◌, refl, List, [], ◌∷◌, ◌++◌, true, false, if◌then◌else◌, Option, none, some, arith,
}
use netclient.Text.{Text, codes, text_eq, trim_suffix}
use netclient.Dns.Types.{Nameserver, Rr, a, Msg, Question, rcode_success}
use netclient.Dns.Domain.{canonicalize_domain_for_matching, matches_egress_domain, dot}
use netclient.Dns.BestMatch.{find_best_match}
use netclient.Dns.Records.{missing, nx_domain}
use netclient.Dns.QueryCache.{Manager, lookup_domain}
use netclient.Dns.Resolver.{
  Exchange, failed, message, Config, replied, handle_dns_request, try_ips, take_from, forward,
  record_dns_answers, resolve_loop,
}
use netclient.Dns.Resolver.Forward.{ips_of, forward-ips_of}
use netclient.Dns.Resolver.Choice.{
  IsAnswered, handle_dns_request-local, handle_dns_request-egress, asked_servers, IsEgressResponse,
}
use netclient.Dns.QueryCache.Reads.{IsValid, IsMostRecent}
use netclient.Dns.Resolver.Recorded.{lookup_domain-record_dns_answers, answered_name}

abbrev example : Text
example = codes "example.com."

abbrev answer_rr : Rr Text
answer_rr = a (record { name = example; class_inet = true; ttl = 60 }) (codes "10.0.0.9")

abbrev answer : Msg Text
answer = record { rcode = rcode_success; authoritative = false; answer = answer_rr ∷ [] }

-- The network counts the queries; the server at 10.0.0.53 answers, the others fail.
abbrev network : Text → ℕ → Exchange Text × ℕ
network ns w = (if text_eq ns (codes "10.0.0.53:53") then message answer else failed, w + 1)

abbrev ip_text : Text → Text
ip_text ip = ip

abbrev nameserver : Nameserver
nameserver = record {
  ips = codes "10.0.0.1" ∷ codes "10.0.0.53" ∷ [];
  match_domain = codes ".";
  is_fallback = false;
  is_search_domain = false;
  is_ad_domain = false;
}

abbrev config : Config Text
config = record {
  curr_gw = none;
  nameservers = some (nameserver ∷ []);
  patterns = codes "corp.example" ∷ [];
  local_records = λ q. missing nx_domain;
}

abbrev plain : Question
plain = record { name = example; qtype = 1 }

abbrev egress : Question
egress = record { name = codes "a.corp.example."; qtype = 1 }

abbrev best : List Nameserver
best = find_best_match (canonicalize_domain_for_matching example) (nameserver ∷ [])

abbrev asked : Option (Msg Text) × ℕ
asked = try_ips network (ips_of false best ++ ips_of true best) 0

plain_matches : matches_egress_domain config.patterns plain.name ≡ false
unfolding matches_egress_domain netclient.Dns.Domain.normalize_domain_name netclient.Text.trim_char
    netclient.Text.trim_space netclient.Text.to_lower netclient.Dns.Domain.domain_matches_pattern
    netclient.Text.has_prefix text_eq netclient.Text.has_suffix
plain_matches = refl

egress_matches : matches_egress_domain config.patterns egress.name ≡ true
unfolding matches_egress_domain netclient.Dns.Domain.normalize_domain_name netclient.Text.trim_char
    netclient.Text.trim_space netclient.Text.to_lower netclient.Dns.Domain.domain_matches_pattern
    netclient.Text.has_prefix text_eq netclient.Text.has_suffix
egress_matches = refl

handle_dns_request-local_example :
    IsAnswered ip_text network config plain 0
      (ips_of false best ++ ips_of true best)
      (config.local_records plain)
handle_dns_request-local_example =
    handle_dns_request-local ip_text network config (nameserver ∷ []) plain 0 refl refl
      plain_matches

-- The second server of the list answers.
asked_twice : asked ≡ (some answer, 2)
unfolding try_ips ips_of find_best_match netclient.Text.has_suffix canonicalize_domain_for_matching
    netclient.Text.has_prefix netclient.Dns.Resolver.exchange_dns_query_with_pool
    netclient.Text.contains
asked_twice = refl

egress_asked : (asked_servers ip_text network (nameserver ∷ []) egress 0).0 ≡ some answer
unfolding resolve_loop netclient.Dns.Servers.egress_resolution_servers_for_domain find_best_match
    netclient.Text.has_suffix canonicalize_domain_for_matching netclient.Text.has_prefix
    netclient.Dns.Domain.normalize_domain_name netclient.Text.trim_char netclient.Text.trim_space
    netclient.Text.to_lower netclient.Sets.mem netclient.Dns.Resolver.egress_response
    netclient.Dns.Resolver.exchange_dns_query_with_pool netclient.Text.contains
    netclient.Dns.Servers.Limits.limit_egress_dns_answers
egress_asked = refl

handle_dns_request-egress_example :
    (handle_dns_request ip_text network config egress 0 ≡ (
      replied (take_from ip_text network answer),
      (asked_servers ip_text network (nameserver ∷ []) egress 0).1,
    ))
    × IsEgressResponse ip_text network answer
handle_dns_request-egress_example =
    handle_dns_request-egress ip_text network config (nameserver ∷ []) egress 0 answer refl refl
      egress_matches egress_asked

forward-ips_of_example :
    forward network (nameserver ∷ []) 0
    ≡ try_ips network (ips_of false (nameserver ∷ []) ++ ips_of true (nameserver ∷ [])) 0
forward-ips_of_example = forward-ips_of network (nameserver ∷ []) 0

abbrev canonical : Text → Option Text
canonical ip = some ip

abbrev empty_cache : Manager
empty_cache = record { enabled = true; cancel = none; cleanups = 1; entries = [] }

empty_cache-IsValid : IsValid empty_cache
empty_cache-IsValid = record { ordered = tt; distinct = tt }

abbrev recorded : Manager
recorded = record_dns_answers ip_text canonical (answer_rr ∷ []) 5 empty_cache

lookup_domain-record_dns_answers_example :
    (lookup_domain canonical recorded (codes "10.0.0.9") 7
      ≡ elim (answered_name ip_text canonical (codes "10.0.0.9") (answer_rr ∷ [])) [
        | some name ↦ trim_suffix name dot
        | none ↦ lookup_domain canonical empty_cache (codes "10.0.0.9") 7
      ])
    × IsMostRecent canonical recorded (codes "10.0.0.9") 7
lookup_domain-record_dns_answers_example =
    lookup_domain-record_dns_answers ip_text canonical (answer_rr ∷ []) empty_cache
      (codes "10.0.0.9") 5 7 refl empty_cache-IsValid tt (omega arith)
