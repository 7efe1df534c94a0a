-- ===== src/Dns/Domain/Patterns.antt =====
-- domainMatchesPattern, NormalizeEgressLookupDomain and the list of patterns that
-- SyncEgressDomainPatterns keeps.
use netclient.Prelude.{List, [], ◌∷◌, ◌++◌, Bool, true, false, ◌||◌, if◌then◌else◌, is_empty}
use netclient.Text.{
  Text, text_eq, has_prefix, has_suffix, trim_space, to_lower, trim_prefix, contains,
}
use netclient.Sets.{mem}
use netclient.Dns.Types.{EgressDomain}
use netclient.Dns.Domain.Canonical.{dot, normalize_domain_name}

abbrev pub wildcard : Text
wildcard = b'*' ∷ b'.' ∷ []

abbrev pub star : Text
star = b'*' ∷ []

unfoldable pub domain_matches_pattern : Text → Text → Bool
domain_matches_pattern query pattern =
    if is_empty pattern
    then false
    else if has_prefix pattern wildcard
    then (let base = trim_prefix pattern wildcard in
        if is_empty base || contains base star
        then false
        else text_eq query base || has_suffix query (dot ++ base))
    else text_eq query pattern || has_suffix query (dot ++ pattern)

pub data EgressDomainError : Type 0 where
  empty_domain invalid_wildcard empty_question no_answer no_addresses : EgressDomainError

pub data Result {ℓ} (A : Type ℓ) : Type ℓ where
  ok : A → Result A
  err : EgressDomainError → Result A

unfoldable pub normalize_egress_lookup_domain : Text → Result Text
normalize_egress_lookup_domain domain =
    let d = trim_space domain in
    if is_empty d
    then err empty_domain
    else if has_prefix d wildcard
    then (let lookup_domain = trim_prefix d wildcard in
        if is_empty lookup_domain || contains lookup_domain star
        then err invalid_wildcard
        else ok lookup_domain)
    else ok d

-- The loop of SyncEgressDomainPatterns: `seen` holds the patterns so far.
unfoldable pub collect_patterns : List EgressDomain → List Text → List Text → List Text
collect_patterns [] seen patterns = patterns
collect_patterns (d ∷ domains) seen patterns =
    let pattern = trim_space (to_lower d.domain) in
    let rest = collect_patterns domains seen patterns in
    let more = collect_patterns domains (pattern ∷ seen) (patterns ++ pattern ∷ []) in
    if is_empty pattern then rest else if mem pattern seen then rest else more

-- SyncEgressDomainPatterns, which replaces the list of patterns.
unfoldable pub sync_egress_domain_patterns : List EgressDomain → List Text
unfolding collect_patterns
sync_egress_domain_patterns domains = collect_patterns domains [] []

-- ClearEgressDomainPatterns
abbrev pub cleared_patterns : List Text
cleared_patterns = []

unfoldable pub matches_any : Text → List Text → Bool
matches_any query [] = false
matches_any query (pattern ∷ patterns) =
    if domain_matches_pattern query pattern then true else matches_any query patterns

-- MatchesEgressDomain, given the list of patterns.
unfoldable pub matches_egress_domain : List Text → Text → Bool
unfolding matches_any
matches_egress_domain patterns name =
    let query = normalize_domain_name name in
    if is_empty query then false else matches_any query patterns
