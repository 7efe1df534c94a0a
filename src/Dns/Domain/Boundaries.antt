-- ===== src/Dns/Domain/Boundaries.antt =====
-- When a name lies in a domain: matching goes by whole labels.
use mathlib.Core.List.{append_cancel_right}
use netclient.Prelude.{
  ℕ, ◌≡◌, refl, ap, sym, ◌∙◌, ◌↔◌, inl, inr, true, false, [], ◌∷◌, ◌++◌, arith, Bool-cases,
  is_empty, append_assoc, ◌||◌, if◌then◌else◌,
}
use netclient.Text.{
  Text, text_eq, text_eq_iff, has_prefix, has_suffix, suffix_front, has_suffix_append, trim_space,
  trim_prefix, contains, has_suffix_self,
}
use netclient.Dns.Domain.Canonical.{dot, canonicalize_domain_for_matching}
use netclient.Dns.Domain.Patterns.{
  wildcard, star, domain_matches_pattern, normalize_egress_lookup_domain, ok, err, empty_domain,
  invalid_wildcard,
}

-- The name is the domain, or a name below it.
pub data InDomain (name domain : Text) : Type 0 where
  itself : name ≡ domain → InDomain name domain
  below : (sub : Text) → name ≡ sub ++ (dot ++ domain) → InDomain name domain

-- A name with no dot at its ends.
pub record IsBare (name : Text) : Type 0 where
  pub filled : is_empty name ≡ false
  pub no_front : has_prefix name dot ≡ false
  pub no_end : has_suffix name dot ≡ false

below_test : (q d : Text) → (text_eq q d || has_suffix q (dot ++ d)) ≡ true → InDomain q d
below_test q d h = elim (Bool-cases (text_eq q d)) [
  | inl e ↦ itself ((text_eq_iff q d).0 e)
  | inr e ↦ let (f, g) = suffix_front q (dot ++ d) (ground arith) in below f g
]

test_below : (q d : Text) → InDomain q d → (text_eq q d || has_suffix q (dot ++ d)) ≡ true
test_below q d (itself e) = ground (arith, text_eq_iff q d)
test_below q d (below f g) = elim (Bool-cases (text_eq q d)) [
  | inl e ↦ ground arith
  | inr e ↦ rw e (rw g (has_suffix_append f (dot ++ d)))
]

-- The body of the lookup, with the pattern trimmed.
lookup_trimmed :
    (pattern : Text)
    → trim_space pattern ≡ pattern
    → normalize_egress_lookup_domain pattern ≡ (
        if is_empty pattern
        then err empty_domain
        else if has_prefix pattern wildcard
        then (if is_empty (trim_prefix pattern wildcard)
              || contains (trim_prefix pattern wildcard) star
            then err invalid_wildcard
            else ok (trim_prefix pattern wildcard))
        else ok pattern)
unfolding normalize_egress_lookup_domain
lookup_trimmed pattern trimmed = rw trimmed

matches_base :
    (query pattern : Text)
    → trim_space pattern ≡ pattern
    → domain_matches_pattern query pattern ≡ true
    → (base : Text) × (normalize_egress_lookup_domain pattern ≡ ok base) × InDomain query base
unfolding domain_matches_pattern
matches_base query pattern trimmed h = elim (Bool-cases (has_prefix pattern wildcard)) [
  | inl w ↦ (
    trim_prefix pattern wildcard,
    ground (arith, lookup_trimmed pattern trimmed),
    below_test query (trim_prefix pattern wildcard) (ground arith),
  )
  | inr w ↦ (
    pattern,
    ground (arith, lookup_trimmed pattern trimmed),
    below_test query pattern (ground arith),
  )
]

base_matches :
    (query pattern base : Text)
    → trim_space pattern ≡ pattern
    → normalize_egress_lookup_domain pattern ≡ ok base
    → InDomain query base
    → domain_matches_pattern query pattern ≡ true
unfolding domain_matches_pattern
base_matches query pattern base trimmed e d =
    ground (arith, lookup_trimmed pattern trimmed, test_below query base d)

-- A pattern matches exactly the names in the domain that the lookup of the pattern resolves: the
-- pattern itself, or what stands behind its "*.", and a pattern that the lookup refuses matches
-- nothing. The pattern is trimmed, as SyncEgressDomainPatterns stores it.
pub domain_matches_pattern_iff :
    (query pattern : Text)
    → trim_space pattern ≡ pattern
    → (domain_matches_pattern query pattern ≡ true)
      ↔ ((base : Text) × (normalize_egress_lookup_domain pattern ≡ ok base) × InDomain query base)
domain_matches_pattern_iff query pattern trimmed =
    (matches_base query pattern trimmed, λ t. base_matches query pattern t.0 trimmed t.1 t.2)

suffix_of_cons : (c : ℕ) (d : Text) → is_empty d ≡ false → has_suffix (c ∷ d) dot ≡ has_suffix d dot
unfolding has_suffix text_eq
suffix_of_cons c [] h = cc
suffix_of_cons c (x ∷ d) h = ground arith

canonical_bare : (d : Text) → IsBare d → canonicalize_domain_for_matching d ≡ dot ++ (d ++ dot)
unfolding canonicalize_domain_for_matching
canonical_bare d b = rw (b.no_front, suffix_of_cons b'.' d b.filled, b.no_end)

canonical_rooted :
    (d : Text) → IsBare d → canonicalize_domain_for_matching (d ++ dot) ≡ dot ++ (d ++ dot)
unfolding canonicalize_domain_for_matching has_prefix
canonical_rooted [] b = absurd (ground (arith, b.filled))
canonical_rooted (x ∷ d) b =
    let front : has_prefix (x ∷ d) dot ≡ false = b.no_front in
    ground (arith, front, has_suffix_append (dot ++ x ∷ d) dot)

drop_front :
    (name domain q : Text)
    → dot ++ (name ++ dot) ≡ q ++ (dot ++ (domain ++ dot))
    → InDomain name domain
drop_front name domain [] e =
    let same : name ++ dot ≡ domain ++ dot = cc in itself (append_cancel_right name domain dot same)
drop_front name domain (x ∷ q) e =
    let same : name ++ dot ≡ q ++ (dot ++ (domain ++ dot)) = cc in
    below q (
      append_cancel_right name (q ++ (dot ++ domain)) dot
        (same ∙ sym (append_assoc q (dot ++ domain) dot)))

suffix_below :
    (name domain : Text)
    → InDomain name domain
    → has_suffix (dot ++ (name ++ dot)) (dot ++ (domain ++ dot)) ≡ true
suffix_below name domain (itself e) = rw e (has_suffix_self (dot ++ (domain ++ dot)))
suffix_below name domain (below sub e) =
    let joined : dot ++ ((sub ++ (dot ++ domain)) ++ dot)
        ≡ (dot ++ sub) ++ (dot ++ (domain ++ dot)) =
      ap (λ t. dot ++ t) (append_assoc sub (dot ++ domain) dot) in
    rw e (rw joined (has_suffix_append (dot ++ sub) (dot ++ (domain ++ dot))))

-- Suffix matching of the canonical forms goes by whole labels: a query for the name, with or
-- without the root dot, ends in the match domain exactly when the name is the domain or lies
-- below it. Name and domain are not empty and have no dot at their ends.
pub canonical_suffix_iff :
    (name domain : Text)
    → IsBare name
    → IsBare domain
    → ((has_suffix (canonicalize_domain_for_matching name) (canonicalize_domain_for_matching domain)
          ≡ true)
        ↔ InDomain name domain)
      × (canonicalize_domain_for_matching (name ++ dot) ≡ canonicalize_domain_for_matching name)
canonical_suffix_iff name domain n d =
    rw (canonical_bare name n, canonical_bare domain d, canonical_rooted name n)
      (
        (
          λ h.
              let (q, e) = suffix_front (dot ++ (name ++ dot)) (dot ++ (domain ++ dot)) h in
              drop_front name domain q e,
          suffix_below name domain,
        ),
        refl,
      )
