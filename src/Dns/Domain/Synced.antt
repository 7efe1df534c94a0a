-- ===== src/Dns/Domain/Synced.antt =====
-- The list of patterns after SyncEgressDomainPatterns.
use netclient.Prelude.{
  ◌≡◌, refl, Bool, true, false, List, [], ◌∷◌, ◌++◌, arith, if◌then◌else◌, is_empty, Bool-cases,
  inl, inr, ◌||◌,
}
use netclient.Text.{Text, text_eq_iff, trim_space, to_lower}
use netclient.Sets.{mem, IsDistinct, IsDistinct-snoc, SameMembers, SameMembers-add}
use netclient.Dns.Types.{EgressDomain}
use netclient.Dns.Domain.Canonical.{normalize_domain_name}
use netclient.Dns.Domain.Patterns.{
  domain_matches_pattern, collect_patterns, sync_egress_domain_patterns, matches_any,
  matches_egress_domain,
}

abbrev pub pattern_of : EgressDomain → Text
pattern_of d = trim_space (to_lower d.domain)

-- Some domain of the list has a pattern that matches.
pub some_domain_matches : Text → List EgressDomain → Bool
some_domain_matches query [] = false
some_domain_matches query (d ∷ domains) =
    domain_matches_pattern query (pattern_of d) || some_domain_matches query domains

empty_matches_nothing : (q p : Text) → is_empty p ≡ true → domain_matches_pattern q p ≡ false
unfolding domain_matches_pattern
empty_matches_nothing q p h = ground arith

matches_any-mem :
    (q k : Text) (ps : List Text)
    → mem k ps ≡ true
    → domain_matches_pattern q k ≡ true
    → matches_any q ps ≡ true
unfolding mem matches_any
matches_any-mem q k [] m h = cc
matches_any-mem q k (p ∷ ps) m h = ground (arith, text_eq_iff p k, matches_any-mem q k ps)

matches_any_snoc :
    (q p : Text) (ps : List Text)
    → matches_any q (ps ++ p ∷ []) ≡ (matches_any q ps || domain_matches_pattern q p)
unfolding matches_any
matches_any_snoc q p [] = ground arith
matches_any_snoc q p (x ∷ ps) = ground (arith, matches_any_snoc q p ps)

module _ (q : Text) where
  collect-matches :
      (ds : List EgressDomain) (seen ps : List Text)
      → SameMembers seen ps
      → matches_any q (collect_patterns ds seen ps) ≡ (matches_any q ps || some_domain_matches q ds)
  unfolding collect_patterns some_domain_matches
  collect-matches [] seen ps same = ground arith
  collect-matches (d ∷ ds) seen ps same = ground (
    arith,
    same (pattern_of d),
    empty_matches_nothing q (pattern_of d),
    matches_any-mem q (pattern_of d) ps,
    matches_any_snoc q (pattern_of d) ps,
    collect-matches ds seen ps same,
    collect-matches ds (pattern_of d ∷ seen) (ps ++ pattern_of d ∷ [])
        (SameMembers-add (pattern_of d) seen ps same),
  )

collect-IsDistinct :
    (ds : List EgressDomain) (seen ps : List Text)
    → SameMembers seen ps
    → IsDistinct ps
    → IsDistinct (collect_patterns ds seen ps)
unfolding collect_patterns
collect-IsDistinct [] seen ps same d = d
collect-IsDistinct (e ∷ ds) seen ps same d = elim (Bool-cases (is_empty (pattern_of e))) [
  | inl none_left ↦ rw none_left (collect-IsDistinct ds seen ps same d)
  | inr filled ↦ elim (Bool-cases (mem (pattern_of e) seen)) [
    | inl old ↦ rw (filled, old) (collect-IsDistinct ds seen ps same d)
    | inr new ↦
        rw (filled, new)
          (collect-IsDistinct ds (pattern_of e ∷ seen) (ps ++ pattern_of e ∷ [])
            (SameMembers-add (pattern_of e) seen ps same)
            (IsDistinct-snoc (pattern_of e) ps d (ground (arith, same (pattern_of e)))))
  ]
]

-- After a sync no pattern is stored twice, and leaving out the empty and the repeated ones changes
-- no answer: a name is an egress domain exactly when it is not empty and some domain of the synced
-- list has a pattern that matches it.
pub sync-matches_egress_domain :
    (domains : List EgressDomain) (name : Text)
    → IsDistinct (sync_egress_domain_patterns domains)
      × (matches_egress_domain (sync_egress_domain_patterns domains) name ≡ (
          if is_empty (normalize_domain_name name)
          then false
          else some_domain_matches (normalize_domain_name name) domains))
unfolding sync_egress_domain_patterns matches_egress_domain
sync-matches_egress_domain domains name = (
  collect-IsDistinct domains [] [] (λ k. refl) tt,
  rw (collect-matches (normalize_domain_name name) domains [] [] (λ k. refl)) refl,
)
