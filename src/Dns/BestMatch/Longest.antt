-- ===== src/Dns/BestMatch/Longest.antt =====
-- The best match, against its specification: all nameservers of the highest score, in order.
use netclient.Prelude.{
  ℕ, ◌≡◌, ◌⊎◌, inl, inr, Bool-cases, ◌≤◌, refl, pos, negsuc, List, [], ◌∷◌, ◌++◌, Bool, false, ◌&&◌,
  if◌then◌else◌, keep, ltb, ◌==◌, arith, append_assoc, append-nil, All,
}
use netclient.Text.{Text, has_suffix, count_char}
use netclient.Dns.Types.{Nameserver}
use netclient.Dns.Domain.{canonicalize_domain_for_matching}
use netclient.Dns.BestMatch.{best_match_loop, find_best_match}

unfoldable pub fits : Text → Nameserver → Bool
fits domain n = has_suffix domain (canonicalize_domain_for_matching n.match_domain)

-- The number of dots in the match domain's canonical form.
unfoldable pub score : Nameserver → ℕ
score n = count_char b'.' (canonicalize_domain_for_matching n.match_domain)

-- The highest score among the nameservers that fit; 0 if none does.
unfoldable pub top_score : Text → List Nameserver → ℕ
top_score domain [] = 0
top_score domain (n ∷ ns) =
    let rest = top_score domain ns in
    if fits domain n then (if ltb rest (score n) then score n else rest) else rest

abbrev pub fits_at : Text → ℕ → Nameserver → Bool
fits_at domain s n = fits domain n && score n == s

module _ (domain : Text) where
  loop-keep :
      (ns best : List Nameserver) (s : ℕ)
      → best_match_loop domain ns best (pos s) ≡ (
          if ltb s (top_score domain ns)
          then keep (fits_at domain (top_score domain ns)) ns
          else best ++ keep (fits_at domain s) ns)
  unfolding best_match_loop top_score fits score
  loop-keep [] best s = ground (arith, append-nil best)
  loop-keep (n ∷ ns) best s = elim (Bool-cases (fits domain n)) [
    | inr no_fit ↦ ground (arith, loop-keep ns best s)
    | inl fit ↦ elim (Bool-cases (ltb s (score n))) [
      | inl more ↦ ground (arith, loop-keep ns (n ∷ []) (score n))
      | inr less ↦ elim (Bool-cases (score n == s)) [
        | inl same ↦ ground (
          arith,
          loop-keep ns (best ++ n ∷ []) s,
          append_assoc best (n ∷ []) (keep (fits_at domain s) ns),
        )
        | inr other ↦ ground (arith, loop-keep ns best s)
      ]
    ]
  ]

  start-keep :
      (ns : List Nameserver)
      → best_match_loop domain ns [] (negsuc 0) ≡ keep (fits_at domain (top_score domain ns)) ns
  unfolding best_match_loop top_score fits score
  start-keep [] = refl
  start-keep (n ∷ ns) = ground (arith, start-keep ns, loop-keep ns (n ∷ []) (score n))

-- The nameserver does not fit the name, or its score is not above the bound.
abbrev pub IsNoBetter : Text → ℕ → Nameserver → Type 0
IsNoBetter domain t n = (fits domain n ≡ false) ⊎ (score n ≤ t)

top_bound :
    (domain : Text) (ns : List Nameserver) (t : ℕ)
    → top_score domain ns ≤ t
    → All (IsNoBetter domain t) ns
unfolding top_score
top_bound domain [] t h = tt
top_bound domain (n ∷ ns) t h = elim (Bool-cases (fits domain n)) [
  | inl e ↦ (inr (ground arith), top_bound domain ns t (ground arith))
  | inr e ↦ (inl e, top_bound domain ns t (ground arith))
]

-- findBestMatch returns exactly the nameservers that fit the name with the highest score of all
-- that fit, each of them, in the order of the list: none is better, and none as good is left out.
pub find_best_match_lem :
    (domain : Text) (nameservers : List Nameserver)
    → (find_best_match domain nameservers
        ≡ keep (fits_at domain (top_score domain nameservers)) nameservers)
      × All (IsNoBetter domain (top_score domain nameservers)) nameservers
unfolding find_best_match
find_best_match_lem domain nameservers = (
  start-keep domain nameservers,
  top_bound domain nameservers (top_score domain nameservers) (omega arith),
)
