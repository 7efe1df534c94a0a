-- ===== src/Dns/BestMatch.antt =====
-- dns/resolver.go (findBestMatch): the nameservers whose match domain fits a name best.
pub mod Longest
use netclient.Prelude.{ℤ, pos, negsuc, ltb_ℤ, eq_ℤ, List, [], ◌∷◌, ◌++◌, if◌then◌else◌}
use netclient.Text.{Text, has_suffix, count_char}
use netclient.Dns.Types.{Nameserver}
use netclient.Dns.Domain.{canonicalize_domain_for_matching}

-- The loop of findBestMatch over `best_match` and `best_score`.
unfoldable pub best_match_loop : Text → List Nameserver → List Nameserver → ℤ → List Nameserver
best_match_loop domain [] best_match best_score = best_match
best_match_loop domain (n ∷ nameservers) best_match best_score =
    let match_domain = canonicalize_domain_for_matching n.match_domain in
    let curr_score = pos (count_char b'.' match_domain) in
    let better = best_match_loop domain nameservers (n ∷ []) curr_score in
    let equal = best_match_loop domain nameservers (best_match ++ n ∷ []) best_score in
    let skipped = best_match_loop domain nameservers best_match best_score in
    if has_suffix domain match_domain
    then (if ltb_ℤ best_score curr_score
        then better
        else if eq_ℤ curr_score best_score
        then equal
        else skipped)
    else skipped

unfoldable pub find_best_match : Text → List Nameserver → List Nameserver
unfolding best_match_loop
find_best_match domain nameservers = best_match_loop domain nameservers [] (negsuc 0)
