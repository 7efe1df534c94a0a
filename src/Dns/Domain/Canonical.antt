-- ===== src/Dns/Domain/Canonical.antt =====
-- canonicalizeDomainForMatching and normalizeDomainName.
use netclient.Prelude.{[], ◌∷◌, ◌++◌, not, if◌then◌else◌}
use netclient.Text.{Text, has_prefix, has_suffix, trim_space, to_lower, trim_char}

abbrev pub dot : Text
dot = b'.' ∷ []

unfoldable pub canonicalize_domain_for_matching : Text → Text
canonicalize_domain_for_matching domain =
    let d = if not (has_prefix domain dot) then dot ++ domain else domain in
    if not (has_suffix d dot) then d ++ dot else d

unfoldable pub normalize_domain_name : Text → Text
normalize_domain_name name = trim_char b'.' (trim_space (to_lower name))
