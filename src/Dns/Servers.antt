-- ===== src/Dns/Servers.antt =====
-- dns/egressdomains.go: the servers that resolve an egress domain, and the limits on the
-- addresses and answers that are kept.
pub mod Distinct
pub mod Limits
use netclient.Prelude.{
  ℕ, List, [], ◌∷◌, ◌++◌, Bool, true, false, not, if◌then◌else◌, is_empty, Option, none, some,
}
use netclient.Text.{Text, codes, has_prefix, contains}
use netclient.Sets.{mem}
use netclient.Dns.Types.{Nameserver}
use netclient.Dns.Domain.{canonicalize_domain_for_matching}
use netclient.Dns.BestMatch.{find_best_match}

abbrev pub egress_public_dns_servers : List Text
egress_public_dns_servers = codes "8.8.8.8" ∷ codes "1.1.1.1" ∷ []

abbrev pub egress_max_resolved_ips : ℕ
egress_max_resolved_ips = 4

-- The inner loop of collectNameserverIPs: the servers, and the set `seen` that it updates.
unfoldable pub collect_ips : List Text → List Text × List Text → List Text × List Text
collect_ips [] (servers, seen) = (servers, seen)
collect_ips (ip ∷ ips) (servers, seen) =
    let skipped = collect_ips ips (servers, seen) in
    let taken = collect_ips ips (servers ++ ip ∷ [], ip ∷ seen) in
    if is_empty ip then skipped else if mem ip seen then skipped else taken

abbrev pub same_flag : Bool → Bool → Bool
same_flag true b = b
same_flag false b = not b

-- collectNameserverIPs. Go's map `seen` is shared by the calls, so it is passed on.
unfoldable pub collect_nameserver_ips :
    List Text × List Text → List Nameserver → Bool → List Text × List Text
unfolding collect_ips
collect_nameserver_ips st [] fallback_only = st
collect_nameserver_ips st (ns ∷ nameservers) fallback_only =
    collect_nameserver_ips
      (if same_flag ns.is_fallback fallback_only then collect_ips ns.ips st else st) nameservers
      fallback_only

-- egressResolutionServersFrom
unfoldable pub egress_resolution_servers_from : Text → List Nameserver → List Text
unfolding collect_nameserver_ips
egress_resolution_servers_from domain nameservers =
    if is_empty nameservers
    then egress_public_dns_servers
    else (let best_match = find_best_match (canonicalize_domain_for_matching domain) nameservers in
        if is_empty best_match
        then egress_public_dns_servers
        else (let configured = collect_nameserver_ips ([], []) best_match false in
            let (servers, seen) = collect_nameserver_ips configured best_match true in
            if is_empty servers then egress_public_dns_servers else servers))

-- egressResolutionServersForDomain; `none` is the missing server configuration.
unfoldable pub egress_resolution_servers_for_domain : Option (List Nameserver) → Text → List Text
unfolding egress_resolution_servers_from
egress_resolution_servers_for_domain none name = egress_public_dns_servers
egress_resolution_servers_for_domain (some nameservers) name =
    egress_resolution_servers_from name nameservers

-- formatDNSServerAddr
unfoldable pub format_dns_server_addr : Text → Text
format_dns_server_addr ip =
    if contains ip (codes ":")
    then (if not (has_prefix ip (codes "["))
        then codes "[" ++ (ip ++ codes "]:53")
        else ip ++ codes ":53")
    else ip ++ codes ":53"
