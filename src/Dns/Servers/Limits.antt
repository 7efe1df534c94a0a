-- ===== src/Dns/Servers/Limits.antt =====
-- limitEgressIPs and limitEgressDNSAnswers: at most four addresses, each once, the first ones.
-- `Ip` stands for net.IP and `ip_string` for its method String; a nil address is `none`.
pub mod First
use netclient.Prelude.{
  ℕ, ◌+◌, List, [], ◌∷◌, ◌++◌, if◌then◌else◌, is_empty, leb, Option, none, some, length,
}
use netclient.Text.{Text}
use netclient.Sets.{mem}
use netclient.Dns.Types.{Rr, a, aaaa, other}
use netclient.Dns.Servers.{egress_max_resolved_ips}

module _ {Ip : Type 0} (ip_string : Ip → Text) where
  -- The loop of limitEgressIPs.
  unfoldable pub limit_ips_loop : List (Option Ip) → List Text → List Ip → List Ip
  limit_ips_loop [] seen limited = limited
  limit_ips_loop (none ∷ ips) seen limited = limit_ips_loop ips seen limited
  limit_ips_loop (some ip ∷ ips) seen limited =
      let more = limited ++ ip ∷ [] in
      let skipped = limit_ips_loop ips seen limited in
      let taken = limit_ips_loop ips (ip_string ip ∷ seen) more in
      if mem (ip_string ip) seen
      then skipped
      else if leb egress_max_resolved_ips (length more)
      then more
      else taken

  unfoldable pub limit_egress_ips : List (Option Ip) → List Ip
  unfolding limit_ips_loop
  limit_egress_ips ips = limit_ips_loop ips [] []

  -- The loop of limitEgressDNSAnswers. Both kinds of address records run the same lines.
  unfoldable pub limit_answers_loop : List (Rr Ip) → List Text → ℕ → List (Rr Ip) → List (Rr Ip)
  limit_answers_loop [] seen ip_count limited = limited
  limit_answers_loop (a name ip ∷ answers) seen ip_count limited =
      let skipped = limit_answers_loop answers seen ip_count limited in
      let taken =
        limit_answers_loop answers (ip_string ip ∷ seen) (ip_count + 1)
          (limited ++ a name ip ∷ []) in
      if leb egress_max_resolved_ips ip_count
      then skipped
      else if mem (ip_string ip) seen
      then skipped
      else taken
  limit_answers_loop (aaaa name ip ∷ answers) seen ip_count limited =
      let skipped = limit_answers_loop answers seen ip_count limited in
      let taken =
        limit_answers_loop answers (ip_string ip ∷ seen) (ip_count + 1)
          (limited ++ aaaa name ip ∷ []) in
      if leb egress_max_resolved_ips ip_count
      then skipped
      else if mem (ip_string ip) seen
      then skipped
      else taken
  limit_answers_loop (other name r ∷ answers) seen ip_count limited =
      limit_answers_loop answers seen ip_count (limited ++ other name r ∷ [])

  unfoldable pub limit_egress_dns_answers : List (Rr Ip) → List (Rr Ip)
  unfolding limit_answers_loop
  limit_egress_dns_answers answers =
      if is_empty answers then answers else limit_answers_loop answers [] 0 []
