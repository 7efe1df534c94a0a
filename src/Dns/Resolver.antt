-- ===== src/Dns/Resolver.antt =====
-- dns/resolver.go (handleDNSRequest, exchangeDNSQueryWithPool, recordDNSAnswers) and
-- dns/egressdomains.go (ResolveEgressQuery). `I` stands for net.IP and `ip_string` for its method
-- String. `exchange` stands for taking a connection from the pool and exchanging the query with the
-- server at an address, over the state `W` of the network: it may fail, give no message, or give
-- one, and the same server may answer differently the next time.
pub mod Forward
pub mod Choice
pub mod Recorded
use netclient.Prelude.{
  ℕ, List, [], ◌∷◌, ◌++◌, Bool, true, false, not, ◌&&◌, if◌then◌else◌, is_empty, Option, none, some,
  ◌==◌,
}
use netclient.Text.{Text, codes, contains, has_prefix}
use netclient.Dns.Types.{
  Nameserver, Rr, a, aaaa, other, Msg, Question, rcode_success, rcode_server_failure,
}
use netclient.Dns.Domain.{
  canonicalize_domain_for_matching, normalize_domain_name, matches_egress_domain,
}
use netclient.Dns.BestMatch.{find_best_match}
use netclient.Dns.Servers.{egress_resolution_servers_for_domain}
use netclient.Dns.Servers.Limits.{limit_egress_dns_answers}
use netclient.Dns.Records.{LookupResult, found, missing}
use netclient.Dns.QueryCache.{Manager, record_resolution}

pub data Exchange (I : Type 0) : Type 0 where
  failed no_message : Exchange I
  message : Msg I → Exchange I

-- What ResolveEgressQuery returns: nil and no error, a response, or an error.
pub data EgressReply (I : Type 0) : Type 0 where
  not_egress egress_error : EgressReply I
  response : Msg I → EgressReply I

-- A handler replies, or stops on a nil message.
pub data Outcome (I : Type 0) : Type 0 where
  replied : Msg I → Outcome I
  nil_message : Outcome I

-- What the handler reads: the address of the gateway that the host is connected to, the nameservers
-- of the current server, the egress patterns, and Lookup on the resolver's store.
pub record Config (I : Type 0) : Type 0 where
  pub curr_gw : Option Text
  pub nameservers : Option (List Nameserver)
  pub patterns : List Text
  pub local_records : Question → LookupResult (Rr I)

module _ {I W : Type 0} (exchange : Text → W → Exchange I × W) where
  -- exchangeDNSQueryWithPool
  unfoldable pub exchange_dns_query_with_pool : Text → W → Exchange I × W
  exchange_dns_query_with_pool ns w =
      let host =
        if contains ns (codes ":") && not (has_prefix ns (codes "["))
        then codes "[" ++ (ns ++ codes "]")
        else ns in
      exchange (host ++ codes ":53") w

  -- The body of the loops over the addresses of a nameserver: whether a reply counts.
  abbrev pub usable : Exchange I → Option (Msg I)
  usable failed = none
  usable no_message = none
  usable (message m) =
      if is_empty m.answer then none else if not (m.rcode == rcode_success) then none else some m

  -- The loop over the addresses of one nameserver.
  unfoldable pub try_ips : List Text → W → Option (Msg I) × W
  try_ips [] w = (none, w)
  try_ips (ns ∷ ips) w =
      let (reply, w') = exchange_dns_query_with_pool ns w in
      elim (usable reply) [ some m ↦ (some m, w') | none ↦ try_ips ips w' ]

  -- The loop over the nameservers, those with the fallback flag or those without.
  unfoldable pub try_nameservers : Bool → List Nameserver → W → Option (Msg I) × W
  try_nameservers fallback [] w = (none, w)
  try_nameservers fallback (n ∷ nameservers) w =
      let skipped = try_nameservers fallback nameservers w in
      let (answered, w') = try_ips n.ips w in
      let asked : Option (Msg I) × W = elim answered [
        | some m ↦ (some m, w')
        | none ↦ try_nameservers fallback nameservers w'
      ] in
      if fallback
      then (if n.is_fallback then asked else skipped)
      else (if n.is_fallback then skipped else asked)

  -- The two loops of the handler, the second if the first gave no answer.
  unfoldable pub forward : List Nameserver → W → Option (Msg I) × W
  forward best_match w =
      let (answered, w') = try_nameservers false best_match w in
      elim answered [ some m ↦ (some m, w') | none ↦ try_nameservers true best_match w' ]

module _ {I W : Type 0} (ip_string : I → Text) (exchange : Text → W → Exchange I × W) where
  -- The body of the loop of ResolveEgressQuery: the response if a reply of a server counts.
  unfoldable pub egress_response : Exchange I → Option (Msg I)
  egress_response failed = none
  egress_response no_message = none
  egress_response (message m) =
      let limited = limit_egress_dns_answers ip_string m.answer in
      if m.rcode == rcode_success && not (is_empty m.answer)
      then (if is_empty limited then none else some (record m { answer = limited }))
      else none

  -- The loop of ResolveEgressQuery over the servers.
  unfoldable pub resolve_loop : List Text → W → Option (Msg I) × W
  resolve_loop [] w = (none, w)
  resolve_loop (server ∷ servers) w =
      let (reply, w') = exchange_dns_query_with_pool exchange server w in
      elim (egress_response reply) [ some m ↦ (some m, w') | none ↦ resolve_loop servers w' ]

  abbrev pub egress_reply : Option (Msg I) → EgressReply I
  egress_reply none = egress_error
  egress_reply (some m) = response m

  -- ResolveEgressQuery
  unfoldable pub resolve_egress_query :
      List Text → Option (List Nameserver) → Question → W → EgressReply I × W
  resolve_egress_query patterns nameservers q w =
      let (answered, w') =
        resolve_loop
          (egress_resolution_servers_for_domain nameservers (normalize_domain_name q.name)) w in
      if not (matches_egress_domain patterns q.name)
      then (not_egress, w)
      else (egress_reply answered, w')

  -- The egress part of the handler: a reply if it answers.
  unfoldable pub egress_answer : List Text → List Nameserver → Question → W → Option (Msg I) × W
  egress_answer patterns nameservers q w =
      let (reply, w') = resolve_egress_query patterns (some nameservers) q w in
      if not (matches_egress_domain patterns q.name) then (none, w) else elim reply [
        | not_egress ↦ (none, w')
        | egress_error ↦ (none, w')
        | response m ↦ if is_empty m.answer then (none, w') else (some m, w')
      ]

  abbrev pub new_reply : Msg I
  new_reply = record { rcode = rcode_success; authoritative = false; answer = [] }

  -- reply.Answer and reply.Authoritative taken from a response.
  abbrev pub take_from : Msg I → Msg I
  take_from m = record new_reply { authoritative = m.authoritative; answer = m.answer }

  -- The gateway part of the handler.
  unfoldable pub gateway_answer : Text → W → Outcome I × W
  gateway_answer gw w =
      let (reply, w') = exchange_dns_query_with_pool exchange gw w in
      elim reply [
        | failed ↦ (replied new_reply, w')
        | no_message ↦ (nil_message, w')
        | message m ↦ (replied (take_from m), w')
      ]

  abbrev pub reply_of : Option (Msg I) → Msg I
  reply_of none = new_reply
  reply_of (some m) = take_from m

  -- Local records, then the nameservers.
  unfoldable pub local_answer : Config I → List Nameserver → Question → W → Msg I × W
  local_answer c nameservers q w =
      let (answered, w') =
        forward exchange (find_best_match (canonicalize_domain_for_matching q.name) nameservers)
          w in
      elim (c.local_records q) [
        | found rr ↦ (record new_reply { authoritative = true; answer = rr ∷ [] }, w)
        | missing e ↦ (reply_of answered, w')
      ]

  -- The part for the current server's configuration.
  unfoldable pub server_answer : Config I → List Nameserver → Question → W → Msg I × W
  server_answer c nameservers q w =
      let (answered, w') = egress_answer c.patterns nameservers q w in
      elim answered [ some m ↦ (take_from m, w') | none ↦ local_answer c nameservers q w' ]

  -- handleDNSRequest, up to writing the reply.
  unfoldable pub handle_dns_request : Config I → Question → W → Outcome I × W
  handle_dns_request c q w = elim c.curr_gw [
    | some gw ↦ gateway_answer gw w
    | none ↦ elim c.nameservers [
      | none ↦ (replied (record new_reply { rcode = rcode_server_failure }), w)
      | some nameservers ↦ let (m, w') = server_answer c nameservers q w in (replied m, w')
    ]
  ]

-- recordDNSAnswers at the time `now`.
unfoldable pub record_dns_answers :
    {I : Type 0} → (I → Text) → (Text → Option Text) → List (Rr I) → ℕ → Manager → Manager
record_dns_answers ip_string canonical [] now m = m
record_dns_answers ip_string canonical (a h ip ∷ answers) now m =
    record_dns_answers ip_string canonical answers now
      (record_resolution canonical m (ip_string ip) h.name now)
record_dns_answers ip_string canonical (aaaa h ip ∷ answers) now m =
    record_dns_answers ip_string canonical answers now
      (record_resolution canonical m (ip_string ip) h.name now)
record_dns_answers ip_string canonical (other h r ∷ answers) now m =
    record_dns_answers ip_string canonical answers now m
