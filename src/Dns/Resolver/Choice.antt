-- ===== src/Dns/Resolver/Choice.antt =====
-- Where the handler takes its answer from.
use netclient.Prelude.{
  ℕ, zero, suc, ◌≤◌, ◌≡◌, ◌⊎◌, ◌==◌, refl, sym, ap, List, [], ◌∷◌, ◌++◌, true, false, is_empty,
  Option, none, some, arith, Option-cases, inl, inr, take, length,
}
use mathlib.Core.Path.{subst}
use netclient.Text.{Text}
use netclient.Sets.{nub_from, nub_from-IsDistinct, IsDistinct, IsDistinct-take}
use netclient.Dns.Types.{Nameserver, Rr, Msg, Question, rcode_success}
use netclient.Dns.Domain.{
  canonicalize_domain_for_matching, matches_egress_domain, normalize_domain_name,
}
use netclient.Dns.BestMatch.{find_best_match}
use netclient.Dns.Records.{LookupResult, found, missing}
use netclient.Dns.Servers.{egress_resolution_servers_for_domain}
use netclient.Dns.Servers.Limits.{limit_egress_dns_answers}
use netclient.Dns.Servers.Limits.First.{address_keys, limit_egress_dns_answers-take}
use netclient.Dns.Resolver.{
  Exchange, failed, no_message, message, Config, replied, usable, try_ips, reply_of, take_from,
  resolve_loop, egress_response, resolve_egress_query, egress_answer, local_answer, server_answer,
  handle_dns_request, exchange_dns_query_with_pool,
}
use netclient.Dns.Resolver.Forward.{ips_of, forward-ips_of}

length-take-le : (n : ℕ) (l : List Text) → length (take n l) ≤ n
length-take-le zero l = omega arith
length-take-le (suc n) [] = omega arith
length-take-le (suc n) (x ∷ l) = omega (arith, length-take-le n l)

module _ {I W : Type 0} (ip_string : I → Text) (exchange : Text → W → Exchange I × W) where
  egress_skip :
      (patterns : List Text) (ns : List Nameserver) (q : Question) (w : W)
      → matches_egress_domain patterns q.name ≡ false
      → egress_answer ip_string exchange patterns ns q w ≡ (none, w)
  unfolding egress_answer
  egress_skip patterns ns q w h = ground arith

  -- A reply of a nameserver that does not count.
  abbrev pub IsUseless : Exchange I → Type 0
  IsUseless failed = Unit
  IsUseless no_message = Unit
  IsUseless (message m) = ((m.rcode == rcode_success) ≡ false) ⊎ (is_empty m.answer ≡ true)

  -- Asking the addresses one by one: the reply is the first successful message with an answer, whose
  -- flag and answers are taken over, and nobody is asked behind it; or, if there is none, it is a
  -- success without authority and without an answer.
  pub data Forwards : List Text → W → Msg I → W → Type 0 where
    unanswered :
        (w : W)
        → Forwards [] w (record { rcode = rcode_success; authoritative = false; answer = [] }) w
    passed :
        (ns : Text) (ips : List Text) (w w' : W) (m : Msg I)
        → exchange_dns_query_with_pool exchange ns w ≡ (message m, w')
        → m.rcode ≡ rcode_success
        → is_empty m.answer ≡ false
        → Forwards
            (ns ∷ ips)
            w
            (record { rcode = rcode_success; authoritative = m.authoritative; answer = m.answer })
            w'
    skipped :
        (ns : Text) (ips : List Text) (w : W) (r : Msg I) (w' : W)
        → IsUseless (exchange_dns_query_with_pool exchange ns w).0
        → Forwards ips (exchange_dns_query_with_pool exchange ns w).1 r w'
        → Forwards (ns ∷ ips) w r w'

  usable-IsUseless : (reply : Exchange I) → usable exchange reply ≡ none → IsUseless reply
  usable-IsUseless failed h = tt
  usable-IsUseless no_message h = tt
  usable-IsUseless (message m) h = ground (arith, h)

  usable-some :
      (reply : Exchange I) (m : Msg I)
      → usable exchange reply ≡ some m
      → (reply ≡ message m) × (m.rcode ≡ rcode_success) × (is_empty m.answer ≡ false)
  usable-some failed m h = absurd (ground (arith, h))
  usable-some no_message m h = absurd (ground (arith, h))
  usable-some (message n) m h = ground (arith, h)

  try_ips-Forwards :
      (ips : List Text) (w : W)
      → Forwards ips w
          (reply_of ip_string exchange (try_ips exchange ips w).0)
          (try_ips exchange ips w).1
  unfolding try_ips
  try_ips-Forwards [] w = unanswered w
  try_ips-Forwards (ns ∷ ips) w =
      let got = exchange_dns_query_with_pool exchange ns w in
      let ends : Option (Msg I) × W → Type 0 =
        λ p. Forwards (ns ∷ ips) w (reply_of ip_string exchange p.0) p.1 in
      elim (Option-cases (usable exchange got.0)) [
        | inl e ↦
            let same : try_ips exchange (ns ∷ ips) w ≡ try_ips exchange ips got.1 =
              ground (arith, e) in
            subst ends (sym same)
              (skipped ns ips w _ _ (usable-IsUseless got.0 e) (try_ips-Forwards ips got.1))
        | inr (m, e) ↦
            let (is, success, answered) = usable-some got.0 m e in
            let same : try_ips exchange (ns ∷ ips) w ≡ (some m, got.1) = ground (arith, e) in
            subst ends (sym same)
              (passed ns ips w got.1 m (ap (λ r. (r, got.1)) is) success answered)
      ]

  -- What the handler does given what Lookup gives: with a local record it replies that, with
  -- authority and without asking anybody; without, it asks the addresses.
  abbrev pub IsAnswered : Config I → Question → W → List Text → LookupResult (Rr I) → Type 0
  IsAnswered c q w ips (found rr) =
      handle_dns_request ip_string exchange c q w
      ≡ (replied (record { rcode = rcode_success; authoritative = true; answer = rr ∷ [] }), w)
  IsAnswered c q w ips (missing e) =
      (r : Msg I) × (w' : W) × (handle_dns_request ip_string exchange c q w ≡ (replied r, w'))
      × Forwards ips w r w'

  local-IsAnswered :
      (c : Config I) (nameservers : List Nameserver) (q : Question) (w : W)
      (x : LookupResult (Rr I))
      → c.curr_gw ≡ none
      → c.nameservers ≡ some nameservers
      → matches_egress_domain c.patterns q.name ≡ false
      → c.local_records q ≡ x
      → let best = find_best_match (canonicalize_domain_for_matching q.name) nameservers in
        IsAnswered c q w (ips_of false best ++ ips_of true best) x
  unfolding handle_dns_request server_answer local_answer
  local-IsAnswered c nameservers q w (found rr) gw srv plain e =
      ground (arith, egress_skip c.patterns nameservers q w plain)
  local-IsAnswered c nameservers q w (missing x) gw srv plain e =
      let best = find_best_match (canonicalize_domain_for_matching q.name) nameservers in
      let ips = ips_of false best ++ ips_of true best in
      let skip = egress_skip c.patterns nameservers q w plain in
      (
        reply_of ip_string exchange (try_ips exchange ips w).0,
        (try_ips exchange ips w).1,
        ground (arith, skip, forward-ips_of exchange best w),
        try_ips-Forwards ips w,
      )

  -- A name that is no egress domain, on a host with a server and not connected to a gateway, is
  -- answered by the local record if there is one, with authority and without asking anybody.
  -- Otherwise the addresses of the best matching nameservers are asked one by one, the fallback ones
  -- last, until one gives a successful message with an answer, whose flag and answers the reply
  -- takes over; if none does, the reply is a success without authority and without an answer.
  pub handle_dns_request-local :
      (c : Config I) (nameservers : List Nameserver) (q : Question) (w : W)
      → c.curr_gw ≡ none
      → c.nameservers ≡ some nameservers
      → matches_egress_domain c.patterns q.name ≡ false
      → let best = find_best_match (canonicalize_domain_for_matching q.name) nameservers in
        IsAnswered c q w (ips_of false best ++ ips_of true best) (c.local_records q)
  handle_dns_request-local c nameservers q w gw srv plain =
      local-IsAnswered c nameservers q w (c.local_records q) gw srv plain refl

  abbrev pub IsLimited : Msg I → Type 0
  IsLimited m =
      IsDistinct (address_keys ip_string m.answer) × (length (address_keys ip_string m.answer) ≤ 4)

  limit-IsLimited :
      (m : Msg I) → IsLimited (record m { answer = limit_egress_dns_answers ip_string m.answer })
  limit-IsLimited m =
      let keys = address_keys ip_string m.answer in
      rw (limit_egress_dns_answers-take ip_string m.answer).0 (
        IsDistinct-take 4 (nub_from [] keys) (nub_from-IsDistinct keys []),
        length-take-le 4 (nub_from [] keys),
      )

  -- A response that ResolveEgressQuery may give.
  pub record IsEgressResponse (m : Msg I) : Type 0 where
    pub success : m.rcode ≡ rcode_success
    pub answered : is_empty m.answer ≡ false
    pub limited : IsLimited m

  egress_response-IsEgressResponse :
      (reply : Exchange I) (m : Msg I)
      → egress_response ip_string exchange reply ≡ some m
      → IsEgressResponse m
  unfolding egress_response
  egress_response-IsEgressResponse failed m h = absurd (ground arith)
  egress_response-IsEgressResponse no_message m h = absurd (ground arith)
  egress_response-IsEgressResponse (message n) m h =
      let same : m ≡ record n { answer = limit_egress_dns_answers ip_string n.answer } =
        ground arith in
      rw same
        (record { success = ground arith; answered = ground arith; limited = limit-IsLimited n })

  resolve_loop-response :
      (servers : List Text) (w : W) (m : Msg I)
      → (resolve_loop ip_string exchange servers w).0 ≡ some m
      → IsEgressResponse m
  unfolding resolve_loop
  resolve_loop-response [] w m h = absurd (ground arith)
  resolve_loop-response (server ∷ servers) w m h =
      let got = exchange_dns_query_with_pool exchange server w in
      elim (Option-cases (egress_response ip_string exchange got.0)) [
        | inl none_yet ↦ resolve_loop-response servers got.1 m (ground arith)
        | inr (n, e) ↦ egress_response-IsEgressResponse got.0 m (ground arith)
      ]

  -- What the servers for an egress domain give.
  abbrev pub asked_servers : List Nameserver → Question → W → Option (Msg I) × W
  asked_servers nameservers q w =
      resolve_loop ip_string exchange
        (egress_resolution_servers_for_domain (some nameservers) (normalize_domain_name q.name)) w

  -- A reply for an egress domain that comes from the servers for it is a success with at least one
  -- answer, names at most four addresses and each once, and is passed on as it is; local records
  -- and other nameservers are not consulted.
  pub handle_dns_request-egress :
      (c : Config I) (nameservers : List Nameserver) (q : Question) (w : W) (m : Msg I)
      → c.curr_gw ≡ none
      → c.nameservers ≡ some nameservers
      → matches_egress_domain c.patterns q.name ≡ true
      → (asked_servers nameservers q w).0 ≡ some m
      → (handle_dns_request ip_string exchange c q w
          ≡ (replied (take_from ip_string exchange m), (asked_servers nameservers q w).1))
        × IsEgressResponse m
  unfolding handle_dns_request server_answer egress_answer resolve_egress_query
  handle_dns_request-egress c nameservers q w m gw srv egress got =
      let servers =
        egress_resolution_servers_for_domain (some nameservers) (normalize_domain_name q.name) in
      let r = resolve_loop-response servers w m got in (ground arith, r)
