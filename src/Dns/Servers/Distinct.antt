-- ===== src/Dns/Servers/Distinct.antt =====
-- The servers that resolve an egress domain: never none, no empty one, none asked twice.
use netclient.Prelude.{
  ◌≡◌, ◌⊎◌, sym, ◌∙◌, refl, List, [], ◌∷◌, ◌++◌, Bool, true, false, ◌||◌, ◌&&◌, is_empty, arith,
  All, All-append, Bool-cases, inl, inr,
}
use netclient.Text.{Text, text_eq, text_eq_iff}
use netclient.Sets.{mem, mem_snoc, IsDistinct, IsDistinct-snoc, SameMembers, SameMembers-add}
use netclient.Dns.Types.{Nameserver}
use netclient.Dns.Domain.{canonicalize_domain_for_matching}
use netclient.Dns.BestMatch.{find_best_match}
use netclient.Dns.Servers.{
  collect_ips, collect_nameserver_ips, same_flag, egress_resolution_servers_from,
  egress_public_dns_servers,
}

abbrev pub IsFilled : Text → Type 0
IsFilled t = is_empty t ≡ false

-- What the loops keep: the servers so far are distinct, not empty, and are the set `seen`.
pub record Collected (st : List Text × List Text) : Type 0 where
  pub distinct : IsDistinct st.0
  pub filled : All IsFilled st.0
  pub tracked : SameMembers st.1 st.0

-- The address stands among the addresses of a nameserver with the flag.
pub listed : Bool → Text → List Nameserver → Bool
listed flag ip [] = false
listed flag ip (n ∷ ns) = (same_flag n.is_fallback flag && mem ip n.ips) || listed flag ip ns

add-Collected :
    (ip : Text) (servers seen : List Text)
    → is_empty ip ≡ false
    → mem ip seen ≡ false
    → Collected (servers, seen)
    → Collected (servers ++ ip ∷ [], ip ∷ seen)
add-Collected ip servers seen f m c = record {
  distinct = IsDistinct-snoc ip servers c.distinct (ground (arith, c.tracked ip));
  filled = All-append IsFilled servers (ip ∷ []) c.filled (f, tt);
  tracked = SameMembers-add ip seen servers c.tracked;
}

collect_ips-Collected :
    (ips servers seen : List Text)
    → Collected (servers, seen)
    → Collected (collect_ips ips (servers, seen))
unfolding collect_ips
collect_ips-Collected [] servers seen c = c
collect_ips-Collected (ip ∷ ips) servers seen c = elim (Bool-cases (is_empty ip)) [
  | inl e ↦ rw e (collect_ips-Collected ips servers seen c)
  | inr f ↦ elim (Bool-cases (mem ip seen)) [
    | inl m ↦ rw (f, m) (collect_ips-Collected ips servers seen c)
    | inr m ↦
        rw (f, m)
          (collect_ips-Collected ips (servers ++ ip ∷ []) (ip ∷ seen)
            (add-Collected ip servers seen f m c))
  ]
]

collect_ips-mem :
    (k : Text) (ips servers seen : List Text)
    → SameMembers seen servers
    → is_empty k ≡ false
    → mem k (collect_ips ips (servers, seen)).0 ≡ (mem k servers || mem k ips)
unfolding collect_ips mem
collect_ips-mem k [] servers seen s f = ground arith
collect_ips-mem k (ip ∷ ips) servers seen s f = ground (
  arith,
  collect_ips-mem k ips servers seen s f,
  collect_ips-mem k ips (servers ++ ip ∷ []) (ip ∷ seen) (SameMembers-add ip seen servers s) f,
  mem_snoc k ip servers,
  text_eq_iff ip k,
  s ip,
)

collect-Collected :
    (ns : List Nameserver) (flag : Bool) (st : List Text × List Text)
    → Collected st
    → Collected (collect_nameserver_ips st ns flag)
unfolding collect_nameserver_ips
collect-Collected [] flag st c = c
collect-Collected (n ∷ ns) flag st c = elim (Bool-cases (same_flag n.is_fallback flag)) [
  | inl e ↦
      rw e
        (collect-Collected ns flag (collect_ips n.ips st) (collect_ips-Collected n.ips st.0 st.1 c))
  | inr e ↦ rw e (collect-Collected ns flag st c)
]

collect-mem :
    (k : Text) (ns : List Nameserver) (flag : Bool) (st : List Text × List Text)
    → Collected st
    → is_empty k ≡ false
    → mem k (collect_nameserver_ips st ns flag).0 ≡ (mem k st.0 || listed flag k ns)
unfolding collect_nameserver_ips listed
collect-mem k [] flag st c f = ground arith
collect-mem k (n ∷ ns) flag st c f = elim (Bool-cases (same_flag n.is_fallback flag)) [
  | inl e ↦ ground (
    arith,
    collect-mem k ns flag (collect_ips n.ips st) (collect_ips-Collected n.ips st.0 st.1 c) f,
    collect_ips-mem k n.ips st.0 st.1 c.tracked f,
  )
  | inr e ↦ ground (arith, collect-mem k ns flag st c f)
]

nil-Collected : Collected ([], [])
nil-Collected = record { distinct = tt; filled = tt; tracked = λ k. refl }

-- The public resolvers, each once.
public-Usable : IsDistinct egress_public_dns_servers × All IsFilled egress_public_dns_servers
unfolding mem text_eq
public-Usable = ((refl, (refl, tt)), (refl, (refl, tt)))

-- The address stands among the addresses of the nameservers.
abbrev pub listed_any : Text → List Nameserver → Bool
listed_any ip ns = listed false ip ns || listed true ip ns

-- What is asked for a name whose best matching nameservers are given.
pub record Resolves (servers : List Text) (best : List Nameserver) : Type 0 where
  pub some_server : is_empty servers ≡ false
  pub distinct : IsDistinct servers
  pub filled : All IsFilled servers
  pub chosen :
      ((k : Text) → (is_empty k ≡ true) ⊎ (mem k servers ≡ listed_any k best))
      ⊎ ((servers ≡ egress_public_dns_servers)
          × ((k : Text) → (is_empty k ≡ true) ⊎ (listed_any k best ≡ false)))

unless_empty :
    (k : Text) (a b : Bool) → (is_empty k ≡ false → a ≡ b) → (is_empty k ≡ true) ⊎ (a ≡ b)
unless_empty [] a b f = inl refl
unless_empty (c ∷ k) a b f = inr (f refl)

both-Collected :
    (best : List Nameserver)
    → Collected (collect_nameserver_ips (collect_nameserver_ips ([], []) best false) best true)
both-Collected best =
    collect-Collected best true (collect_nameserver_ips ([], []) best false)
      (collect-Collected best false ([], []) nil-Collected)

both-mem :
    (k : Text) (best : List Nameserver)
    → is_empty k ≡ false
    → mem k (collect_nameserver_ips (collect_nameserver_ips ([], []) best false) best true).0
      ≡ listed_any k best
unfolding mem
both-mem k best f = ground (
  arith,
  collect-mem k best true (collect_nameserver_ips ([], []) best false)
      (collect-Collected best false ([], []) nil-Collected) f,
  collect-mem k best false ([], []) nil-Collected f,
)

nil_members : (k : Text) (l : List Text) → is_empty l ≡ true → mem k l ≡ false
unfolding mem
nil_members k [] e = refl
nil_members k (x ∷ l) e = cc

public-Resolves :
    (best : List Nameserver)
    → ((k : Text) → is_empty k ≡ false → listed_any k best ≡ false)
    → Resolves egress_public_dns_servers best
public-Resolves best h = record {
  some_server = refl;
  distinct = public-Usable.0;
  filled = public-Usable.1;
  chosen = inr (refl, λ k. unless_empty k (listed_any k best) false (h k));
}

nothing_listed :
    (best : List Nameserver) → is_empty best ≡ true → (k : Text) → listed_any k best ≡ false
unfolding listed
nothing_listed [] e k = refl
nothing_listed (n ∷ best) e k = cc

best_of_nil : (q : Text) (ns : List Nameserver) → is_empty ns ≡ true → find_best_match q ns ≡ []
unfolding find_best_match
best_of_nil q [] e = refl
best_of_nil q (n ∷ ns) e = cc

-- A name always has a server to ask, none of them empty and none asked twice. The servers are the
-- addresses of the best matching nameservers, fallback ones included, each of them; only if these
-- list no address are they the public resolvers.
pub egress_resolution_servers-Resolves :
    (domain : Text) (nameservers : List Nameserver)
    → Resolves
        (egress_resolution_servers_from domain nameservers)
        (find_best_match (canonicalize_domain_for_matching domain) nameservers)
unfolding egress_resolution_servers_from
egress_resolution_servers-Resolves domain nameservers =
    let best = find_best_match (canonicalize_domain_for_matching domain) nameservers in
    let both = collect_nameserver_ips (collect_nameserver_ips ([], []) best false) best true in
    elim (Bool-cases (is_empty nameservers)) [
      | inl e ↦ rw e (
          rw (best_of_nil (canonicalize_domain_for_matching domain) nameservers e)
            (public-Resolves [] (λ k f. nothing_listed [] refl k)))
      | inr f ↦ elim (Bool-cases (is_empty best)) [
        | inl e ↦ rw (f, e) (public-Resolves best (λ k g. nothing_listed best e k))
        | inr g ↦ elim (Bool-cases (is_empty both.0)) [
          | inl e ↦
              rw (f, g, e)
                (public-Resolves best (λ k h. sym (both-mem k best h) ∙ nil_members k both.0 e))
          | inr h ↦
              rw (f, g, h)
                (record {
                  some_server = h;
                  distinct = (both-Collected best).distinct;
                  filled = (both-Collected best).filled;
                  chosen =
                      inl
                        (λ k. unless_empty k (mem k both.0) (listed_any k best) (both-mem k best));
                })
        ]
      ]
    ]
