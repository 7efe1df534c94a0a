-- ===== src/Dns/QueryCache/Reads.antt =====
-- What Lookup reads after Record and after a cleanup.
use netclient.Prelude.{
  ℕ, ◌≤◌, ◌<◌, ◌≡◌, ◌⊎◌, ap, ◌∙◌, refl, List, [], ◌∷◌, ◌++◌, Bool, true, false, not, ◌&&◌,
  if◌then◌else◌, Option, none, some, ltb, arith, All, All-append, Bool-cases, Option-cases, inl,
  inr,
}
use netclient.Text.{Text, text_eq, text_eq_iff, trim_suffix}
use netclient.Assoc.{lookup, insert, lookup-insert, HasDistinctKeys, HasDistinctKeys-insert}
use netclient.Dns.Domain.{dot}
use netclient.Dns.QueryCache.{
  LookupEntry, Manager, record_resolution, push_back, entries_of, lookup_domain, newest, domain_of,
}
use netclient.Dns.QueryCache.Ordered.{
  IsOrdered, IsOrdered-snoc, newest_snoc, IsNewest, newest-IsNewest, none_serves,
}

-- The address texts that stand for one address.
abbrev pub same_address : Option Text → Option Text → Bool
same_address none b = false
same_address (some k) none = false
same_address (some k) (some j) = text_eq k j

pub newest_empty : (before : ℕ) → newest before [] ≡ none
unfolding newest
newest_empty before = refl

lookup-push_back :
    (m : Manager) (k j : Text) (e : LookupEntry)
    → lookup j (push_back m k e).entries ≡ (
        if text_eq k j
        then some (entries_of (lookup k m.entries) ++ e ∷ [])
        else lookup j m.entries)
unfolding push_back
lookup-push_back m k j e = lookup-insert k j (entries_of (lookup k m.entries) ++ e ∷ []) m.entries

pub newest_of_lookup :
    (m : Manager) (k : Text) (before : ℕ)
    → elim (lookup k m.entries) [ none ↦ [] | some l ↦ domain_of (newest before l) ]
      ≡ domain_of (newest before (entries_of (lookup k m.entries)))
newest_of_lookup m k before = ground (arith, newest_empty before)

module _ (canonical : Text → Option Text) where
  -- Record and Lookup whatever the order of the entries: the one recorded last is found.
  pub record_resolution_lem :
      (m : Manager) (ip domain asked : Text) (ts before : ℕ)
      → m.enabled ≡ true
      → lookup_domain canonical (record_resolution canonical m ip domain ts) asked before ≡ (
          if same_address (canonical ip) (canonical asked) && not (ltb before ts)
          then trim_suffix domain dot
          else lookup_domain canonical m asked before)
  unfolding lookup_domain record_resolution
  record_resolution_lem m ip domain asked ts before on = elim (Option-cases (canonical ip)) [
    | inl bad ↦ ground arith
    | inr (k, p) ↦ elim (Option-cases (canonical asked)) [
      | inl bad ↦ ground arith
      | inr (j, q) ↦ ground (
        arith,
        lookup-push_back m k j (record { domain = trim_suffix domain dot; ts = ts }),
        newest_of_lookup m k before,
        newest_of_lookup m j before,
        newest_snoc before (record { domain = trim_suffix domain dot; ts = ts })
            (entries_of (lookup k m.entries)),
        text_eq_iff k j,
      )
    ]
  ]

-- The entries of every address are in the order of their times, and no address has an entry twice.
pub record IsValid (m : Manager) : Type 0 where
  pub ordered : All (λ kl. IsOrdered kl.1) m.entries
  pub distinct : HasDistinctKeys m.entries

abbrev pub NotAfter : ℕ → List (Text × List LookupEntry) → Type 0
NotAfter ts = All (λ kl. All (λ e. e.ts ≤ ts) kl.1)

insert-All :
    (P : Text × List LookupEntry → Type 0) (k : Text) (l : List LookupEntry)
    (m : List (Text × List LookupEntry))
    → All P m
    → ((j : Text) → P (j, l))
    → All P (insert k l m)
unfolding insert
insert-All P k l [] h p = (p k, tt)
insert-All P k l ((j, w) ∷ m) h p = elim (Bool-cases (text_eq j k)) [
  | inl e ↦ rw e (p k, h.1)
  | inr e ↦ rw e (h.0, insert-All P k l m h.1 p)
]

pub lookup-All :
    (P : List LookupEntry → Type 0) (k : Text) (m : List (Text × List LookupEntry))
    → P []
    → All (λ kl. P kl.1) m
    → P (entries_of (lookup k m))
unfolding lookup
lookup-All P k [] z h = z
lookup-All P k ((j, w) ∷ m) z h = elim (Bool-cases (text_eq j k)) [
  | inl e ↦ rw e h.0
  | inr e ↦ rw e (lookup-All P k m z h.1)
]

push_back-IsValid :
    (m : Manager) (k : Text) (e : LookupEntry)
    → IsValid m
    → NotAfter e.ts m.entries
    → IsValid (push_back m k e)
unfolding push_back
push_back-IsValid m k e v n =
    let l = entries_of (lookup k m.entries) in
    record {
      ordered =
          insert-All (λ kl. IsOrdered kl.1) k (l ++ e ∷ []) m.entries v.ordered
            (λ j.
              IsOrdered-snoc l e (lookup-All IsOrdered k m.entries tt v.ordered)
                (lookup-All (All (λ f. f.ts ≤ e.ts)) k m.entries tt n));
      distinct = HasDistinctKeys-insert k (l ++ e ∷ []) m.entries v.distinct;
    }

-- Recording at a time that no stored entry exceeds keeps the entries in order.
pub record_resolution-IsValid :
    (canonical : Text → Option Text) (m : Manager) (ip domain : Text) (ts : ℕ)
    → IsValid m
    → NotAfter ts m.entries
    → IsValid (record_resolution canonical m ip domain ts)
unfolding record_resolution
record_resolution-IsValid canonical m ip domain ts v n = elim (Bool-cases m.enabled) [
  | inr off ↦ let same : record_resolution canonical m ip domain ts ≡ m = ground arith in rw same v
  | inl on ↦ elim (Option-cases (canonical ip)) [
    | inl bad ↦
        let same : record_resolution canonical m ip domain ts ≡ m = ground arith in rw same v
    | inr (k, p) ↦
        let same : record_resolution canonical m ip domain ts
            ≡ push_back m k (record { domain = trim_suffix domain dot; ts = ts }) =
          ground arith in
        rw same (push_back-IsValid m k (record { domain = trim_suffix domain dot; ts = ts }) v n)
  ]
]

module _ (canonical : Text → Option Text) where
  pub record_enabled :
      (m : Manager) (ip domain : Text) (ts : ℕ)
      → (record_resolution canonical m ip domain ts).enabled ≡ m.enabled
  unfolding record_resolution push_back
  record_enabled m ip domain ts = ground arith

  -- What Lookup gives is the domain of the entry of the address that was resolved last at or before
  -- the time; none of its entries was resolved by then where it gives none.
  abbrev pub IsMostRecent : Manager → Text → ℕ → Type 0
  IsMostRecent m asked before = elim (canonical asked) [
    | none ↦ lookup_domain canonical m asked before ≡ []
    | some k ↦
        ((lookup_domain canonical m asked before ≡ [])
          × All (λ f. before < f.ts) (entries_of (lookup k m.entries)))
        ⊎ ((e : LookupEntry) × (lookup_domain canonical m asked before ≡ e.domain)
            × IsNewest before (entries_of (lookup k m.entries)) e)
  ]

  lookup_domain_at :
      (m : Manager) (asked k : Text) (before : ℕ)
      → canonical asked ≡ some k
      → lookup_domain canonical m asked before
        ≡ domain_of (newest before (entries_of (lookup k m.entries)))
  unfolding lookup_domain
  lookup_domain_at m asked k before q = ground (arith, newest_of_lookup m k before)

  lookup_domain_bad :
      (m : Manager) (asked : Text) (before : ℕ)
      → canonical asked ≡ none
      → lookup_domain canonical m asked before ≡ []
  unfolding lookup_domain
  lookup_domain_bad m asked before q = ground arith

  pub lookup_domain-IsMostRecent :
      (m : Manager) (asked : Text) (before : ℕ) → IsValid m → IsMostRecent m asked before
  lookup_domain-IsMostRecent m asked before v = elim (Option-cases (canonical asked)) [
    | inl bad ↦ rw (bad, IsMostRecent) (lookup_domain_bad m asked before bad)
    | inr (k, q) ↦
        let l = entries_of (lookup k m.entries) in
        let given = lookup_domain_at m asked k before q in
        rw (q, IsMostRecent)
          (elim (Option-cases (newest before l)) [
            | inl e ↦ inl (given ∙ ap domain_of e, none_serves before l e)
            | inr (e, p) ↦ inr (
              e,
              given ∙ ap domain_of p,
              newest-IsNewest before l e (lookup-All IsOrdered k m.entries tt v.ordered) p,
            )
          ])
  ]

  pub record_resolution-NotAfter :
      (m : Manager) (ip domain : Text) (ts : ℕ)
      → NotAfter ts m.entries
      → NotAfter ts (record_resolution canonical m ip domain ts).entries
  unfolding record_resolution push_back
  record_resolution-NotAfter m ip domain ts n = elim (Bool-cases m.enabled) [
    | inr off ↦
        let same : record_resolution canonical m ip domain ts ≡ m = ground arith in rw same n
    | inl on ↦ elim (Option-cases (canonical ip)) [
      | inl bad ↦
          let same : record_resolution canonical m ip domain ts ≡ m = ground arith in rw same n
      | inr (k, p) ↦
          let e : LookupEntry = record { domain = trim_suffix domain dot; ts = ts } in
          let same : record_resolution canonical m ip domain ts ≡ push_back m k e = ground arith in
          let old = lookup-All (All (λ f. f.ts ≤ ts)) k m.entries tt n in
          let l = entries_of (lookup k m.entries) in
          rw same (
            insert-All (λ kl. All (λ f. f.ts ≤ ts) kl.1) k (l ++ e ∷ []) m.entries n
              (λ j. All-append (λ f. f.ts ≤ ts) l (e ∷ []) old (omega arith, tt)))
    ]
  ]

  -- A resolution that is recorded, at a time that no stored entry exceeds, is what Lookup gives for
  -- that address at any time that is not before it; every other question is answered as before. The
  -- root dot of the domain is dropped. Where the entries were in order, the answer is the domain
  -- that was resolved last at or before the time asked for. The manager is enabled.
  pub lookup_domain-record_resolution :
      (m : Manager) (ip domain asked : Text) (ts before : ℕ)
      → m.enabled ≡ true
      → IsValid m
      → NotAfter ts m.entries
      → let m' = record_resolution canonical m ip domain ts in
        (lookup_domain canonical m' asked before ≡ (
          if same_address (canonical ip) (canonical asked) && not (ltb before ts)
          then trim_suffix domain dot
          else lookup_domain canonical m asked before))
        × IsMostRecent m' asked before
  lookup_domain-record_resolution m ip domain asked ts before on v n = (
    record_resolution_lem canonical m ip domain asked ts before on,
    lookup_domain-IsMostRecent (record_resolution canonical m ip domain ts) asked before
        (record_resolution-IsValid canonical m ip domain ts v n),
  )
