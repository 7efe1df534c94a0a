-- ===== src/Dns/QueryCache/Pruned.antt =====
-- A cleanup, and the goroutines that run it.
use netclient.Prelude.{
  ℕ, ◌≡◌, refl, List, [], ◌∷◌, true, false, if◌then◌else◌, Option, none, some, arith, All,
  Bool-cases, Option-cases, inl, inr, is_empty,
}
use netclient.Text.{Text, text_eq, text_eq_iff}
use netclient.Assoc.{lookup, has_key, has_key-eq_lookup, HasDistinctKeys}
use netclient.Dns.QueryCache.{
  LookupEntry, Manager, entries_of, lookup_domain, newest, domain_of, prune, prune_all,
  prune_entries,
}
use netclient.Dns.QueryCache.Ordered.{
  IsOrdered, newest-keep, prune_entries-keep, fresh, IsOrdered-keep,
}
use netclient.Dns.QueryCache.Reads.{IsValid, newest_of_lookup, lookup-All}

prune_all-has_key :
    (cutoff : ℕ) (k : Text) (m : List (Text × List LookupEntry))
    → has_key k m ≡ false
    → has_key k (prune_all cutoff m) ≡ false
unfolding prune_all has_key
prune_all-has_key cutoff k [] h = refl
prune_all-has_key cutoff k ((j, l) ∷ m) h = ground (arith, prune_all-has_key cutoff k m)

has_key-none :
    (k : Text) (m : List (Text × List LookupEntry)) → has_key k m ≡ false → lookup k m ≡ none
has_key-none k m h = ground (arith, has_key-eq_lookup k m)

is_empty_nil : (l : List LookupEntry) → is_empty l ≡ true → l ≡ []
is_empty_nil [] h = refl
is_empty_nil (e ∷ l) h = cc

-- The entries of a key after a cleanup are what is kept of its entries.
prune_all-lookup :
    (cutoff : ℕ) (k : Text) (m : List (Text × List LookupEntry))
    → HasDistinctKeys m
    → entries_of (lookup k (prune_all cutoff m)) ≡ prune_entries cutoff (entries_of (lookup k m))
unfolding prune_all lookup
prune_all-lookup cutoff k [] d = unfold prune_entries in refl
prune_all-lookup cutoff k ((j, l) ∷ m) d = elim (Bool-cases (text_eq j k)) [
  | inr e ↦ ground (arith, prune_all-lookup cutoff k m d.1)
  | inl e ↦
      let same : j ≡ k = (text_eq_iff j k).0 e in
      let absent : has_key k m ≡ false = rw (← same) d.0 in
      ground (
        arith,
        has_key-none k (prune_all cutoff m) (prune_all-has_key cutoff k m absent),
        is_empty_nil (prune_entries cutoff l),
      )
]

prune_all-IsValid :
    (cutoff : ℕ) (m : List (Text × List LookupEntry))
    → All (λ kl. IsOrdered kl.1) m
    → HasDistinctKeys m
    → All (λ kl. IsOrdered kl.1) (prune_all cutoff m) × HasDistinctKeys (prune_all cutoff m)
unfolding prune_all
prune_all-IsValid cutoff [] o d = (tt, tt)
prune_all-IsValid cutoff ((j, l) ∷ m) o d =
    let (ordered, distinct) = prune_all-IsValid cutoff m o.1 d.1 in
    elim (Bool-cases (is_empty (prune_entries cutoff l))) [
      | inl e ↦ rw e (ordered, distinct)
      | inr e ↦ rw e (
        (rw (prune_entries-keep cutoff l o.0) (IsOrdered-keep cutoff l o.0), ordered),
        (prune_all-has_key cutoff j m d.0, distinct),
      )
    ]

module _ (canonical : Text → Option Text) where
  -- The entry that Lookup's answer is taken from.
  unfoldable pub resolution : Manager → Text → ℕ → Option LookupEntry
  resolution m ip before = elim (canonical ip) [
    | none ↦ none
    | some k ↦ newest before (entries_of (lookup k m.entries))
  ]

  lookup_domain-resolution :
      (m : Manager) (ip : Text) (before : ℕ)
      → lookup_domain canonical m ip before ≡ domain_of (resolution m ip before)
  unfolding lookup_domain resolution
  lookup_domain-resolution m ip before = elim (Option-cases (canonical ip)) [
    | inl bad ↦ ground arith
    | inr (k, p) ↦ ground (arith, newest_of_lookup m k before)
  ]

  resolution-prune :
      (m : Manager) (cutoff : ℕ) (ip : Text) (before : ℕ)
      → IsValid m
      → resolution (prune m cutoff) ip before ≡ elim (resolution m ip before) [
        | none ↦ none
        | some e ↦ if fresh cutoff e then some e else none
      ]
  unfolding resolution prune
  resolution-prune m cutoff ip before v = elim (Option-cases (canonical ip)) [
    | inl bad ↦ ground arith
    | inr (k, p) ↦
        let l = entries_of (lookup k m.entries) in
        let o : IsOrdered l = lookup-All IsOrdered k m.entries tt v.ordered in
        ground (
          arith,
          prune_all-lookup cutoff k m.entries v.distinct,
          prune_entries-keep cutoff l o,
          newest-keep before cutoff l o,
        )
  ]

  -- A cleanup forgets exactly the resolutions before its cutoff: Lookup answers as before where its
  -- answer is not older than the cutoff, and with nothing where it is. The entries stay in order.
  pub lookup_domain-prune :
      (m : Manager) (cutoff : ℕ) (ip : Text) (before : ℕ)
      → IsValid m
      → IsValid (prune m cutoff)
        × (lookup_domain canonical (prune m cutoff) ip before
            ≡ domain_of (elim (resolution m ip before) [
              | none ↦ none
              | some e ↦ if fresh cutoff e then some e else none
            ]))
        × (lookup_domain canonical m ip before ≡ domain_of (resolution m ip before))
  lookup_domain-prune m cutoff ip before v =
      let (ordered, distinct) = prune_all-IsValid cutoff m.entries v.ordered v.distinct in
      (
        record { ordered = unfold prune in ordered; distinct = unfold prune in distinct },
        rw (lookup_domain-resolution (prune m cutoff) ip before)
            (rw (resolution-prune m cutoff ip before v) refl),
        lookup_domain-resolution m ip before,
      )
