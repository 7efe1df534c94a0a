-- ===== src/Dns/QueryCache/Ordered.antt =====
-- Entries in the order of their times, as recording at rising times leaves them.
use netclient.Prelude.{
  In, sym, ℕ, ◌≤◌, ◌<◌, ◌≡◌, ◌⊎◌, refl, List, [], ◌∷◌, ◌++◌, Bool, not, if◌then◌else◌, none, some,
  ltb, arith, All, All-append, All-map, Bool-cases, Option-cases, inl, inr, keep,
}
use mathlib.Core.List.{reverse, reverse-cons, reverse-append}
use netclient.Dns.QueryCache.{LookupEntry, walk_back, newest, prune_entries}

abbrev pub IsOrdered : List LookupEntry → Type 0
IsOrdered [] = Unit
IsOrdered (e ∷ es) = All (λ f. e.ts ≤ f.ts) es × IsOrdered es

walk_back-append :
    (before : ℕ) (l r : List LookupEntry)
    → walk_back before (l ++ r)
      ≡ elim (walk_back before l) [ some e ↦ some e | none ↦ walk_back before r ]
unfolding walk_back
walk_back-append before [] r = refl
walk_back-append before (e ∷ l) r = ground (arith, walk_back-append before l r)

-- From the front: a later entry that serves goes before an earlier one.
pub newest_cons :
    (before : ℕ) (e : LookupEntry) (l : List LookupEntry)
    → newest before (e ∷ l) ≡ elim (newest before l) [
      | some f ↦ some f
      | none ↦ if not (ltb before e.ts) then some e else none
    ]
unfolding newest walk_back
newest_cons before e l = rw (reverse-cons e l) (walk_back-append before (reverse l) (e ∷ []))

pub newest_snoc :
    (before : ℕ) (e : LookupEntry) (l : List LookupEntry)
    → newest before (l ++ e ∷ []) ≡ (if not (ltb before e.ts) then some e else newest before l)
unfolding newest walk_back
newest_snoc before e l = rw (reverse-append l (e ∷ []))

pub IsOrdered-snoc :
    (l : List LookupEntry) (e : LookupEntry)
    → IsOrdered l
    → All (λ f. f.ts ≤ e.ts) l
    → IsOrdered (l ++ e ∷ [])
IsOrdered-snoc [] e o h = (tt, tt)
IsOrdered-snoc (f ∷ l) e o h =
    (All-append (λ g. f.ts ≤ g.ts) l (e ∷ []) o.0 (h.0, tt), IsOrdered-snoc l e o.1 h.1)

abbrev pub fresh : ℕ → LookupEntry → Bool
fresh cutoff e = not (ltb e.ts cutoff)

-- What the newest entry at a time is: not after it, and no entry that is not after it is newer.
pub record IsNewest (before : ℕ) (l : List LookupEntry) (e : LookupEntry) : Type 0 where
  pub stored : In e l
  pub not_after : e.ts ≤ before
  pub none_newer : All (λ f. (before < f.ts) ⊎ (f.ts ≤ e.ts)) l

pub none_serves :
    (before : ℕ) (l : List LookupEntry) → newest before l ≡ none → All (λ f. before < f.ts) l
none_serves before [] h = tt
none_serves before (e ∷ l) h = (
  ground (arith, newest_cons before e l),
  none_serves before l (ground (arith, newest_cons before e l)),
)

newest_nil : (before : ℕ) → newest before [] ≡ none
unfolding newest walk_back
newest_nil before = refl

All-In {κ} :
    (P : LookupEntry → Type κ) (l : List LookupEntry) {e : LookupEntry} → All P l → In e l → P e
All-In P (x ∷ l) h (inl e) = rw e h.0
All-In P (x ∷ l) h (inr i) = All-In P l h.1 i
All-In P [] h i = elim i [ ]

-- On ordered entries the walk finds the entry that was resolved last at or before the time.
pub newest-IsNewest :
    (before : ℕ) (l : List LookupEntry) (e : LookupEntry)
    → IsOrdered l
    → newest before l ≡ some e
    → IsNewest before l e
newest-IsNewest before [] e o h = absurd (ground (arith, newest_nil before))
newest-IsNewest before (x ∷ l) e o h = elim (Option-cases (newest before l)) [
  | inl no_later ↦
      let same : x ≡ e = ground (arith, newest_cons before x l) in
      record {
        stored = inl (sym same);
        not_after = ground (arith, newest_cons before x l);
        none_newer = (
          inr (ground arith),
          All-map (λ f. before < f.ts) (λ f. (before < f.ts) ⊎ (f.ts ≤ e.ts)) l (λ f p. inl p)
              (none_serves before l no_later),
        );
      }
  | inr (f, later) ↦
      let same : f ≡ e = ground (arith, newest_cons before x l) in
      let found : newest before l ≡ some e = rw (← same) later in
      let ih = newest-IsNewest before l e o.1 found in
      record {
        stored = inr ih.stored;
        not_after = ih.not_after;
        none_newer = (inr (All-In (λ g. x.ts ≤ g.ts) l o.0 ih.stored), ih.none_newer);
      }
]

keep-All :
    (cutoff : ℕ) (l : List LookupEntry) → All (λ f. cutoff ≤ f.ts) l → keep (fresh cutoff) l ≡ l
keep-All cutoff [] h = refl
keep-All cutoff (e ∷ l) h = ground (arith, keep-All cutoff l h.1)

-- On ordered entries the loop of prune drops every entry before the cutoff, not only those in front
-- of the first fresh one.
pub prune_entries-keep :
    (cutoff : ℕ) (l : List LookupEntry)
    → IsOrdered l
    → prune_entries cutoff l ≡ keep (fresh cutoff) l
unfolding prune_entries
prune_entries-keep cutoff [] o = refl
prune_entries-keep cutoff (e ∷ l) o = elim (Bool-cases (ltb e.ts cutoff)) [
  | inl old ↦ ground (arith, prune_entries-keep cutoff l o.1)
  | inr new ↦ ground (
    arith,
    keep-All cutoff l (All-map (λ f. e.ts ≤ f.ts) (λ f. cutoff ≤ f.ts) l (λ f h. ground arith) o.0),
  )
]

-- Pruning loses an answer only if it is before the cutoff.
pub newest-keep :
    (before cutoff : ℕ) (l : List LookupEntry)
    → IsOrdered l
    → newest before (keep (fresh cutoff) l)
      ≡ elim (newest before l) [ none ↦ none | some e ↦ if fresh cutoff e then some e else none ]
newest-keep before cutoff [] o = rw (newest_nil before)
newest-keep before cutoff (x ∷ l) o = elim (Option-cases (newest before l)) [
  | inl no_later ↦ ground (
    arith,
    newest-keep before cutoff l o.1,
    newest_cons before x l,
    newest_cons before x (keep (fresh cutoff) l),
  )
  | inr (f, later) ↦
      let ih = newest-IsNewest before l f o.1 later in
      let below : x.ts ≤ f.ts = All-In (λ g. x.ts ≤ g.ts) l o.0 ih.stored in
      ground (
        arith,
        newest-keep before cutoff l o.1,
        newest_cons before x l,
        newest_cons before x (keep (fresh cutoff) l),
      )
]

All-keep {κ} :
    (P : LookupEntry → Type κ) (cutoff : ℕ) (l : List LookupEntry)
    → All P l
    → All P (keep (fresh cutoff) l)
All-keep P cutoff [] h = tt
All-keep P cutoff (e ∷ l) h = elim (Bool-cases (fresh cutoff e)) [
  | inl f ↦ rw f (h.0, All-keep P cutoff l h.1)
  | inr f ↦ rw f (All-keep P cutoff l h.1)
]

pub IsOrdered-keep :
    (cutoff : ℕ) (l : List LookupEntry) → IsOrdered l → IsOrdered (keep (fresh cutoff) l)
IsOrdered-keep cutoff [] o = tt
IsOrdered-keep cutoff (e ∷ l) o = elim (Bool-cases (fresh cutoff e)) [
  | inl f ↦ rw f (All-keep (λ g. e.ts ≤ g.ts) cutoff l o.0, IsOrdered-keep cutoff l o.1)
  | inr f ↦ rw f (IsOrdered-keep cutoff l o.1)
]
