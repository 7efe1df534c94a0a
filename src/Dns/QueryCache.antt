-- ===== src/Dns/QueryCache.antt =====
-- dns/querycache/cache.go: the domains that addresses were resolved to, with the times. A time is
-- the number of nanoseconds since 1970. `canonical` stands for netip.ParseAddr followed by Unmap
-- and String: the canonical text of the address, or none where the parse fails.
pub mod Ordered
pub mod Reads
pub mod Pruned
use netclient.Prelude.{
  ℕ, ◌+◌, ◌-◌, List, [], ◌∷◌, ◌++◌, Bool, true, false, not, if◌then◌else◌, Option, none, some, ltb,
  is_empty,
}
use mathlib.Core.List.{reverse}
use netclient.Text.{Text, trim_suffix}
use netclient.Assoc.{lookup, insert}
use netclient.Dns.Domain.{dot}

-- ttl, 15 minutes
abbrev pub ttl : ℕ
ttl = 900_000_000_000

pub record LookupEntry : Type 0 where
  pub domain : Text
  pub ts : ℕ

-- Manager. `cleanups` counts the running cleanup goroutines, and `cancel` holds whether the
-- goroutine that the field `cancel` stops is among them; none where the field is nil.
pub record Manager : Type 0 where
  pub enabled : Bool
  pub cancel : Option Bool
  pub cleanups : ℕ
  pub entries : List (Text × List LookupEntry)

-- GetManager makes this one, once.
abbrev pub new_manager : Manager
new_manager = record { enabled = false; cancel = none; cleanups = 0; entries = [] }

unfoldable pub enable : Manager → Manager
enable m = record m { enabled = true; cancel = some true; cleanups = m.cleanups + 1 }

unfoldable pub stop_cleanup : Option Bool → Manager → Manager
stop_cleanup none m = m
stop_cleanup (some true) m = record m { cancel = some false; cleanups = m.cleanups - 1 }
stop_cleanup (some false) m = m

unfoldable pub disable : Manager → Manager
unfolding stop_cleanup
disable m = stop_cleanup m.cancel (record m { enabled = false })

abbrev pub entries_of : Option (List LookupEntry) → List LookupEntry
entries_of none = []
entries_of (some l) = l

unfoldable pub push_back : Manager → Text → LookupEntry → Manager
push_back m key e = record m {
  entries = insert key (entries_of (lookup key m.entries) ++ e ∷ []) m.entries;
}

-- Record
module _ (canonical : Text → Option Text) where
  unfoldable pub record_resolution : Manager → Text → Text → ℕ → Manager
  unfolding push_back
  record_resolution m ip domain ts = if not m.enabled then m else elim (canonical ip) [
    | none ↦ m
    | some key ↦ push_back m key (record { domain = trim_suffix domain dot; ts = ts })
  ]

-- The walk of Lookup over the entries, newest first: it stops at the first that is not later.
unfoldable pub walk_back : ℕ → List LookupEntry → Option LookupEntry
walk_back before [] = none
walk_back before (e ∷ es) =
    let rest = walk_back before es in if not (ltb before e.ts) then some e else rest

unfoldable pub newest : ℕ → List LookupEntry → Option LookupEntry
unfolding walk_back
newest before l = walk_back before (reverse l)

abbrev pub domain_of : Option LookupEntry → Text
domain_of none = []
domain_of (some e) = e.domain

-- Lookup
module _ (canonical : Text → Option Text) where
  unfoldable pub lookup_domain : Manager → Text → ℕ → Text
  lookup_domain m ip before = elim (canonical ip) [
    | none ↦ []
    | some key ↦ elim (lookup key m.entries) [ none ↦ [] | some l ↦ domain_of (newest before l) ]
  ]

-- The inner loop of prune: the entries in front that are before the cutoff go.
unfoldable pub prune_entries : ℕ → List LookupEntry → List LookupEntry
prune_entries cutoff [] = []
prune_entries cutoff (e ∷ es) =
    let rest = prune_entries cutoff es in if ltb e.ts cutoff then rest else e ∷ es

unfoldable pub prune_all : ℕ → List (Text × List LookupEntry) → List (Text × List LookupEntry)
unfolding prune_entries
prune_all cutoff [] = []
prune_all cutoff ((key, l) ∷ m) =
    let rest = prune_all cutoff m in
    let kept = prune_entries cutoff l in if is_empty kept then rest else (key, kept) ∷ rest

unfoldable pub prune : Manager → ℕ → Manager
unfolding prune_all
prune m cutoff = record m { entries = prune_all cutoff m.entries }

-- A tick of the cleanup at the time `now`.
unfoldable pub tick : Manager → ℕ → Manager
unfolding prune
tick m now = prune m (now - ttl)
