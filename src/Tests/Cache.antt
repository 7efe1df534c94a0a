-- ===== src/Tests/Cache.antt =====
-- dns/querycache at concrete inputs: one address with two resolutions.
use netclient.Prelude.{
  ◌≡◌, refl, List, [], ◌∷◌, true, not, ◌&&◌, if◌then◌else◌, Option, some, ltb, arith,
}
use netclient.Text.{Text, codes, trim_suffix}
use netclient.Dns.Domain.{dot}
use netclient.Dns.QueryCache.{
  LookupEntry, Manager, record_resolution, lookup_domain, newest, enable, disable, new_manager,
}
use netclient.Dns.QueryCache.Ordered.{IsOrdered}
use netclient.Dns.QueryCache.Reads.{
  same_address, IsValid, IsMostRecent, lookup_domain-record_resolution, record_resolution-IsValid,
}

abbrev canonical : Text → Option Text
canonical ip = some ip

abbrev address : Text
address = codes "10.0.0.9"

abbrev old_entry : LookupEntry
old_entry = record { domain = codes "old.example"; ts = 10 }

abbrev new_entry : LookupEntry
new_entry = record { domain = codes "new.example"; ts = 20 }

abbrev resolutions : List LookupEntry
resolutions = old_entry ∷ new_entry ∷ []

abbrev cache : Manager
cache = record {
  enabled = true;
  cancel = some true;
  cleanups = 1;
  entries = (address, resolutions) ∷ [];
}

resolutions-IsOrdered : IsOrdered resolutions
resolutions-IsOrdered = ((omega arith, tt), (tt, tt))

cache_IsValid : IsValid cache
unfolding netclient.Assoc.has_key
cache_IsValid = record { ordered = (resolutions-IsOrdered, tt); distinct = (refl, tt) }

abbrev third : Manager
third = record_resolution canonical cache address (codes "third.example.") 30

lookup_domain-record_resolution_example :
    (lookup_domain canonical third address 40 ≡ (
      if same_address (canonical address) (canonical address) && not (ltb 40 30)
      then trim_suffix (codes "third.example.") dot
      else lookup_domain canonical cache address 40))
    × IsMostRecent canonical third address 40
lookup_domain-record_resolution_example =
    lookup_domain-record_resolution canonical cache address (codes "third.example.") address 30 40
      refl cache_IsValid ((omega arith, (omega arith, tt)), tt)

record_resolution-IsValid_example :
    IsValid (record_resolution canonical cache address (codes "third.example.") 30)
record_resolution-IsValid_example =
    record_resolution-IsValid canonical cache address (codes "third.example.") 30 cache_IsValid
      ((omega arith, (omega arith, tt)), tt)

newest_test : newest 15 resolutions ≡ some old_entry
unfolding newest
newest_test = refl

-- A second Enable takes the place of the first one's cancel: Disable leaves a goroutine running.
enable_twice : (disable (enable (enable new_manager))).cleanups ≡ 1
unfolding enable disable
enable_twice = refl
