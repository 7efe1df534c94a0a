-- ===== src/Flow/Sysctl.antt =====
-- flow/tracker/tracker.go: the two settings of the kernel that New turns on and Close puts back. A
-- file that cannot be read or parsed has no value.
use netclient.Prelude.{
  ℕ, ◌≡◌, Bool, true, false, if◌then◌else◌, Option, none, some, ◌==◌, arith, ◌⊎◌,
}

pub record SysctlFile : Type 0 where
  pub value : Option ℕ
  pub writable : Bool

-- setSysctlValue: whether it changed the file, or an error; and the file.
unfoldable pub set_sysctl_value : ℕ → SysctlFile → Option Bool × SysctlFile
set_sysctl_value value file = elim file.value [
  | none ↦ (none, file)
  | some current ↦
      if current == value
      then (some false, file)
      else if file.writable
      then (some true, record file { value = some value })
      else (none, file)
]

-- enableAccounting and enableTimestamp: the flag that tells to restore, or an error; and the file.
unfoldable pub enable_setting : SysctlFile → Option Bool × SysctlFile
enable_setting file = set_sysctl_value 1 file

-- disableAccounting and disableTimestamp: whether they succeed, the flag, and the file.
unfoldable pub disable_setting : Bool → SysctlFile → Bool × Bool × SysctlFile
disable_setting false file = (true, false, file)
disable_setting true file =
    let (r, file') = set_sysctl_value 0 file in
    elim r [ none ↦ (false, true, file') | some _ ↦ (true, false, file') ]

-- The settings of the kernel, and FlowTracker: what to restore, and whether its field `cancel` is
-- set.
pub record Settings : Type 0 where
  pub accounting : SysctlFile
  pub timestamp : SysctlFile

pub record FlowTracker : Type 0 where
  pub restore_accounting : Bool
  pub restore_timestamp : Bool
  pub has_cancel : Bool

-- New: the tracker, or none behind an error; and the settings.
unfoldable pub new_flow_tracker : Settings → Option FlowTracker × Settings
new_flow_tracker s =
    let (a, accounting') = enable_setting s.accounting in
    elim a [
      | none ↦ (none, record s { accounting = accounting' })
      | some ra ↦
          let (t, timestamp') = enable_setting s.timestamp in
          let s' : Settings = record { accounting = accounting'; timestamp = timestamp' } in
          elim t [
            | none ↦ (none, s')
            | some rt ↦ (
              some (record { restore_accounting = ra; restore_timestamp = rt; has_cancel = false }),
              s',
            )
          ]
    ]

-- TrackConnections: whether it succeeds, and the tracker; `listens` tells whether the calls of the
-- connection succeed, Dial, SetReadBuffer and Listen.
unfoldable pub track_connections : Bool → FlowTracker → Bool × FlowTracker
track_connections listens c = (listens, record c { has_cancel = listens })

-- Close behind the cancel: whether it succeeds, the tracker, and the settings.
unfoldable pub restore_settings : FlowTracker → Settings → Bool × FlowTracker × Settings
restore_settings c s =
    let (ok_a, ra, accounting') = disable_setting c.restore_accounting s.accounting in
    let c' : FlowTracker = record c { restore_accounting = ra } in
    let s' : Settings = record s { accounting = accounting' } in
    if ok_a
    then (let (ok_t, rt, timestamp') = disable_setting c.restore_timestamp s.timestamp in
        (ok_t, record c' { restore_timestamp = rt }, record s' { timestamp = timestamp' }))
    else (false, c', s')

-- Close; none where it panics, on a `cancel` that is not set.
unfoldable pub close_flow_tracker : FlowTracker → Settings → Option (Bool × FlowTracker × Settings)
close_flow_tracker c s =
    if c.has_cancel then some (restore_settings (record c { has_cancel = false }) s) else none

-- A setting that is on or off.
abbrev pub IsSwitch : SysctlFile → Type 0
IsSwitch file = (file.value ≡ some 0) ⊎ (file.value ≡ some 1)

-- What Close does behind New: with connections tracked it succeeds and each setting has the value
-- that it had in `s`; without, it panics.
abbrev pub IsRestored : Settings → Bool → Option (Bool × FlowTracker × Settings) → Type 0
IsRestored s true none = ⊥
IsRestored s true (some (ok, c, s')) =
    (ok ≡ true)
    × (s'.accounting.value ≡ s.accounting.value)
    × (s'.timestamp.value ≡ s.timestamp.value)
IsRestored s false r = r ≡ none

-- Close behind New and TrackConnections, for settings that were on or off: where TrackConnections
-- succeeded it succeeds, and each setting has the value that it had before New; where
-- TrackConnections failed it panics.
pub close-new_flow_tracker :
    (s : Settings) (c : FlowTracker) (listens : Bool)
    → IsSwitch s.accounting
    → IsSwitch s.timestamp
    → (new_flow_tracker s).0 ≡ some c
    → IsRestored s listens
        (close_flow_tracker (track_connections listens c).1 (new_flow_tracker s).1)
unfolding new_flow_tracker close_flow_tracker restore_settings track_connections enable_setting
    disable_setting set_sysctl_value
close-new_flow_tracker s c true a t h = ground (arith, a, t, h)
close-new_flow_tracker s c false a t h = ground (arith, a, t, h)
