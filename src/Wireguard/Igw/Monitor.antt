-- ===== src/Wireguard/Igw/Monitor.antt =====
-- wireguard/igw.go: Monitor, Stop and IsCurrentIGW of IGWMonitor. A goroutine ticks on its own
-- status, which Monitor shares with the field `status` while it is the current one.
use netclient.Prelude.{List, ◌∷◌, Bool, false, Option, none, some}
use netclient.Text.{Text, text_eq}
use netclient.Wireguard.Igw.{IgwStatus, new_status}

-- The status of the current goroutine, if the monitor runs, and those of the cancelled goroutines
-- that have not returned yet.
pub record IgwMonitor : Type 0 where
  pub current : Option IgwStatus
  pub cancelled : List IgwStatus

abbrev pub retired : Option IgwStatus → List IgwStatus → List IgwStatus
retired none l = l
retired (some s) l = s ∷ l

-- Monitor
unfoldable pub monitor : Text → Text → Bool → IgwMonitor → IgwMonitor
monitor public_key network_ip is_v4 m = record {
  current = some (new_status public_key network_ip is_v4);
  cancelled = retired m.current m.cancelled;
}

-- Stop
unfoldable pub stop : IgwMonitor → IgwMonitor
stop m = record { current = none; cancelled = retired m.current m.cancelled }

-- IsCurrentIGW; the texts are those of the addresses, which net.IP.Equal compares.
unfoldable pub is_current_igw : IgwMonitor → Text → Bool
is_current_igw m network_ip = elim m.current [
  | none ↦ false
  | some s ↦ text_eq s.network_ip network_ip
]
