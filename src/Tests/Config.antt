-- ===== src/Tests/Config.antt =====
-- The configuration at concrete inputs.
use netclient.Prelude.{ℕ, ◌*◌, ◌≤◌, ◌≡◌, refl, Bool, true, false, none, some, [], ◌==◌, arith}
use netclient.Text.{codes}
use netclient.Config.Locks.{Moment, LockResult, owned, done, failed, timed_out, lock, unlock}
use netclient.Config.Locks.Ends.{IsLockEnd, IsUnlockEnd, lock-ends}
use netclient.Config.Atomic.{Files, Calls, whole, write_json_atomic}
use netclient.Config.Atomic.Safe.{IsSafeWrite, write_json_atomic-IsSafeWrite}
use netclient.Config.Host.{Host, update_host}
use netclient.Config.Host.Agreed.{IsHostUpdate, update_host-IsHostUpdate}

-- A lock file of a process that stays alive.
abbrev held : ℕ → Moment
held n = record { lockfile = some (owned 9); writes = true; removes = true; elapsed = 100 * n }

abbrev seven_dead : ℕ → Bool
seven_dead pid = pid == 7

lock-ends_example :
    ((r : LockResult) × (n : ℕ) × (lock seven_dead true 60 held ≡ some r)
      × (n ≤ 51)
      × IsLockEnd true r (held n))
    × ((r : LockResult) × (n : ℕ) × (unlock 9 60 held ≡ some r)
        × (n ≤ 51)
        × IsUnlockEnd 9 r (held n))
lock-ends_example = lock-ends seven_dead true 9 held 60 (λ n. omega arith) (omega arith)

lock_run : lock seven_dead true 60 held ≡ some (failed timed_out)
unfolding lock netclient.Config.Locks.poll netclient.Config.Locks.lock_round
    netclient.Config.Locks.lock_act
lock_run = refl

unlock_run : unlock 9 60 held ≡ some done
unfolding unlock netclient.Config.Locks.poll netclient.Config.Locks.unlock_round
unlock_run = refl

abbrev disk : Files ℕ
disk = record { final = some (whole 1); backup = none; temp = none }

-- The last rename fails.
abbrev no_rename : Calls
no_rename = record {
  has_dir = true;
  locks = done;
  opens_temp = true;
  encodes = true;
  syncs = true;
  closes = true;
  removes_backup = false;
  stats_final = true;
  renames_final = true;
  windows = false;
  removes_final = false;
  renames_temp = false;
}

write_json_atomic-IsSafeWrite_example : IsSafeWrite 1 2 (write_json_atomic no_rename 2 disk)
write_json_atomic-IsSafeWrite_example = write_json_atomic-IsSafeWrite no_rename 1 2 disk refl

-- The file is gone then, with its backup beside it.
write_json_atomic_run :
    (write_json_atomic no_rename 2 disk).1
    ≡ record { final = none; backup = some (whole 1); temp = some (whole 2) }
unfolding write_json_atomic netclient.Config.Atomic.replace_file netclient.Config.Atomic.back_up
    netclient.Config.Atomic.rename_temp
write_json_atomic_run = refl

abbrev pub own_host : Host
own_host = record {
  id = codes "h1";
  name = codes "laptop";
  verbosity = 0;
  listen_port = 51821;
  wg_public_listen_port = 51821;
  mtu = 1420;
  is_static = false;
  auto_update = false;
  endpoint_ip = some (codes "203.0.113.7");
  endpoint_ip6 = none;
  interface = codes "netmaker";
  os = codes "linux";
  os_family = codes "debian";
  os_version = codes "12";
  kernel_version = codes "6.1";
  firewall_in_use = codes "iptables";
  daemon_installed = true;
  version = codes "v1.6.0";
  mac_address = [];
  public_key = codes "K1";
  traffic_key_public = codes "T1";
  host_pass = codes "secret";
  entra_device_id = [];
  serial_number = codes "S1";
  hardware_uuid = [];
}

abbrev pub server_host : Host
server_host = record own_host {
  listen_port = 51822;
  endpoint_ip = none;
  host_pass = [];
  mtu = 1280;
}

abbrev pub is_free : ℕ → Bool
is_free port = port == 51822

update_host-IsHostUpdate_example :
    IsHostUpdate
      (some 51821)
      is_free
      own_host
      server_host
      (update_host (some 51821) is_free own_host (some server_host))
update_host-IsHostUpdate_example =
    update_host-IsHostUpdate (some 51821) is_free own_host server_host

update_host_run : (update_host (some 51821) is_free own_host (some server_host)).restart ≡ true
unfolding update_host netclient.Config.Host.port_choice netclient.Config.Host.choose_port
update_host_run = refl
