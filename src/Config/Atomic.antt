-- ===== src/Config/Atomic.antt =====
-- config/config.go: WriteJSONAtomic. The results of the calls of the system are arguments. The
-- function gives the states of the disk that it goes through, since the process can be killed in
-- each of them; a file that is not yet synced is a part of what is written.
pub mod Safe
use netclient.Prelude.{Bool, not, ◌&&◌, Option, none, some, List, [], ◌∷◌, if◌then◌else◌}
use netclient.Config.Locks.{LockResult, done, failed}

pub data Written (D : Type 0) : Type 0 where
  part : Written D
  whole : D → Written D

-- The file, its backup and its temporary file.
pub record Files (D : Type 0) : Type 0 where
  pub final : Option (Written D)
  pub backup : Option (Written D)
  pub temp : Option (Written D)

-- Which calls succeed: the check of the directory or its making, Lock, and those on the files;
-- and whether the system is Windows.
pub record Calls : Type 0 where
  pub has_dir : Bool
  pub locks : LockResult
  pub opens_temp : Bool
  pub encodes : Bool
  pub syncs : Bool
  pub closes : Bool
  pub removes_backup : Bool
  pub stats_final : Bool
  pub renames_final : Bool
  pub windows : Bool
  pub removes_final : Bool
  pub renames_temp : Bool

pub data WriteError : Type 0 where
  no_dir : WriteError
  no_lock : WriteError
  no_temp : WriteError
  not_encoded : WriteError
  not_synced : WriteError
  not_closed : WriteError
  no_backup : WriteError
  not_checked : WriteError
  not_renamed : WriteError

module _ {D : Type 0} (c : Calls) where
  -- The rename of the temporary file, with the removal before it on Windows. The states come last
  -- first.
  unfoldable pub rename_temp :
      Files D → List (Files D) → Option WriteError × Files D × List (Files D)
  rename_temp fs seen =
      let fs' : Files D = if c.windows && c.removes_final then record fs { final = none } else fs in
      if c.renames_temp
      then (none, record fs' { final = fs'.temp; temp = none }, fs' ∷ seen)
      else (some not_renamed, fs', seen)

  -- The backup of the file that stands.
  unfoldable pub back_up : Files D → List (Files D) → Option WriteError × Files D × List (Files D)
  back_up fs seen = if not c.stats_final then (some not_checked, fs, seen) else elim fs.final [
    | none ↦ rename_temp fs seen
    | some old ↦
        if c.renames_final
        then rename_temp (record fs { backup = some old; final = none }) (fs ∷ seen)
        else (some no_backup, fs, seen)
  ]

  -- Removing the old backup, once the temporary file is written.
  unfoldable pub replace_file :
      Files D → List (Files D) → Option WriteError × Files D × List (Files D)
  replace_file fs seen =
      back_up (if c.removes_backup then record fs { backup = none } else fs) (fs ∷ seen)

  -- WriteJSONAtomic: its error, the last state of the disk, and those before it.
  unfoldable pub write_json_atomic : D → Files D → Option WriteError × Files D × List (Files D)
  write_json_atomic data' fs = if not c.has_dir then (some no_dir, fs, []) else elim c.locks [
    | failed _ ↦ (some no_lock, fs, [])
    | done ↦
        if not c.opens_temp
        then (some no_temp, fs, [])
        else (let fs1 : Files D = record fs { temp = some part } in
            if not c.encodes
            then (some not_encoded, fs1, fs ∷ [])
            else if not c.syncs
            then (some not_synced, fs1, fs ∷ [])
            else (let fs2 : Files D = record fs { temp = some (whole data') } in
                if not c.closes
                then (some not_closed, fs2, fs1 ∷ fs ∷ [])
                else replace_file fs2 (fs1 ∷ fs ∷ [])))
  ]
