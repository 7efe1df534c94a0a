-- ===== src/Config/Atomic/Safe.antt =====
-- config/config.go: what WriteJSONAtomic keeps where it fails or is killed.
use netclient.Prelude.{
  ◌≡◌, refl, ◌⊎◌, inl, Option, none, some, List, [], ◌∷◌, All, arith, if◌then◌else◌,
}
use netclient.Config.Atomic.{
  part, whole, Files, Calls, WriteError, rename_temp, back_up, replace_file, write_json_atomic,
}

module _ {D : Type 0} where
  -- The file is the old one or the new one; or it is gone, with the old one as its backup and the
  -- new one whole in the temporary file.
  abbrev pub IsSafe : D → D → Files D → Type 0
  IsSafe old new fs =
      (fs.final ≡ some (whole old))
      ⊎ ((fs.final ≡ some (whole new))
          ⊎ ((fs.final ≡ none) × (fs.backup ≡ some (whole old)) × (fs.temp ≡ some (whole new))))

  -- The end of a write over a file that stands: every state is safe, and a success has put the
  -- new contents in the file and the old ones in the backup.
  abbrev pub IsSafeWrite : D → D → Option WriteError × Files D × List (Files D) → Type 0
  IsSafeWrite old new r =
      All (IsSafe old new) (r.1 ∷ r.2)
      × (r.0 ≡ none → (r.1.final ≡ some (whole new)) × (r.1.backup ≡ some (whole old)))

  back_up-IsSafeWrite :
      (c : Calls) (old new : D) (fs : Files D) (seen : List (Files D))
      → fs.final ≡ some (whole old)
      → fs.temp ≡ some (whole new)
      → All (IsSafe old new) seen
      → IsSafeWrite old new (back_up c fs seen)
  unfolding back_up rename_temp
  back_up-IsSafeWrite c old new fs seen f t s = ground (arith, f, t, s)

  replace_file-IsSafeWrite :
      (c : Calls) (old new : D) (fs : Files D) (seen : List (Files D))
      → fs.final ≡ some (whole old)
      → fs.temp ≡ some (whole new)
      → All (IsSafe old new) seen
      → IsSafeWrite old new (replace_file c fs seen)
  unfolding replace_file
  replace_file-IsSafeWrite c old new fs seen f t s =
      back_up-IsSafeWrite c old new (if c.removes_backup then record fs { backup = none } else fs)
        (fs ∷ seen) (ground (arith, f)) (ground (arith, t)) (inl f, s)

  -- WriteJSONAtomic over a file that stands whole: whichever call fails and wherever the process is
  -- killed, the file holds the old contents or the new ones, whole; or it is missing, while its
  -- backup holds the old ones and the temporary file the new ones. Without an error the file holds
  -- the new contents and the backup the old ones.
  pub write_json_atomic-IsSafeWrite :
      (c : Calls) (old new : D) (fs : Files D)
      → fs.final ≡ some (whole old)
      → IsSafeWrite old new (write_json_atomic c new fs)
  unfolding write_json_atomic
  write_json_atomic-IsSafeWrite c old new fs f =
      let fs1 : Files D = record fs { temp = some part } in
      let replaced =
        replace_file-IsSafeWrite c old new (record fs { temp = some (whole new) }) (fs1 ∷ fs ∷ []) f
          refl (inl f, (inl f, tt)) in
      ground (arith, f, replaced)
