-- ===== src/Config/Locks/Ends.antt =====
-- config/config.go: the loops of Lock and Unlock end.
use netclient.Prelude.{
  ℕ, zero, suc, ◌+◌, ◌*◌, ◌≤◌, ◌<◌, ◌≡◌, refl, ◌⊎◌, inl, inr, Bool, true, false, Option, none, some,
  ◌==◌, Bool-cases, Option-cases, arith,
}
use netclient.Config.Locks.{
  Moment, unreadable, owned, LockResult, done, failed, timed_out, not_read, timeout, pause, poll,
  lock_round, unlock_round, unlock_removes, lock_act, waited, lock, unlock,
}

poll-round :
    (round : Moment → Option LockResult) (seen : ℕ → Moment) (fuel i : ℕ)
    → poll round (suc fuel) seen i
      ≡ elim (round (seen i)) [ some r ↦ some r | none ↦ poll round fuel seen (suc i) ]
unfolding poll
poll-round round seen fuel i = refl

-- The loop returns what a round returns, at the latest in the first round that starts past the
-- time, where every round does return.
poll-ends :
    (round : Moment → Option LockResult) (seen : ℕ → Moment)
    → ((m : Moment) → timeout < m.elapsed → (r : LockResult) × (round m ≡ some r))
    → ((n : ℕ) → pause * n ≤ (seen n).elapsed)
    → (fuel i : ℕ) → 52 ≤ fuel + i
    → i ≤ 51
    → (r : LockResult) × (n : ℕ) × (poll round fuel seen i ≡ some r)
      × (n ≤ 51)
      × (round (seen n) ≡ some r)
poll-ends round seen late slept zero i h k = absurd (omega arith)
poll-ends round seen late slept (suc fuel) i h k = elim (Option-cases (round (seen i))) [
  | inr (r, e) ↦ (r, i, ground (arith, poll-round round seen fuel i, e), k, e)
  | inl e ↦ elim (Bool-cases (i == 51)) [
    | inl q ↦ let (r, e') = late (seen i) (ground (arith, slept i, q)) in ground (arith, e, e')
    | inr q ↦
        let (r, n, p, l, x) =
          poll-ends round seen late slept fuel (suc i) (omega arith) (ground (arith, q)) in
        (r, n, ground (arith, poll-round round seen fuel i, e, p), l, x)
  ]
]

-- What a result of Lock says of the round that gave it: there was no lock file, and it was
-- written, or the write failed and debugging is off; or the time had passed.
abbrev pub IsLockEnd : Bool → LockResult → Moment → Type 0
IsLockEnd debug done m = (m.lockfile ≡ none) × ((m.writes ≡ true) ⊎ (debug ≡ false))
IsLockEnd debug (failed e) m = (e ≡ timed_out) × (timeout < m.elapsed)

lock_round-IsLockEnd :
    (is_pid_dead : ℕ → Bool) (debug : Bool) (m : Moment) (r : LockResult)
    → lock_round is_pid_dead debug m ≡ some r
    → IsLockEnd debug r m
unfolding lock_round lock_act
lock_round-IsLockEnd is_pid_dead debug m done h = ground (arith, h)
lock_round-IsLockEnd is_pid_dead debug m (failed e) h = ground (arith, h)

lock_round-late :
    (is_pid_dead : ℕ → Bool) (debug : Bool) (m : Moment)
    → timeout < m.elapsed
    → (r : LockResult) × (lock_round is_pid_dead debug m ≡ some r)
unfolding lock_round
lock_round-late is_pid_dead debug m h = elim (Option-cases (lock_round is_pid_dead debug m)) [
  | inr x ↦ x
  | inl e ↦ ground (arith, h, e)
]

-- What a result of Unlock for the process `self` says of the round that gave it: the lock file was
-- gone, or it was that process's and was removed; or it could not be read; or the time had passed.
abbrev pub IsUnlockEnd : ℕ → LockResult → Moment → Type 0
IsUnlockEnd self done m =
    (m.lockfile ≡ none) ⊎ ((m.lockfile ≡ some (owned self)) × (m.removes ≡ true))
IsUnlockEnd self (failed timed_out) m = timeout < m.elapsed
IsUnlockEnd self (failed not_read) m = m.lockfile ≡ some unreadable

unlock_round-IsUnlockEnd :
    (self : ℕ) (m : Moment) (r : LockResult) → unlock_round self m ≡ some r → IsUnlockEnd self r m
unfolding unlock_round
unlock_round-IsUnlockEnd self m done h = ground (arith, h)
unlock_round-IsUnlockEnd self m (failed timed_out) h = ground (arith, h)
unlock_round-IsUnlockEnd self m (failed not_read) h = ground (arith, h)

unlock_round-late :
    (self : ℕ) (m : Moment)
    → timeout < m.elapsed
    → (r : LockResult) × (unlock_round self m ≡ some r)
unfolding unlock_round
unlock_round-late self m h = elim (Option-cases (unlock_round self m)) [
  | inr x ↦ x
  | inl e ↦ ground (arith, h, e)
]

-- Lock and Unlock end within 52 rounds, whatever other processes do to the lock file between
-- them, where each round starts a tenth of a second behind the one before, or later. Lock succeeds
-- only in a round that found no lock file and wrote it, or whose write failed unnoticed because
-- debugging is off; Unlock only in one that found none, or found its own and removed it. The error
-- is TIMEOUT only past five seconds.
pub lock-ends :
    (is_pid_dead : ℕ → Bool) (debug : Bool) (self : ℕ) (seen : ℕ → Moment) (fuel : ℕ)
    → ((n : ℕ) → pause * n ≤ (seen n).elapsed)
    → 52 ≤ fuel
    → ((r : LockResult) × (n : ℕ) × (lock is_pid_dead debug fuel seen ≡ some r)
        × (n ≤ 51)
        × IsLockEnd debug r (seen n))
      × ((r : LockResult) × (n : ℕ) × (unlock self fuel seen ≡ some r)
          × (n ≤ 51)
          × IsUnlockEnd self r (seen n))
unfolding lock unlock
lock-ends is_pid_dead debug self seen fuel slept h =
    let (r, n, p, l, x) =
      poll-ends (lock_round is_pid_dead debug) seen (lock_round-late is_pid_dead debug) slept fuel 0
        (omega arith) (omega arith) in
    let (u, k, q, b, y) =
      poll-ends (unlock_round self) seen (unlock_round-late self) slept fuel 0 (omega arith)
        (omega arith) in
    (
      (r, n, p, l, lock_round-IsLockEnd is_pid_dead debug (seen n) r x),
      (u, k, q, b, unlock_round-IsUnlockEnd self (seen k) u y),
    )

-- Neither loop touches the lock file of another process that is alive.
lock_act-live :
    (is_pid_dead : ℕ → Bool) (debug : Bool) (self pid : ℕ) (m : Moment)
    → m.lockfile ≡ some (owned pid)
    → is_pid_dead pid ≡ false
    → (pid == self) ≡ false
    → (lock_act is_pid_dead debug m ≡ waited)
      × (unlock_removes is_pid_dead self (owned pid) ≡ false)
unfolding lock_act unlock_removes
lock_act-live is_pid_dead debug self pid m h d n = ground (arith, h, d, n)
