-- ===== src/Config/Locks.antt =====
-- config/config.go: Lock and Unlock, loops that look at the lock file every tenth of a second until
-- they are done or five seconds have passed. What a round finds is an argument: the lock file is
-- shared with other processes, which change it between the rounds. IsPidDead asks the system.
pub mod Ends
use netclient.Prelude.{
  ℕ, zero, suc, Bool, false, ◌&&◌, ◌||◌, Option, none, some, ltb, ◌==◌, if◌then◌else◌,
}

-- Timeout, and the sleep behind a round, in milliseconds.
abbrev pub timeout : ℕ
timeout = 5000

abbrev pub pause : ℕ
pause = 100

-- The contents of the lock file: those that cannot be read or decoded, or an owner.
pub data Contents : Type 0 where
  unreadable : Contents
  undecodable : Contents
  owned : ℕ → Contents

-- What a round finds: the lock file, none where it does not exist; whether its writes and its
-- removals succeed; and the time since the start, when it asks.
pub record Moment : Type 0 where
  pub lockfile : Option Contents
  pub writes : Bool
  pub removes : Bool
  pub elapsed : ℕ

-- What a round of Lock does with the file. A write that fails is noticed only under debugging.
pub data LockAct : Type 0 where
  wrote : LockAct
  unnoticed : LockAct
  not_written : LockAct
  tried_removal : LockAct
  waited : LockAct

pub data LockError : Type 0 where
  timed_out : LockError
  not_read : LockError

-- The result of a function that returns an error.
pub data LockResult : Type 0 where
  done : LockResult
  failed : LockError → LockResult

-- The end of a round that is not done: the test of the time.
abbrev or_timeout : Moment → Option LockResult
or_timeout m = if ltb timeout m.elapsed then some (failed timed_out) else none

-- The loop: rounds on fuel, each with the result that it returns, if it does.
unfoldable pub poll : (Moment → Option LockResult) → ℕ → (ℕ → Moment) → ℕ → Option LockResult
poll round zero seen i = none
poll round (suc fuel) seen i = elim (round (seen i)) [
  | some r ↦ some r
  | none ↦ poll round fuel seen (suc i)
]

module _ (is_pid_dead : ℕ → Bool) (debug : Bool) where
  -- The body of the loop of Lock, up to the test of the time.
  unfoldable pub lock_act : Moment → LockAct
  lock_act m = elim m.lockfile [
    | none ↦ if m.writes then wrote else if debug then not_written else unnoticed
    | some c ↦ elim c [
      | unreadable ↦ tried_removal
      | undecodable ↦ tried_removal
      | owned pid ↦ if is_pid_dead pid then tried_removal else waited
    ]
  ]

  unfoldable pub lock_round : Moment → Option LockResult
  lock_round m = elim (lock_act m) [ wrote ↦ some done | unnoticed ↦ some done | _ ↦ or_timeout m ]

  unfoldable pub lock : ℕ → (ℕ → Moment) → Option LockResult
  lock fuel seen = poll lock_round fuel seen 0

-- Whether a round of Unlock by `self` removes the lock file, or tries to.
unfoldable pub unlock_removes : (ℕ → Bool) → ℕ → Contents → Bool
unlock_removes is_pid_dead self (owned pid) = pid == self || is_pid_dead pid
unlock_removes is_pid_dead self unreadable = false
unlock_removes is_pid_dead self undecodable = false

-- The body of the loop of Unlock for the process `self`.
unfoldable pub unlock_round : ℕ → Moment → Option LockResult
unlock_round self m = elim m.lockfile [
  | none ↦ some done
  | some c ↦ elim c [
    | unreadable ↦ some (failed not_read)
    | undecodable ↦ or_timeout m
    | owned pid ↦ if pid == self && m.removes then some done else or_timeout m
  ]
]

unfoldable pub unlock : ℕ → ℕ → (ℕ → Moment) → Option LockResult
unlock self fuel seen = poll (unlock_round self) fuel seen 0
