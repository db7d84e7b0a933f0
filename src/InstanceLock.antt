-- ===== src/InstanceLock.antt =====
-- The single-instance lock (SingleInstanceLock in agent/src/backend/SingleInstanceLock.cpp): processes
-- that acquire and release it, each call of the operating system one step, in any interleaving. A file is
-- a number, its inode; an advisory lock on a file is held by the process that has it open and locked.
pub mod Exclusion
pub mod Termination
use libre_darwin.Base.{
  ℕ, zero, suc, ◌≡◌, ◌≢◌, Option, none, some, Bool, true, false, ◌==◌, if◌then◌else◌,
}

-- Where a process stands, with the attempts it has left and the file it has open.
pub data Process : Type 0 where
  acquiring : (attempts : ℕ) → Process
  opened locked : (attempts inode : ℕ) → Process
  holding leaving unlinked : (inode : ℕ) → Process
  refused failed released : Process

-- The file that the lock path names, and the processes.
pub record World : Type 0 where
  pub path : Option ℕ
  pub processes : ℕ → Process

-- `kAcquireAttempts`
abbrev pub acquire_attempts : ℕ
acquire_attempts = 8

-- The file that a process has locked.
abbrev pub lock_of : Process → Option ℕ
lock_of (locked attempts inode) = some inode
lock_of (holding inode) = some inode
lock_of (leaving inode) = some inode
lock_of (unlinked inode) = some inode
lock_of _ = none

abbrev pub update : ℕ → Process → (ℕ → Process) → ℕ → Process
update p x processes q = if q == p then x else processes q

abbrev pub becomes : World → ℕ → Process → World
becomes w p x = record w { processes = update p x w.processes }

-- No other process has the lock on a file.
abbrev pub IsFree : World → ℕ → ℕ → Type 0
IsFree w p inode = (q : ℕ) → (q == p) ≡ false → lock_of (w.processes q) ≢ some inode

-- One step of a process.
pub data Move (p : ℕ) : World → World → Type 0 where
  -- `open` with `O_CREAT`: the file of the path, or a new one.
  open_found :
      (w : World) (n inode : ℕ)
      → w.processes p ≡ acquiring (suc n)
      → w.path ≡ some inode
      → Move p w (becomes w p (opened n inode))
  open_created :
      (w : World) (n inode : ℕ)
      → w.processes p ≡ acquiring (suc n)
      → w.path ≡ none
      → Move p w (record (becomes w p (opened n inode)) { path = some inode })
  -- `open`, `fstat` or `flock` failed.
  gave_up : (w : World) (n : ℕ) → w.processes p ≡ acquiring (suc n) → Move p w (becomes w p failed)
  gave_up_opened :
      (w : World) (n inode : ℕ) → w.processes p ≡ opened n inode → Move p w (becomes w p failed)
  -- `flock` without waiting.
  lock_granted :
      (w : World) (n inode : ℕ)
      → w.processes p ≡ opened n inode
      → IsFree w p inode
      → Move p w (becomes w p (locked n inode))
  lock_refused :
      (w : World) (n inode q : ℕ)
      → w.processes p ≡ opened n inode
      → lock_of (w.processes q) ≡ some inode
      → Move p w (becomes w p refused)
  -- `pathNames` after the lock.
  path_named :
      (w : World) (n inode : ℕ)
      → w.processes p ≡ locked n inode
      → w.path ≡ some inode
      → Move p w (becomes w p (holding inode))
  path_moved :
      (w : World) (n inode : ℕ)
      → w.processes p ≡ locked n inode
      → w.path ≢ some inode
      → Move p w (becomes w p (acquiring n))
  out_of_attempts : (w : World) → w.processes p ≡ acquiring zero → Move p w (becomes w p failed)
  -- `release`: `pathNames`, `unlink`, and the close that drops the lock.
  release_named :
      (w : World) (inode : ℕ)
      → w.processes p ≡ holding inode
      → w.path ≡ some inode
      → Move p w (becomes w p (leaving inode))
  release_moved :
      (w : World) (inode : ℕ)
      → w.processes p ≡ holding inode
      → w.path ≢ some inode
      → Move p w (becomes w p (unlinked inode))
  path_unlinked :
      (w : World) (inode : ℕ)
      → w.processes p ≡ leaving inode
      → Move p w (record (becomes w p (unlinked inode)) { path = none })
  lock_closed :
      (w : World) (inode : ℕ) → w.processes p ≡ unlinked inode → Move p w (becomes w p released)

-- Every process before its first step, with the path naming a file or none.
abbrev pub start : Option ℕ → World
start path = record { path = path; processes = λ _. acquiring acquire_attempts }

-- Runs, by the number of the processes that moved, the latest first.
pub data Reach (w0 : World) : World → Type 0 where
  begun : Reach w0 w0
  moved : (p : ℕ) {w v : World} → Reach w0 w → Move p w v → Reach w0 v
