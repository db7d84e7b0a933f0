-- ===== src/InstanceLock/Termination.antt =====
-- The steps of a process that acquires and releases the lock
-- (agent/src/backend/SingleInstanceLock.cpp).
use libre_darwin.Base.{
  ℕ, suc, ◌+◌, ◌*◌, ◌≤◌, ◌≡◌, sym, subst, Option, ◌==◌, if◌then◌else◌, arith, Bool-cases, inl, inr,
}
use libre_darwin.InstanceLock.{
  Process, acquiring, opened, locked, holding, leaving, unlinked, refused, failed, released, World,
  update, Move, open_found, open_created, gave_up, gave_up_opened, lock_granted, lock_refused,
  path_named, path_moved, out_of_attempts, release_named, release_moved, path_unlinked, lock_closed,
  start, Reach, begun, moved,
}

-- The steps that a process has before it at most.
abbrev steps_left : Process → ℕ
steps_left (acquiring n) = 3 * n + 4
steps_left (opened n inode) = 3 * n + 6
steps_left (locked n inode) = 3 * n + 5
steps_left (holding inode) = 3
steps_left (leaving inode) = 2
steps_left (unlinked inode) = 1
steps_left _ = 0

-- The steps of one process in a run.
unfoldable pub steps_of : {w0 w : World} → ℕ → Reach w0 w → ℕ
steps_of p begun = 0
steps_of p (moved q r m) = let rest = steps_of p r in if p == q then suc rest else rest

-- What a step of a process leaves to another.
abbrev Spends : ℕ → ℕ → World → World → Type 0
Spends p q w v = steps_left (v.processes p) + (if p == q then 1 else 0) ≤ steps_left (w.processes p)

becomes-Spends :
    (p q : ℕ) (w : World) (x : Process)
    → suc (steps_left x) ≤ steps_left (w.processes q)
    → steps_left (update q x w.processes p) + (if p == q then 1 else 0) ≤ steps_left (w.processes p)
becomes-Spends p q w x h = elim (Bool-cases (p == q)) [
  | inl e ↦
      let s : p ≡ q = ground arith in
      rw e (subst (λ n. steps_left x + 1 ≤ steps_left (w.processes n)) (sym s) (omega (arith, h)))
  | inr e ↦ rw e (omega arith)
]

Move-Spends : (p q : ℕ) {w v : World} → Move q w v → Spends p q w v
Move-Spends p q (open_found w n inode a f) =
    becomes-Spends p q w (opened n inode) (rw a (omega arith))
Move-Spends p q (open_created w n inode a f) =
    becomes-Spends p q w (opened n inode) (rw a (omega arith))
Move-Spends p q (gave_up w n a) = becomes-Spends p q w failed (rw a (omega arith))
Move-Spends p q (gave_up_opened w n inode a) = becomes-Spends p q w failed (rw a (omega arith))
Move-Spends p q (lock_granted w n inode a free) =
    becomes-Spends p q w (locked n inode) (rw a (omega arith))
Move-Spends p q (lock_refused w n inode r a f) = becomes-Spends p q w refused (rw a (omega arith))
Move-Spends p q (path_named w n inode a f) =
    becomes-Spends p q w (holding inode) (rw a (omega arith))
Move-Spends p q (path_moved w n inode a f) = becomes-Spends p q w (acquiring n) (rw a (omega arith))
Move-Spends p q (out_of_attempts w a) = becomes-Spends p q w failed (rw a (omega arith))
Move-Spends p q (release_named w inode a f) =
    becomes-Spends p q w (leaving inode) (rw a (omega arith))
Move-Spends p q (release_moved w inode a f) =
    becomes-Spends p q w (unlinked inode) (rw a (omega arith))
Move-Spends p q (path_unlinked w inode a) =
    becomes-Spends p q w (unlinked inode) (rw a (omega arith))
Move-Spends p q (lock_closed w inode a) = becomes-Spends p q w released (rw a (omega arith))

Reach-spent :
    (path : Option ℕ) (p : ℕ) {w : World} (r : Reach (start path) w)
    → steps_of p r + steps_left (w.processes p) ≤ 28
unfolding steps_of
Reach-spent path p begun = omega arith
Reach-spent path p (moved q r m) =
    let before = Reach-spent path p r in let now = Move-Spends p q m in ground arith

-- In any run, a process with its eight attempts takes at most 28 steps, whatever other processes do
-- meanwhile.
pub steps_of-le :
    (path : Option ℕ) (p : ℕ) {w : World} (r : Reach (start path) w) → steps_of p r ≤ 28
steps_of-le path p r = omega (arith, Reach-spent path p r)
