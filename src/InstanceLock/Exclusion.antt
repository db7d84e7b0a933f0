-- ===== src/InstanceLock/Exclusion.antt =====
-- The holders of the lock (agent/src/backend/SingleInstanceLock.cpp).
use libre_darwin.Base.{
  ℕ, ◌≡◌, ◌≢◌, refl, sym, ◌∙◌, ap, Option, none, some, false, ◌==◌, arith, Bool-cases, inl, inr,
}
use libre_darwin.InstanceLock.{
  Process, acquiring, opened, locked, holding, leaving, unlinked, refused, failed, released, World,
  lock_of, update, becomes, Move, open_found, open_created, gave_up, gave_up_opened, lock_granted,
  lock_refused, path_named, path_moved, out_of_attempts, release_named, release_moved,
  path_unlinked, lock_closed, start, Reach, begun, moved,
}

-- The file that a process holds the lock path's lock on.
abbrev pub held_by : Process → Option ℕ
held_by (holding inode) = some inode
held_by (leaving inode) = some inode
held_by _ = none

-- A file is locked by one process at most; and the path names the file of a process that holds.
record IsSound (w : World) : Type 0 where
  exclusive :
      (p q inode : ℕ)
      → lock_of (w.processes p) ≡ some inode
      → lock_of (w.processes q) ≡ some inode
      → p ≡ q
  named : (p inode : ℕ) → held_by (w.processes p) ≡ some inode → w.path ≡ some inode

held-lock : (x : Process) (inode : ℕ) → held_by x ≡ some inode → lock_of x ≡ some inode
held-lock (holding i) inode h = h
held-lock (leaving i) inode h = h
held-lock (acquiring n) inode h = cc
held-lock (opened n i) inode h = cc
held-lock (locked n i) inode h = cc
held-lock (unlinked i) inode h = cc
held-lock refused inode h = cc
held-lock failed inode h = cc
held-lock released inode h = cc

module _ (w : World) (p : ℕ) (x : Process) where
  -- A step that locks no file anew, or one that no other process has.
  exclusive-update :
      IsSound w
      → ((inode q : ℕ)
          → lock_of x ≡ some inode
          → (q == p) ≡ false
          → lock_of (w.processes q) ≢ some inode)
      → (a b inode : ℕ) → lock_of (update p x w.processes a) ≡ some inode
      → lock_of (update p x w.processes b) ≡ some inode
      → a ≡ b
  exclusive-update h k a b inode e f = elim (Bool-cases (a == p)) [
    | inl s ↦ elim (Bool-cases (b == p)) [
      | inl t ↦ ground arith
      | inr t ↦ elim (k inode b (rw s at e) t (rw t at f)) [ ]
    ]
    | inr s ↦ elim (Bool-cases (b == p)) [
      | inl t ↦ elim (k inode a (rw t at f) s (rw s at e)) [ ]
      | inr t ↦ h.exclusive a b inode (rw s at e) (rw t at f)
    ]
  ]

  -- A process that keeps the file that it had locked, if it keeps one.
  kept :
      IsSound w
      → ((inode : ℕ) → lock_of x ≡ some inode → lock_of (w.processes p) ≡ some inode)
      → (inode q : ℕ) → lock_of x ≡ some inode
      → (q == p) ≡ false
      → lock_of (w.processes q) ≢ some inode
  kept h k inode q e ne f = let s = h.exclusive q p inode f (k inode e) in ground arith

  -- A step under which the path goes on naming the files that are held.
  named-update :
      (path : Option ℕ)
      → ((inode : ℕ) → held_by x ≡ some inode → path ≡ some inode)
      → ((q inode : ℕ)
          → (q == p) ≡ false
          → held_by (w.processes q) ≡ some inode
          → path ≡ some inode)
      → (q inode : ℕ) → held_by (update p x w.processes q) ≡ some inode
      → path ≡ some inode
  named-update path k o q inode e = elim (Bool-cases (q == p)) [
    | inl s ↦ k inode (rw s at e)
    | inr s ↦ o q inode s (rw s at e)
  ]

-- A step to where the process has no lock, the path as it was.
idle-IsSound :
    (w : World) (p : ℕ) (x : Process) → lock_of x ≡ none → IsSound w → IsSound (becomes w p x)
idle-IsSound w p x none_locked h = record {
  exclusive = exclusive-update w p x h (λ i q e. elim (none-ne-some (sym none_locked ∙ e)) [ ]);
  named =
      named-update w p x w.path (λ i e. elim (none-ne-some (sym none_locked ∙ held-lock x i e)) [ ])
        (λ q i _ e. h.named q i e);
}
  where
    none-ne-some : {n : ℕ} → ◌≢◌ {A = Option ℕ} none (some n)
    none-ne-some e = cc

-- A step to where the process keeps its lock, on the file that the path names if it counts as held.
kept-IsSound :
    (w : World) (p : ℕ) (x : Process)
    → ((i : ℕ) → lock_of x ≡ some i → lock_of (w.processes p) ≡ some i)
    → ((i : ℕ) → held_by x ≡ some i → w.path ≡ some i)
    → IsSound w
    → IsSound (becomes w p x)
kept-IsSound w p x k n h = record {
  exclusive = exclusive-update w p x h (kept w p x h k);
  named = named-update w p x w.path n (λ q i _ e. h.named q i e);
}

Move-IsSound : (p : ℕ) {w v : World} → Move p w v → IsSound w → IsSound v
Move-IsSound p (open_found w n inode a f) h = idle-IsSound w p (opened n inode) refl h
Move-IsSound p (open_created w n inode a f) h = record {
  exclusive = exclusive-update w p (opened n inode) h (λ i q e. cc);
  named =
      named-update w p (opened n inode) (some inode) (λ i e. cc)
        (λ q i _ e. let g = h.named q i e in cc);
}
Move-IsSound p (gave_up w n a) h = idle-IsSound w p failed refl h
Move-IsSound p (gave_up_opened w n inode a) h = idle-IsSound w p failed refl h
Move-IsSound p (lock_granted w n inode a free) h = record {
  exclusive = exclusive-update w p (locked n inode) h (λ i q e ne f. free q ne (f ∙ sym e));
  named = named-update w p (locked n inode) w.path (λ i e. cc) (λ q i _ e. h.named q i e);
}
Move-IsSound p (lock_refused w n inode q a f) h = idle-IsSound w p refused refl h
Move-IsSound p (path_named w n inode a f) h =
    kept-IsSound w p (holding inode) (λ i e. ap lock_of a ∙ e) (λ i e. f ∙ e) h
Move-IsSound p (path_moved w n inode a f) h = idle-IsSound w p (acquiring n) refl h
Move-IsSound p (out_of_attempts w a) h = idle-IsSound w p failed refl h
Move-IsSound p (release_named w inode a f) h =
    kept-IsSound w p (leaving inode) (λ i e. ap lock_of a ∙ e) (λ i e. f ∙ e) h
Move-IsSound p (release_moved w inode a f) h =
    kept-IsSound w p (unlinked inode) (λ i e. ap lock_of a ∙ e) (λ i e. cc) h
Move-IsSound p (path_unlinked w inode a) h = record {
  exclusive =
      exclusive-update w p (unlinked inode) h
        (kept w p (unlinked inode) h (λ i e. ap lock_of a ∙ e));
  named =
      named-update w p (unlinked inode) none (λ i e. cc)
        (λ q i ne e.
          let mine = h.named p inode (ap held_by a) in
          let theirs = h.named q i e in
          let same : i ≡ inode = cc in
          let lock = held-lock (w.processes q) i e ∙ ap some same in
          let twin = h.exclusive q p inode lock (ap lock_of a) in ground arith);
}
Move-IsSound p (lock_closed w inode a) h = idle-IsSound w p released refl h

Reach-IsSound : {w0 w : World} → Reach w0 w → IsSound w0 → IsSound w
Reach-IsSound begun h = h
Reach-IsSound (moved p r m) h = Move-IsSound p m (Reach-IsSound r h)

-- However the steps of any number of processes interleave, from the start at most one of them holds the
-- lock, and the lock path then names the file that it holds.
pub Reach-exclusive :
    (path : Option ℕ) (w : World) (p q i j : ℕ)
    → Reach (start path) w
    → held_by (w.processes p) ≡ some i
    → held_by (w.processes q) ≡ some j
    → (p ≡ q) × (w.path ≡ some i)
Reach-exclusive path w p q i j r e f =
    let s = Reach-IsSound r (record { exclusive = λ a b n f g. cc; named = λ a n f. cc }) in
    let mine = s.named p i e in
    let theirs = s.named q j f in
    let same : j ≡ i = cc in
    let lock = held-lock (w.processes q) j f ∙ ap some same in
    (s.exclusive p q i (held-lock (w.processes p) i e) lock, mine)
