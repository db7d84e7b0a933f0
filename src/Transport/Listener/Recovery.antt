-- ===== src/Transport/Listener/Recovery.antt =====
-- A listener whose path was replaced (`checkSocketPath` in agent/src/backend/SocketTransport.cpp).
use libre_darwin.Base.{
  ℕ, zero, suc, ◌≡◌, sym, subst, none, some, List, [], ◌∷◌, ◌++◌, Bool, true, false, arith,
}
use libre_darwin.Transport.Listener.{
  Listener, ListenerEvent, path_checked, source_cancelled, step, run, names_path, check_socket_path,
}
use libre_darwin.Transport.Listener.Invariant.{IsSound}

-- Closed, and bound to bind again.
record IsWaiting (s : Listener) : Type 0 where
  going : s.stopping ≡ false
  pending : s.rebind_pending ≡ true
  closed : s.listen_fd ≡ none
  idle : s.cancelling ≡ false

-- Checks of the path at which binding fails.
abbrev pub failed_checks : (ℕ → Bool) → ℕ → List ListenerEvent
failed_checks still_names zero = []
failed_checks still_names (suc n) = path_checked still_names none ∷ failed_checks still_names n

-- Serving a socket, under the file that it was bound to.
pub record IsServing (fd : ℕ) (s : Listener) : Type 0 where
  pub listening : s.accept_source ≡ true
  pub on_socket : s.listen_fd ≡ some fd
  pub under_path : s.listen_identity ≡ some fd

waits :
    (still_names : ℕ → Bool) (s : Listener)
    → IsSound s
    → s.stopping ≡ false
    → names_path still_names s.listen_identity ≡ false
    → IsWaiting (step (source_cancelled none) (step (path_checked still_names none) s))
waits still_names s h going replaced = ground arith

waits_on :
    (still_names : ℕ → Bool) (s : Listener) → IsWaiting s → check_socket_path still_names none s ≡ s
waits_on still_names s h = ground arith

serves :
    (still_names : ℕ → Bool) (fd : ℕ) (s : Listener)
    → IsWaiting s
    → IsServing fd (check_socket_path still_names (some fd) s)
serves still_names fd s h = ground arith

serves_after :
    (still_names : ℕ → Bool) (failures fd : ℕ) (s : Listener)
    → IsWaiting s
    → IsServing fd
        (run (failed_checks still_names failures ++ path_checked still_names (some fd) ∷ []) s)
serves_after still_names zero fd s h = serves still_names fd s h
serves_after still_names (suc failures) fd s h =
    let events = failed_checks still_names failures ++ path_checked still_names (some fd) ∷ [] in
    subst (λ t. IsServing fd (run events t)) (sym (waits_on still_names s h))
      (serves_after still_names failures fd s h)

-- A path that was replaced is answered, at any point of the life of a listener that is not torn down:
-- the next check and the cancel handler close the old socket, however often binding fails after that
-- each check tries again, and the first bind that succeeds is served under its own file.
pub run-IsServing :
    (still_names : ℕ → Bool) (failures fd : ℕ) (s : Listener)
    → IsSound s
    → s.stopping ≡ false
    → names_path still_names s.listen_identity ≡ false
    → IsServing fd (
        run
          (path_checked still_names none
              ∷ source_cancelled none
              ∷ failed_checks still_names failures
            ++ path_checked still_names (some fd) ∷ [])
          s)
run-IsServing still_names failures fd s h going replaced =
    serves_after still_names failures fd _ (waits still_names s h going replaced)
