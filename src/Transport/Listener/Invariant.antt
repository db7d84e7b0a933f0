-- ===== src/Transport/Listener/Invariant.antt =====
-- The listening socket between events (agent/src/backend/SocketTransport.cpp).
use libre_darwin.Base.{
  ℕ, ◌≡◌, refl, Option, none, some, List, [], ◌∷◌, Bool, true, false, is_some, arith, ◌⊎◌, inl, inr,
  if-split, if-either,
}
use libre_darwin.Transport.Listener.{
  Listener, ListenerEvent, path_checked, accept_ready, retry_elapsed, source_cancelled, torn_down,
  step, start, run, rebind_listen_socket, check_socket_path, on_accept_source_cancelled,
  pause_accepting, cancel_accept_source, close_listener, forget_identity, still_held,
}

-- A source watches an open descriptor whose file is known; a cancellation in flight still has its
-- descriptor, and none was ever lost outside the cancel handler; a listener without a source is being
-- bound again or torn down; only a source is paused.
pub record IsSound (s : Listener) : Type 0 where
  pub source_open : s.accept_source ≡ true → is_some s.listen_fd ≡ true
  pub source_known : s.accept_source ≡ true → s.listen_identity ≡ s.listen_fd
  pub source_alone : s.accept_source ≡ true → s.cancelling ≡ false
  pub source_settled : s.accept_source ≡ true → s.rebind_pending ≡ false
  pub source_served : s.accept_source ≡ true → s.stopping ≡ false
  pub cancelling_held : s.cancelling ≡ true → s.cancelled_listener ≡ s.listen_fd
  pub cancelling_open : s.cancelling ≡ true → is_some s.listen_fd ≡ true
  pub closed_by_handler :
      s.cancelling ≡ false → s.accept_source ≡ false → is_some s.listen_fd ≡ false
  pub never_lost : s.stopping ≡ false → s.accept_source ≡ false → s.rebind_pending ≡ true
  pub paused_source : s.accept_paused ≡ true → s.accept_source ≡ true
  pub none_closed : s.closed_at_cancel ≡ 0

rebind-IsSound :
    (bound : Option ℕ) (s : Listener)
    → s.cancelling ≡ false
    → s.stopping ≡ false
    → IsSound s
    → IsSound (rebind_listen_socket bound s)
rebind-IsSound none s c t h = h
rebind-IsSound (some fd) s c t h = ground arith

cancel-IsSound :
    (s : Listener)
    → s.accept_source ≡ true
    → s.stopping ≡ true ⊎ s.rebind_pending ≡ true
    → is_some s.listen_fd ≡ true
    → s.closed_at_cancel ≡ 0
    → IsSound (cancel_accept_source s)
cancel-IsSound s a t o n = ground arith

pause-IsSound : (s : Listener) → IsSound s → IsSound (pause_accepting s)
pause-IsSound s h = ground arith

check-IsSound :
    (still_names : ℕ → Bool) (bound : Option ℕ) (s : Listener)
    → IsSound s
    → IsSound (check_socket_path still_names bound s)
check-IsSound still_names bound s h =
    if-split IsSound s.stopping _ _ (λ _. h)
      (λ going.
        if-split IsSound s.rebind_pending _ _
          (λ pending.
            if-split IsSound (is_some s.listen_fd) _ _ (λ _. h)
              (λ closed. rebind-IsSound bound s (ground arith) going h))
          (λ settled.
            if-split IsSound _ _ _ (λ _. h)
              (λ replaced.
                cancel-IsSound (record s { rebind_pending = true }) (ground arith) (inr refl)
                  (ground arith) h.none_closed)))

held_while_open :
    (cancelled fd : Option ℕ) → cancelled ≡ fd → is_some fd ≡ true → still_held cancelled fd ≡ true
held_while_open cancelled fd e o = rw e (held_itself fd o)
  where
    held_itself : (fd : Option ℕ) → is_some fd ≡ true → still_held fd fd ≡ true
    held_itself none o = cc
    held_itself (some n) o = ground arith

-- The state that the handler leaves the descriptor in.
handled-IsSound :
    (s : Listener)
    → s.cancelling ≡ true
    → still_held s.cancelled_listener s.listen_fd ≡ true
    → IsSound s
    → IsSound (close_listener s)
handled-IsSound s c held h = ground arith

forget-IsSound :
    (s : Listener)
    → s.accept_source ≡ false
    → IsSound s
    → IsSound (record s { listen_identity = none })
forget-IsSound s a h = ground arith

closed-IsSound :
    (bound : Option ℕ) (s : Listener)
    → s.cancelling ≡ true
    → IsSound s
    → IsSound (on_accept_source_cancelled bound s)
closed-IsSound bound s c h =
    let held =
      held_while_open s.cancelled_listener s.listen_fd (h.cancelling_held c)
        (h.cancelling_open c) in
    let closed = handled-IsSound s c held h in
    let t = close_listener s in
    let forgotten = forget-IsSound t (ground arith) closed in
    if-split IsSound s.stopping t (forget_identity bound t) (λ _. closed)
      (λ going.
        if-either IsSound s.rebind_pending _ _
          (rebind-IsSound bound (record t { listen_identity = none }) refl going forgotten)
          forgotten)

step-IsSound : (e : ListenerEvent) (s : Listener) → IsSound s → IsSound (step e s)
step-IsSound (path_checked still_names bound) s h = check-IsSound still_names bound s h
step-IsSound (accept_ready out still_names bound) s h =
    if-either IsSound _ _ _
      (check-IsSound still_names bound _ (if-either IsSound out _ _ (pause-IsSound s h) h)) h
step-IsSound retry_elapsed s h = ground arith
step-IsSound (source_cancelled bound) s h =
    if-split IsSound s.cancelling _ _ (λ c. closed-IsSound bound s c h) (λ _. h)
step-IsSound torn_down s h =
    if-split IsSound s.accept_source _ _
      (λ a.
        cancel-IsSound (record s { stopping = true }) a (inl refl) (h.source_open a) h.none_closed)
      (λ n. ground arith)

-- Whatever the events, the listening descriptor is closed by the cancel handler of its own source and
-- by nothing else, a source that is suspended is never released, and a listener that is not being
-- torn down either accepts on an open socket whose file it knows, or is bound to bind again.
pub run-IsSound : (fd : ℕ) (events : List ListenerEvent) → IsSound (run events (start fd))
run-IsSound fd events = from_sound events (start fd) (ground arith)
  where
    from_sound : (events : List ListenerEvent) (s : Listener) → IsSound s → IsSound (run events s)
    from_sound [] s h = h
    from_sound (e ∷ events) s h = from_sound events (step e s) (step-IsSound e s h)
