-- ===== src/Transport/Listener.antt =====
-- The listening socket and the guard of its path (agent/src/backend/SocketTransport.cpp). A socket is
-- a number, the file it is bound to has the same number; a suspended or cancelled dispatch source is
-- the flag that says so. What the file system answers comes with each event: whether the path still
-- names a socket's file, and the socket that a bind made, `none` where it failed.
pub mod Invariant
pub mod Recovery
use libre_darwin.Base.{
  ℕ, suc, Option, none, some, List, [], ◌∷◌, Bool, true, false, not, ◌||◌, ◌&&◌, ◌==◌,
  if◌then◌else◌, is_some,
}

-- `m_listenFd`, `m_listenIdentity`, `m_acceptSource` (set or not), `m_acceptPaused`,
-- `m_cancelledListener`, `m_rebindPending`, `m_stopping`, `m_closedListenFdAtCancel`; and whether a
-- cancel handler is still to run.
pub record Listener : Type 0 where
  pub listen_fd : Option ℕ
  pub listen_identity : Option ℕ
  pub accept_source : Bool
  pub accept_paused : Bool
  pub cancelled_listener : Option ℕ
  pub rebind_pending : Bool
  pub stopping : Bool
  pub closed_at_cancel : ℕ
  pub cancelling : Bool

pub data ListenerEvent : Type 0 where
  -- The timer of the path guard.
  path_checked : (still_names : ℕ → Bool) (bound : Option ℕ) → ListenerEvent
  -- The accept source: whether the descriptors ran out, then a look at the path.
  accept_ready :
      (out_of_descriptors : Bool) (still_names : ℕ → Bool) (bound : Option ℕ) → ListenerEvent
  -- The timer of a pause.
  retry_elapsed : ListenerEvent
  -- The cancel handler.
  source_cancelled : (bound : Option ℕ) → ListenerEvent
  -- The teardown.
  torn_down : ListenerEvent

abbrev pub install_accept_source : Listener → Listener
install_accept_source s = record s { accept_source = true }

abbrev pub rebind_listen_socket : Option ℕ → Listener → Listener
rebind_listen_socket none s = s
rebind_listen_socket (some fd) s =
    install_accept_source
      (record s { listen_fd = some fd; listen_identity = some fd; rebind_pending = false })

-- A source that is not paused is resumed by no call; the flag falls either way.
abbrev pub resume_accepting : Listener → Listener
resume_accepting s = record s { accept_paused = false }

abbrev pub pause_accepting : Listener → Listener
pause_accepting s =
    if not s.accept_source || s.accept_paused then s else record s { accept_paused = true }

abbrev pub cancel_accept_source : Listener → Listener
cancel_accept_source s = record (resume_accepting s) {
  cancelled_listener = s.listen_fd;
  accept_source = false;
  cancelling = true;
}

abbrev pub names_path : (ℕ → Bool) → Option ℕ → Bool
names_path still_names none = false
names_path still_names (some identity) = still_names identity

abbrev pub check_socket_path : (ℕ → Bool) → Option ℕ → Listener → Listener
check_socket_path still_names bound s =
    if s.stopping
    then s
    else if s.rebind_pending
    then (if is_some s.listen_fd then s else rebind_listen_socket bound s)
    else if not s.accept_source || names_path still_names s.listen_identity
    then s
    else cancel_accept_source (record s { rebind_pending = true })

-- `m_cancelledListener && m_cancelledListener->stillHeldBy(m_listenFd)`
abbrev pub still_held : Option ℕ → Option ℕ → Bool
still_held none fd = false
still_held (some cancelled) none = false
still_held (some cancelled) (some fd) = cancelled == fd

-- The listen descriptor closes here and nowhere else.
abbrev pub close_listener : Listener → Listener
close_listener s = record s {
  closed_at_cancel =
      if still_held s.cancelled_listener s.listen_fd
      then s.closed_at_cancel
      else suc s.closed_at_cancel;
  cancelled_listener = none;
  listen_fd = none;
  cancelling = false;
}

abbrev pub forget_identity : Option ℕ → Listener → Listener
forget_identity bound s =
    let t = record s { listen_identity = none } in
    if s.rebind_pending then rebind_listen_socket bound t else t

abbrev pub on_accept_source_cancelled : Option ℕ → Listener → Listener
on_accept_source_cancelled bound s =
    if s.stopping then close_listener s else forget_identity bound (close_listener s)

abbrev pub on_accept_ready : Bool → (ℕ → Bool) → Option ℕ → Listener → Listener
on_accept_ready out_of_descriptors still_names bound s =
    check_socket_path still_names bound (if out_of_descriptors then pause_accepting s else s)

-- The accept source's part of the destructor.
abbrev pub tear_down : Listener → Listener
tear_down s =
    let t = record s { stopping = true } in if s.accept_source then cancel_accept_source t else t

-- A source that is cancelled or suspended delivers no event, and each cancellation one handler.
abbrev pub step : ListenerEvent → Listener → Listener
step (path_checked still_names bound) s = check_socket_path still_names bound s
step (accept_ready out_of_descriptors still_names bound) s =
    if s.accept_source && not s.accept_paused
    then on_accept_ready out_of_descriptors still_names bound s
    else s
step retry_elapsed s = resume_accepting s
step (source_cancelled bound) s = if s.cancelling then on_accept_source_cancelled bound s else s
step torn_down s = tear_down s

abbrev pub start : ℕ → Listener
start fd = record {
  listen_fd = some fd;
  listen_identity = some fd;
  accept_source = true;
  accept_paused = false;
  cancelled_listener = none;
  rebind_pending = false;
  stopping = false;
  closed_at_cancel = 0;
  cancelling = false;
}

abbrev pub run : List ListenerEvent → Listener → Listener
run [] s = s
run (e ∷ events) s = run events (step e s)
