-- ===== src/Transport/Connections/Reads.antt =====
-- Reading, and the bounds over any sequence of events (SocketTransport.cpp).
use libre_darwin.Base.{
  ℕ, Option, none, some, Bool, true, false, arith, if◌then◌else◌, if-either, inl, inr, Option-cases,
  List, [], ◌∷◌,
}
use libre_darwin.Transport.Maps.{lookup, assign}
use libre_darwin.Transport.Connections.{
  Frame, SendState, Transport, accept_one, close_connection, on_first_frame_timeout, flush_writes,
  send_to, send_then_close, set_wants_presence_events, broadcast, recipients, no_connections,
}
use libre_darwin.Transport.Connections.Bounds.{
  IsValid, accept_one-IsValid, close_connection-IsValid, replace_connection, flush_writes-IsValid,
}
use libre_darwin.Transport.Connections.Sends.{
  send_to-IsValid, send_each-IsValid, send_then_close-IsValid, set_wants_presence_events-IsValid,
}

-- What the request sink does to the connections while it handles a request.
pub data Response : Type 0 where
  reply final_reply : ℕ → Frame → Response
  wants_events : ℕ → Bool → Response

pub respond : (ℕ → List SendState) → List Response → Transport → Transport
respond states [] t = t
respond states (reply id framed ∷ rs) t = respond states rs (send_to (states id) id framed t)
respond states (final_reply id framed ∷ rs) t =
    respond states rs (send_then_close (states id) id framed t)
respond states (wants_events id wants ∷ rs) t =
    respond states rs (set_wants_presence_events id wants t)

-- The frames that `pump` read: `none` for one that `parseRequest` refuses, else what the sink does with
-- the request; and whether the pump's status was Ok.
pub on_frames :
    (ℕ → List SendState) → ℕ → List (Option (List Response)) → Bool → Transport → Transport
unfolding respond
on_frames states id [] true t = t
on_frames states id [] false t = close_connection id t
on_frames states id (none ∷ _) ok t = close_connection id t
on_frames states id (some rs ∷ frames) ok t = elim (lookup id t.connections) [
  | none ↦ t
  | some conn ↦
      let rest = on_frames states id frames ok (respond states rs t) in
      if conn.close_when_drained then t else rest
]

-- Any frame at all ends the wait for the first one.
pub first_frame : List (Option (List Response)) → Bool → Bool
first_frame [] saw = saw
first_frame (_ ∷ _) saw = true

pub on_read_ready :
    (ℕ → List SendState) → ℕ → List (Option (List Response)) → Bool → Transport → Transport
unfolding on_frames first_frame
on_read_ready states id frames ok t = elim (lookup id t.connections) [
  | none ↦ t
  | some conn ↦ on_frames states id frames ok (record t {
    connections =
        assign id (record conn { saw_first_frame = first_frame frames conn.saw_first_frame })
          t.connections;
  })
]

-- What happens to the transport, one constructor for each entry point.
pub data Event : Type 0 where
  accept : Bool → Event
  first_frame_timeout write_ready : ℕ → Event
  readable : ℕ → List (Option (List Response)) → Bool → Event
  send last_send : ℕ → Frame → Event
  hello : ℕ → Bool → Event
  event : Bool → Frame → Event

-- Handling one event; the socket's answers to the sends, by connection, come with it.
pub handle : (ℕ → List SendState) → Event → Transport → Transport
unfolding on_read_ready
handle states (accept identified) t = accept_one identified t
handle states (first_frame_timeout id) t = on_first_frame_timeout id t
handle states (readable id frames ok) t = on_read_ready states id frames ok t
handle states (write_ready id) t = flush_writes (states id) id t
handle states (send id framed) t = send_to (states id) id framed t
handle states (last_send id framed) t = send_then_close (states id) id framed t
handle states (hello id wants) t = set_wants_presence_events id wants t
handle states (event agent_wide framed) t = broadcast states framed agent_wide t

pub run : List ((ℕ → List SendState) × Event) → Transport → Transport
unfolding handle
run [] t = t
run ((states, e) ∷ es) t = run es (handle states e t)

respond-IsValid :
    (states : ℕ → List SendState) (rs : List Response) (t : Transport)
    → IsValid t
    → IsValid (respond states rs t)
unfolding respond
respond-IsValid states [] t v = v
respond-IsValid states (reply id framed ∷ rs) t v =
    respond-IsValid states rs _ (send_to-IsValid (states id) id framed t v)
respond-IsValid states (final_reply id framed ∷ rs) t v =
    respond-IsValid states rs _ (send_then_close-IsValid (states id) id framed t v)
respond-IsValid states (wants_events id wants ∷ rs) t v =
    respond-IsValid states rs _ (set_wants_presence_events-IsValid id wants t v)

on_frames-IsValid :
    (states : ℕ → List SendState) (id : ℕ) (frames : List (Option (List Response))) (ok : Bool)
    (t : Transport)
    → IsValid t
    → IsValid (on_frames states id frames ok t)
unfolding on_frames
on_frames-IsValid states id [] true t v = v
on_frames-IsValid states id [] false t v = close_connection-IsValid id t v
on_frames-IsValid states id (none ∷ _) ok t v = close_connection-IsValid id t v
on_frames-IsValid states id (some rs ∷ frames) ok t v =
    elim (Option-cases (lookup id t.connections)) [
      | inl e ↦ rw (e, on_frames) v
      | inr (conn, e) ↦
          rw (e, on_frames)
            (if-either IsValid conn.close_when_drained _ _ v
              (on_frames-IsValid states id frames ok _ (respond-IsValid states rs t v)))
    ]

on_read_ready-IsValid :
    (states : ℕ → List SendState) (id : ℕ) (frames : List (Option (List Response))) (ok : Bool)
    (t : Transport)
    → IsValid t
    → IsValid (on_read_ready states id frames ok t)
unfolding on_read_ready
on_read_ready-IsValid states id frames ok t v = elim (Option-cases (lookup id t.connections)) [
  | inl e ↦ rw (e, on_read_ready) v
  | inr (conn, e) ↦
      let b = v.bounded id conn e in
      rw (e, on_read_ready)
        (on_frames-IsValid states id frames ok _ (
          replace_connection id conn _ t t.written v e (record {
            counted = b.counted;
            bytes = b.bytes;
            frames = b.frames;
            leaving = b.leaving;
          })))
]

-- One event keeps the transport within its bounds.
handle-IsValid :
    (states : ℕ → List SendState) (e : Event) (t : Transport)
    → IsValid t
    → IsValid (handle states e t)
unfolding handle on_first_frame_timeout broadcast
handle-IsValid states (accept identified) t v = accept_one-IsValid identified t v
handle-IsValid states (first_frame_timeout id) t v = elim (Option-cases (lookup id t.connections)) [
  | inl e ↦ rw (e, on_first_frame_timeout) v
  | inr (conn, e) ↦
      rw (e, on_first_frame_timeout)
        (if-either IsValid conn.saw_first_frame _ _ v (close_connection-IsValid id t v))
]
handle-IsValid states (readable id frames ok) t v = on_read_ready-IsValid states id frames ok t v
handle-IsValid states (write_ready id) t v = flush_writes-IsValid (states id) id t v
handle-IsValid states (send id framed) t v = send_to-IsValid (states id) id framed t v
handle-IsValid states (last_send id framed) t v = send_then_close-IsValid (states id) id framed t v
handle-IsValid states (hello id wants) t v = set_wants_presence_events-IsValid id wants t v
handle-IsValid states (event agent_wide framed) t v =
    send_each-IsValid states framed (recipients agent_wide t.connections) t v

-- From the start, through any events and whatever the sockets answer: there are at most 32 connections;
-- each one's queued bytes are counted exactly and stay within 4 MiB and 4096 frames; and a connection
-- that closes once drained is no longer read.
pub run_connections-IsValid :
    (es : List ((ℕ → List SendState) × Event)) → IsValid (run es no_connections)
unfolding run no_connections lookup
run_connections-IsValid es =
    runs es no_connections
      (record { bounded = λ i c p. cc; few = omega arith; fresh = λ i c p. cc })
  where
    runs :
        (es : List ((ℕ → List SendState) × Event)) (t : Transport) → IsValid t → IsValid (run es t)
    runs [] t v = v
    runs ((states, e) ∷ es) t v = runs es _ (handle-IsValid states e t v)
