-- ===== src/Transport/Connections/Order.antt =====
-- What a client reads is what was sent to it, in order (SocketTransport.cpp).
use libre_darwin.Base.{
  ℕ, ◌+◌, ◌≡◌, refl, sym, subst, ◌∙◌, ap, Option, none, some, arith, ◌==◌, if◌then◌else◌, if-either,
  ◌⊎◌, inl, inr, Option-cases, List, [], ◌∷◌, ◌++◌, length,
}
use mathlib.Core.List.{append_assoc}
use libre_darwin.Transport.Maps.{lookup, assign, lookup-assign, lookup-erase}
use libre_darwin.Transport.Connections.{
  Frame, SendState, Connection, Transport, DrainEnd, drained, blocked, failed, drain, addressed,
  after_drain, close_connection, flush_writes, send_to,
}
use libre_darwin.Transport.Connections.Bounds.{drain-splits}

-- The frames written to one connection.
pub written_to : ℕ → List (ℕ × Frame) → List Frame
written_to id [] = []
written_to id ((i, f) ∷ fs) = let rest = written_to id fs in if i == id then f ∷ rest else rest

pub waiting : Option Connection → List Frame
waiting none = []
waiting (some conn) = conn.out_queue

-- What the client has or will have read: the frames written, then those queued.
pub stream : ℕ → Transport → List Frame
unfolding written_to waiting
stream id t = written_to id t.written ++ waiting (lookup id t.connections)

written_to-append :
    (id : ℕ) (p q : List (ℕ × Frame)) → written_to id (p ++ q) ≡ written_to id p ++ written_to id q
unfolding written_to
written_to-append id [] q = refl
written_to-append id ((i, f) ∷ p) q = ground (arith, written_to-append id p q)

written_to-addressed : (id : ℕ) (q : List Frame) → written_to id (addressed id q) ≡ q
unfolding written_to addressed
written_to-addressed id [] = refl
written_to-addressed id (f ∷ q) = ground (arith, written_to-addressed id q)

closed : (id : ℕ) (t : Transport) → lookup id (close_connection id t).connections ≡ none
unfolding close_connection
closed id t = elim (Option-cases (lookup id t.connections)) [
  | inl e ↦ rw (e, close_connection) e
  | inr (conn, e) ↦ rw (e, close_connection) (ground (arith, lookup-erase id id t.connections))
]

-- Nothing is lost or reordered by the loop of `flushWrites`.
moved :
    (id : ℕ) (conn : Connection) (gone : List Frame) (t : Transport) {q : List Frame}
    → gone ++ conn.out_queue ≡ q
    → stream id (record t {
      connections = assign id conn t.connections;
      written = t.written ++ addressed id gone;
    })
      ≡ written_to id t.written ++ q
unfolding stream waiting
moved id conn gone t h =
    let found : lookup id (assign id conn t.connections) ≡ some conn =
      ground (arith, lookup-assign id id conn t.connections) in
    rw (found, written_to-append id t.written (addressed id gone), written_to-addressed id gone)
      (append_assoc (written_to id t.written) gone conn.out_queue
        ∙ ap (λ r. written_to id t.written ++ r) h)

behind :
    (id : ℕ) (framed : Frame) (t : Transport) (conn : Connection)
    → lookup id t.connections ≡ some conn
    → written_to id t.written ++ (conn.out_queue ++ framed ∷ []) ≡ stream id t ++ framed ∷ []
unfolding stream waiting
behind id framed t conn e =
    rw e (sym (append_assoc (written_to id t.written) conn.out_queue (framed ∷ [])))

-- The connection is closed, or its stream is the given one.
abbrev pub ClosedOrStream : ℕ → List Frame → Transport → Type 0
ClosedOrStream id q t = (lookup id t.connections ≡ none) ⊎ (stream id t ≡ q)

after_drain-stream :
    (id : ℕ) (conn : Connection) (gone rest : List Frame) (how : DrainEnd) (t : Transport)
    {q : List Frame}
    → gone ++ rest ≡ q
    → ClosedOrStream id
        (written_to id t.written ++ q)
        (after_drain id conn (record { gone = gone; rest = rest; how = how }) t)
unfolding after_drain
after_drain-stream id conn gone rest blocked t h = inr (moved id _ gone t h)
after_drain-stream id conn gone rest failed t h = inl (closed id _)
after_drain-stream id conn gone rest drained t {q} h =
    if-either (ClosedOrStream id (written_to id t.written ++ q)) conn.close_when_drained _ _
      (inl (closed id _)) (inr (moved id _ gone t h))

flush_writes-stream :
    (states : List SendState) (id : ℕ) (t : Transport) (conn : Connection)
    → lookup id t.connections ≡ some conn
    → ClosedOrStream id (written_to id t.written ++ conn.out_queue) (flush_writes states id t)
unfolding flush_writes
flush_writes-stream states id t conn e =
    let d = drain states conn.out_queue in
    rw (e, flush_writes)
      (after_drain-stream id conn d.gone d.rest d.how t (drain-splits states conn.out_queue))

-- A frame sent to a connection that stands goes behind what was written and queued there before, and
-- nothing of that is lost, repeated or reordered; or the connection is closed by the send.
pub send_to-stream :
    (states : List SendState) (id : ℕ) (framed : Frame) (t : Transport) (conn : Connection)
    → lookup id t.connections ≡ some conn
    → (lookup id (send_to states id framed t).connections ≡ none)
      ⊎ (stream id (send_to states id framed t) ≡ stream id t ++ framed ∷ [])
unfolding send_to
send_to-stream states id framed t conn e =
    let queue = conn.out_queue ++ framed ∷ [] in
    let bytes = conn.queued_bytes + length framed in
    let conn' : Connection = record conn { out_queue = queue; queued_bytes = bytes } in
    let t0 : Transport = record t { connections = assign id conn' t.connections } in
    let found : lookup id t0.connections ≡ some conn' =
      ground (arith, lookup-assign id id conn' t.connections) in
    rw (e, send_to)
      (if-either (ClosedOrStream id (stream id t ++ framed ∷ [])) _ _ _ (inl (closed id t0)) (
        subst (λ q. ClosedOrStream id q (flush_writes states id t0)) (behind id framed t conn e)
          (flush_writes-stream states id t0 conn' found)))
