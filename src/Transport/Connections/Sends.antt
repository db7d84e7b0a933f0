-- ===== src/Transport/Connections/Sends.antt =====
-- The bounds, over a send (SocketTransport.cpp).
use libre_darwin.Base.{
  ℕ, ◌+◌, ◌<◌, ◌≡◌, ◌≢◌, refl, some, Bool, ◌||◌, arith, ltb, ◌⊎◌, inl, inr, Bool-cases,
  Option-cases, List, [], ◌∷◌, ◌++◌, length,
}
use libre_darwin.Transport.Maps.{lookup, lookup-assign_cases, length-assign_found}
use libre_darwin.Transport.Connections.{
  Frame, SendState, Connection, Transport, max_queued_bytes_per_connection, max_queued_frames,
  total, send_to, send_then_close, set_wants_presence_events, send_each,
}
use libre_darwin.Transport.Connections.Bounds.{
  IsBounded, IsValid, close_connection-IsValid_but, replace_connection, flush_writes-IsValid,
  total-append,
}

pub send_to-IsValid :
    (states : List SendState) (id : ℕ) (framed : Frame) (t : Transport)
    → IsValid t
    → IsValid (send_to states id framed t)
unfolding send_to total
send_to-IsValid states id framed t v = elim (Option-cases (lookup id t.connections)) [
  | inl e ↦ rw (e, send_to) v
  | inr (conn, e) ↦
      let queue = conn.out_queue ++ framed ∷ [] in
      let bytes = conn.queued_bytes + length framed in
      let conn' : Connection = record conn { out_queue = queue; queued_bytes = bytes } in
      let over =
        ltb max_queued_bytes_per_connection bytes || ltb max_queued_frames (length queue) in
      let b = v.bounded id conn e in
      rw (e, send_to)
        (elim (Bool-cases over) [
          | inl f ↦ rw f (
              close_connection-IsValid_but id _
                (λ i c n p. other conn' i c n (lookup-assign_cases i id conn' t.connections p))
                (rw (length-assign_found id conn' t.connections e) v.few))
          | inr f ↦ rw f (
              flush_writes-IsValid states id _ (
                replace_connection id conn conn' t t.written v e (record {
                  counted = omega (arith, total-append conn.out_queue (framed ∷ []), b.counted);
                  bytes = ground arith;
                  frames = ground arith;
                  leaving = b.leaving;
                })))
        ])
]
  where
    other :
        (conn' : Connection) (i : ℕ) (c : Connection)
        → i ≢ id
        → ((i ≡ id) × (conn' ≡ c)) ⊎ ((i ≢ id) × (lookup i t.connections ≡ some c))
        → IsBounded c × (i < t.next_conn_id)
    other conn' i c n (inl (f, _)) = absurd (n f)
    other conn' i c n (inr (_, old)) = (v.bounded i c old, v.fresh i c old)

pub send_each-IsValid :
    (states : ℕ → List SendState) (framed : Frame) (ids : List ℕ) (t : Transport)
    → IsValid t
    → IsValid (send_each states framed ids t)
unfolding send_each
send_each-IsValid states framed [] t v = v
send_each-IsValid states framed (id ∷ ids) t v =
    send_each-IsValid states framed ids _ (send_to-IsValid (states id) id framed t v)

pub send_then_close-IsValid :
    (states : List SendState) (id : ℕ) (framed : Frame) (t : Transport)
    → IsValid t
    → IsValid (send_then_close states id framed t)
unfolding send_then_close
send_then_close-IsValid states id framed t v = elim (Option-cases (lookup id t.connections)) [
  | inl e ↦ rw (e, send_then_close) v
  | inr (conn, e) ↦
      let b = v.bounded id conn e in
      rw (e, send_then_close)
        (send_to-IsValid states id framed _ (
          replace_connection id conn _ t t.written v e (record {
            counted = b.counted;
            bytes = b.bytes;
            frames = b.frames;
            leaving = λ _. refl;
          })))
]

pub set_wants_presence_events-IsValid :
    (id : ℕ) (wants : Bool) (t : Transport)
    → IsValid t
    → IsValid (set_wants_presence_events id wants t)
unfolding set_wants_presence_events
set_wants_presence_events-IsValid id wants t v = elim (Option-cases (lookup id t.connections)) [
  | inl e ↦ rw (e, set_wants_presence_events) v
  | inr (conn, e) ↦
      let b = v.bounded id conn e in
      rw (e, set_wants_presence_events)
        (replace_connection id conn _ t t.written v e
          (record { counted = b.counted; bytes = b.bytes; frames = b.frames; leaving = b.leaving }))
]
