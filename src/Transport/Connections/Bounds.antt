-- ===== src/Transport/Connections/Bounds.antt =====
-- The bounds that every change to the connections keeps (SocketTransport.cpp).
use libre_darwin.Base.{
  ℕ, suc, ◌+◌, ◌-◌, ◌≤◌, ◌<◌, ◌≡◌, ◌≢◌, refl, sym, subst, ◌∙◌, ap, some, Bool, true, false, arith,
  leb, ◌==◌, if-either, inl, inr, Bool-cases, Option-cases, List, [], ◌∷◌, ◌++◌, length,
  length-append,
}
use libre_darwin.Transport.Maps.{
  lookup, erase, assign, lookup-erase, lookup-assign_cases, some_of_unless, length-assign_le,
  length-assign_found, length-erase_le,
}
use libre_darwin.Transport.Connections.{
  Frame, SendState, sent, would_block, error, Connection, Transport, new_connection,
  max_connections, max_queued_bytes_per_connection, max_queued_frames, DrainEnd, drained, blocked,
  failed, drain, total, addressed, after_drain, accept_one, close_connection, flush_writes,
}

-- The queued bytes are counted; their number and the queue's length are within the caps; and a connection
-- on its way out does not read.
pub record IsBounded (conn : Connection) : Type 0 where
  pub counted : conn.queued_bytes ≡ total conn.out_queue
  pub bytes : conn.queued_bytes ≤ max_queued_bytes_per_connection
  pub frames : length conn.out_queue ≤ max_queued_frames
  pub leaving : conn.close_when_drained ≡ true → conn.reading ≡ false

-- Every connection is within its bounds, at most 32 stand, and no id comes twice.
pub record IsValid (t : Transport) : Type 0 where
  pub bounded : (id : ℕ) (conn : Connection) → lookup id t.connections ≡ some conn → IsBounded conn
  pub few : length t.connections ≤ max_connections
  pub fresh :
      (id : ℕ) (conn : Connection) → lookup id t.connections ≡ some conn → id < t.next_conn_id

new_connection-IsBounded : IsBounded new_connection
unfolding total
new_connection-IsBounded = record {
  counted = refl;
  bytes = omega arith;
  frames = omega arith;
  leaving = λ e. cc;
}

accepted :
    (t : Transport)
    → IsValid t
    → length t.connections < max_connections
    → IsValid (record t {
      connections = assign t.next_conn_id new_connection t.connections;
      next_conn_id = suc t.next_conn_id;
    })
accepted t v room =
    let id = t.next_conn_id in
    record {
      bounded = λ i c p. elim (lookup-assign_cases i id new_connection t.connections p) [
        | inl (_, new) ↦ subst IsBounded new new_connection-IsBounded
        | inr (_, old) ↦ v.bounded i c old
      ];
      few = omega (arith, length-assign_le id new_connection t.connections, room);
      fresh = λ i c p. elim (lookup-assign_cases i id new_connection t.connections p) [
        | inl (f, _) ↦ omega arith
        | inr (_, old) ↦ omega (arith, v.fresh i c old)
      ];
    }

pub accept_one-IsValid :
    (identified : Bool) (t : Transport) → IsValid t → IsValid (accept_one identified t)
unfolding accept_one
accept_one-IsValid identified t v = elim (Bool-cases (leb max_connections (length t.connections))) [
  | inl e ↦ rw e v
  | inr e ↦ elim (Bool-cases identified) [
    | inl f ↦ rw (e, f) (accepted t v (ground arith))
    | inr f ↦ rw (e, f) v
  ]
]

-- Closing a connection that is out of its bounds leaves the others within theirs.
pub close_connection-IsValid_but :
    (id : ℕ) (t : Transport)
    → ((i : ℕ) (conn : Connection)
        → i ≢ id
        → lookup i t.connections ≡ some conn
        → IsBounded conn × (i < t.next_conn_id))
    → length t.connections ≤ max_connections
    → IsValid (close_connection id t)
unfolding close_connection
close_connection-IsValid_but id t v few = elim (Option-cases (lookup id t.connections)) [
  | inl e ↦
      rw (e, close_connection)
        (record {
          bounded = λ i c p. (v i c (λ f. cc) p).0;
          few = few;
          fresh = λ i c p. (v i c (λ f. cc) p).1;
        })
  | inr (conn, e) ↦
      rw (e, close_connection)
        (record {
          bounded = λ i c p. (other i c p).0;
          few = omega (arith, length-erase_le id t.connections, few);
          fresh = λ i c p. (other i c p).1;
        })
]
  where
    other :
        (i : ℕ) (c : Connection)
        → lookup i (erase id t.connections) ≡ some c
        → IsBounded c × (i < t.next_conn_id)
    other i c p =
        let (n, old) = some_of_unless (i == id) _ (sym (lookup-erase i id t.connections) ∙ p) in
        v i c (ground arith) old

pub close_connection-IsValid :
    (id : ℕ) (t : Transport) → IsValid t → IsValid (close_connection id t)
close_connection-IsValid id t v =
    close_connection-IsValid_but id t (λ i c _ p. (v.bounded i c p, v.fresh i c p)) v.few

-- A connection that stands is changed within its bounds.
pub replace_connection :
    (id : ℕ) (conn conn' : Connection) (t : Transport) (written : List (ℕ × Frame))
    → IsValid t
    → lookup id t.connections ≡ some conn
    → IsBounded conn'
    → IsValid (record t { connections = assign id conn' t.connections; written = written })
replace_connection id conn conn' t written v e b = record {
  bounded = λ i c p. elim (lookup-assign_cases i id conn' t.connections p) [
    | inl (_, new) ↦ subst IsBounded new b
    | inr (_, old) ↦ v.bounded i c old
  ];
  few = rw (length-assign_found id conn' t.connections e) v.few;
  fresh = λ i c p. elim (lookup-assign_cases i id conn' t.connections p) [
    | inl (f, _) ↦ rw f (v.fresh id conn e)
    | inr (_, old) ↦ v.fresh i c old
  ];
}

pub drain-splits :
    (states : List SendState) (q : List Frame) → (drain states q).gone ++ (drain states q).rest ≡ q
unfolding drain
drain-splits _ [] = refl
drain-splits [] (f ∷ q) = refl
drain-splits (would_block ∷ _) (f ∷ q) = refl
drain-splits (error ∷ _) (f ∷ q) = refl
drain-splits (sent ∷ states) (f ∷ q) = ap (λ r. f ∷ r) (drain-splits states q)

pub total-append : (p q : List Frame) → total (p ++ q) ≡ total p + total q
unfolding total
total-append [] q = omega arith
total-append (f ∷ p) q = omega (arith, total-append p q)

-- The connection after the loop of `flushWrites`.
drained-IsBounded :
    (states : List SendState) (conn : Connection) (waiting : Bool)
    → IsBounded conn
    → let d = drain states conn.out_queue in
      IsBounded (record conn {
        out_queue = d.rest;
        queued_bytes = conn.queued_bytes - total d.gone;
        write_waiting = waiting;
      })
drained-IsBounded states conn waiting b =
    let d = drain states conn.out_queue in
    let split = drain-splits states conn.out_queue in
    let sum = sym (total-append d.gone d.rest) ∙ ap total split in
    let len = sym (length-append d.gone d.rest) ∙ ap (λ q. length q) split in
    record {
      counted = omega (arith, sum, b.counted);
      bytes = omega (arith, b.bytes);
      frames = omega (arith, len, b.frames);
      leaving = b.leaving;
    }

after_drain-IsValid :
    (id : ℕ) (conn : Connection) (gone rest : List Frame) (how : DrainEnd) (t : Transport)
    → IsValid t
    → lookup id t.connections ≡ some conn
    → ((waiting : Bool)
        → IsBounded (record conn {
          out_queue = rest;
          queued_bytes = conn.queued_bytes - total gone;
          write_waiting = waiting;
        }))
    → IsValid (after_drain id conn (record { gone = gone; rest = rest; how = how }) t)
unfolding after_drain
after_drain-IsValid id conn gone rest blocked t v e b =
    replace_connection id conn _ t _ v e (b true)
after_drain-IsValid id conn gone rest failed t v e b =
    close_connection-IsValid id _ (replace_connection id conn _ t _ v e (b conn.write_waiting))
after_drain-IsValid id conn gone rest drained t v e b =
    let kept = replace_connection id conn _ t (t.written ++ addressed id gone) v e (b false) in
    if-either IsValid conn.close_when_drained _ _ (close_connection-IsValid id _ kept) kept

pub flush_writes-IsValid :
    (states : List SendState) (id : ℕ) (t : Transport)
    → IsValid t
    → IsValid (flush_writes states id t)
unfolding flush_writes
flush_writes-IsValid states id t v = elim (Option-cases (lookup id t.connections)) [
  | inl e ↦ rw (e, flush_writes) v
  | inr (conn, e) ↦
      let d = drain states conn.out_queue in
      rw (e, flush_writes)
        (after_drain-IsValid id conn d.gone d.rest d.how t v e
          (λ waiting. drained-IsBounded states conn waiting (v.bounded id conn e)))
]
