-- ===== src/Transport/Connections.antt =====
-- The clients' connections of SocketTransport.cpp: accepting, queueing, sending and closing. What the
-- socket does with each send is an argument, one `SendState` for each call of `trySendFrame`; with
-- none left it would block. Frames are their bytes.
pub mod Bounds
pub mod Sends
pub mod Reads
pub mod Order
use libre_darwin.Base.{
  ℕ, suc, ◌+◌, ◌-◌, ◌*◌, ltb, leb, ◌==◌, Option, none, some, List, [], ◌∷◌, ◌++◌, Bool, true, false,
  not, ◌&&◌, ◌||◌, if◌then◌else◌, length,
}
use libre_darwin.Transport.Maps.{NumberMap, lookup, erase, assign}

abbrev pub max_connections : ℕ
max_connections = 32

abbrev pub max_queued_bytes_per_connection : ℕ
max_queued_bytes_per_connection = 4 * 1024 * 1024

abbrev pub max_queued_frames : ℕ
max_queued_frames = 4096

abbrev pub Frame : Type 0
Frame = List ℕ

pub data SendState : Type 0 where
  sent would_block error : SendState

-- A connection, under its id. `reading` and `write_waiting` are whether its read and write sources are
-- live.
pub record Connection : Type 0 where
  pub reading : Bool
  pub write_waiting : Bool
  pub saw_first_frame : Bool
  pub out_queue : List Frame
  pub queued_bytes : ℕ
  pub close_when_drained : Bool
  pub wants_presence_events : Bool

-- `written` is what went out, in order, and `disconnected` the callers that the disconnect handlers were
-- told of.
pub record Transport : Type 0 where
  pub connections : NumberMap Connection
  pub next_conn_id : ℕ
  pub written : List (ℕ × Frame)
  pub disconnected : List ℕ

abbrev pub new_connection : Connection
new_connection = record {
  reading = true;
  write_waiting = false;
  saw_first_frame = false;
  out_queue = [];
  queued_bytes = 0;
  close_when_drained = false;
  wants_presence_events = true;
}

-- `acceptOne`; the argument is whether the peer's credentials could be captured.
pub accept_one : Bool → Transport → Transport
accept_one identified t =
    if leb max_connections (length t.connections)
    then t
    else if not identified
    then t
    else record t {
      connections = assign t.next_conn_id new_connection t.connections;
      next_conn_id = suc t.next_conn_id;
    }

pub close_connection : ℕ → Transport → Transport
close_connection id t = elim (lookup id t.connections) [
  | none ↦ t
  | some _ ↦ record t {
    connections = erase id t.connections;
    disconnected = t.disconnected ++ id ∷ [];
  }
]

pub on_first_frame_timeout : ℕ → Transport → Transport
unfolding close_connection
on_first_frame_timeout id t = elim (lookup id t.connections) [
  | none ↦ t
  | some conn ↦ if conn.saw_first_frame then t else close_connection id t
]

pub no_connections : Transport
no_connections = record { connections = []; next_conn_id = 1; written = []; disconnected = [] }

-- How the loop of `flushWrites` ends: drained, waiting for the socket, or on a failed send.
pub data DrainEnd : Type 0 where
  drained blocked failed : DrainEnd

pub record Drain : Type 0 where
  pub gone : List Frame
  pub rest : List Frame
  pub how : DrainEnd

pub drain : List SendState → List Frame → Drain
drain _ [] = record { gone = []; rest = []; how = drained }
drain [] (f ∷ q) = record { gone = []; rest = f ∷ q; how = blocked }
drain (would_block ∷ _) (f ∷ q) = record { gone = []; rest = f ∷ q; how = blocked }
drain (error ∷ _) (f ∷ q) = record { gone = []; rest = f ∷ q; how = failed }
drain (sent ∷ states) (f ∷ q) = let d = drain states q in record d { gone = f ∷ d.gone }

pub total : List Frame → ℕ
total [] = 0
total (f ∷ q) = length f + total q

pub addressed : ℕ → List Frame → List (ℕ × Frame)
addressed id [] = []
addressed id (f ∷ q) = (id, f) ∷ addressed id q

-- The rest of `flushWrites`, after its loop.
pub after_drain : ℕ → Connection → Drain → Transport → Transport
unfolding close_connection total addressed
after_drain id conn d t =
    let conn' = record conn {
      out_queue = d.rest;
      queued_bytes = conn.queued_bytes - total d.gone;
      write_waiting = elim d.how [ drained ↦ false | blocked ↦ true | failed ↦ conn.write_waiting ];
    } in
    let t' = record t {
      connections = assign id conn' t.connections;
      written = t.written ++ addressed id d.gone;
    } in
    elim d.how [
      | blocked ↦ t'
      | failed ↦ close_connection id t'
      | drained ↦ if conn.close_when_drained then close_connection id t' else t'
    ]

pub flush_writes : List SendState → ℕ → Transport → Transport
unfolding drain after_drain
flush_writes states id t = elim (lookup id t.connections) [
  | none ↦ t
  | some conn ↦ after_drain id conn (drain states conn.out_queue) t
]

-- `sendTo` with its `enqueueSend`.
pub send_to : List SendState → ℕ → Frame → Transport → Transport
unfolding flush_writes
send_to states id framed t = elim (lookup id t.connections) [
  | none ↦ t
  | some conn ↦
      let queue = conn.out_queue ++ framed ∷ [] in
      let bytes = conn.queued_bytes + length framed in
      let t' = record t {
        connections =
            assign id (record conn { out_queue = queue; queued_bytes = bytes }) t.connections;
      } in
      if ltb max_queued_bytes_per_connection bytes || ltb max_queued_frames (length queue)
      then close_connection id t'
      else flush_writes states id t'
]

pub send_then_close : List SendState → ℕ → Frame → Transport → Transport
unfolding send_to
send_then_close states id framed t = elim (lookup id t.connections) [
  | none ↦ t
  | some conn ↦ send_to states id framed (record t {
    connections =
        assign id (record conn { reading = false; close_when_drained = true }) t.connections;
  })
]

pub set_wants_presence_events : ℕ → Bool → Transport → Transport
set_wants_presence_events id wants t = elim (lookup id t.connections) [
  | none ↦ t
  | some conn ↦ record t {
    connections = assign id (record conn { wants_presence_events = wants }) t.connections;
  }
]

-- The connections that an event goes to; `agent_wide` is `kind == EventKind::AgentWide`.
pub recipients : Bool → NumberMap Connection → List ℕ
recipients agent_wide [] = []
recipients agent_wide ((id, conn) ∷ conns) =
    let rest = recipients agent_wide conns in
    if not conn.close_when_drained && (agent_wide || conn.wants_presence_events)
    then id ∷ rest
    else rest

-- The send to each recipient that is still there; `states` gives the socket's answers for each.
pub send_each : (ℕ → List SendState) → Frame → List ℕ → Transport → Transport
unfolding send_to
send_each states framed [] t = t
send_each states framed (id ∷ ids) t = send_each states framed ids (send_to (states id) id framed t)

pub broadcast : (ℕ → List SendState) → Frame → Bool → Transport → Transport
unfolding recipients send_each
broadcast states framed agent_wide t =
    send_each states framed (recipients agent_wide t.connections) t
