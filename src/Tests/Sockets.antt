-- ===== src/Tests/Sockets.antt =====
-- The transport at concrete values.
use libre_darwin.Base.{ℕ, ◌≡◌, ◌⊎◌, refl, arith, none, some, List, [], ◌∷◌, ◌++◌, true, false}
use libre_darwin.Transport.Maps.{lookup}
use libre_darwin.Transport.Presence.{
  CoreReader, CoreCard, PropertyDelta, ReaderState, CardRouting, Registry, withdraw, roster_names,
  roster_keys, card_key_in,
}
use libre_darwin.Transport.Presence.Inverse.{AreInverse}
use libre_darwin.Transport.Presence.Invariant.{IsValid, NoReader}
use libre_darwin.Transport.Presence.Cards.{withdraw-forgets}
use libre_darwin.Transport.Presence.Updates.{card_routing, reader_card}
use libre_darwin.Transport.Presence.Roster.{reader_card-key}
use libre_darwin.Transport.Presence.History.{
  PresenceChange, card_published, withdrawn, relabelled, properties_changed, card_type_resolved,
  run_changes, run_changes-IsValid,
}
use libre_darwin.Transport.Connections.{
  SendState, sent, would_block, new_connection, no_connections, Transport, send_to,
}
use libre_darwin.Transport.Connections.Bounds
use libre_darwin.Transport.Connections.Reads.{
  Event, accept, readable, reply, final_reply, event, run, run_connections-IsValid,
}
use libre_darwin.Transport.Connections.Order.{stream, send_to-stream}

abbrev reader : CoreReader
reader = record {
  id = 10;
  name = "Reader 0";
  has_card = true;
  card = some 20;
  model = "Reader";
  iface = 1;
}

abbrev card : CoreCard
card = record {
  id = 20;
  reader = 10;
  capabilities = 3;
  pre_read_auth = 0;
  card_type = "eID";
  atr_hex = "3B";
}

-- A published reader with a published card in it.
abbrev published : Registry
published = record {
  handles = record {
    id_to_handle = (10, 1) ∷ (20, 2) ∷ [];
    handle_to_id = (1, 10) ∷ (2, 20) ∷ [];
    next_handle = 3;
  };
  readers =
      (1, record { name = "Reader 0"; has_card = true; card = some 2; model = "Reader"; iface = 1 })
      ∷ [];
  cards =
      (2, record { reader = 1; caps = 3; pre_auth = 0; card_type = some "eID"; atr = some "3B" })
      ∷ [];
  card_routing =
      (
        2,
        record {
          card_id = 20;
          reader_id = 10;
          reader_name = "Reader 0";
          card_key = 20;
          caps = 3;
          pre_auth = 0;
        },
      )
      ∷ [];
  roster = record { reader_names = "Reader 0" ∷ []; card_keys = some 20 ∷ [] };
}

published-AreInverse : AreInverse published.handles
unfolding lookup
published-AreInverse = record {
  forth = λ i h p. ground arith;
  back = λ i h p. ground arith;
  fresh = λ i h p. ground arith;
}

published-IsValid : IsValid published
unfolding lookup roster_names roster_keys card_key_in
published-IsValid = record {
  inverse = published-AreInverse;
  reader_known = λ h r p. (10, ground arith);
  apart = λ h r p. ground arith;
  routed = λ h. ground arith;
  routing_id = λ h r p. (ground arith, ground arith);
  names = refl;
  keys = refl;
}

abbrev two_states : ℕ → List SendState
two_states _ = sent ∷ would_block ∷ []

abbrev busy_day : List ((ℕ → List SendState) × Event)
busy_day =
    (two_states, accept true)
    ∷ (two_states, readable 1 (some (reply 1 (7 ∷ []) ∷ final_reply 1 (8 ∷ []) ∷ []) ∷ []) true)
    ∷ (two_states, event true (9 ∷ []))
    ∷ []

run_connections-IsValid_example : Bounds.IsValid (run busy_day no_connections)
run_connections-IsValid_example = run_connections-IsValid busy_day

abbrev one_client : Transport
one_client = record {
  connections = (1, new_connection) ∷ [];
  next_conn_id = 2;
  written = [];
  disconnected = [];
}

one_client-found : lookup 1 one_client.connections ≡ some new_connection
unfolding lookup
one_client-found = refl

send_to-stream_example :
    (lookup 1 (send_to (sent ∷ []) 1 (7 ∷ []) one_client).connections ≡ none)
    ⊎ (stream 1 (send_to (sent ∷ []) 1 (7 ∷ []) one_client) ≡ stream 1 one_client ++ (7 ∷ []) ∷ [])
send_to-stream_example =
    send_to-stream (sent ∷ []) 1 (7 ∷ []) one_client new_connection one_client-found

abbrev second_card : CoreCard
second_card = record card { id = 30 }

no_reader : NoReader second_card.id published
unfolding lookup
no_reader = λ h p. ground arith

card_handle : lookup 20 published.handles.id_to_handle ≡ some 2
unfolding lookup
card_handle = refl

withdraw-forgets_example :
    let t = (withdraw 20 published).0 in
    (lookup 2 t.readers ≡ none)
    × (lookup 2 t.cards ≡ none)
    × (lookup 2 t.card_routing ≡ none)
    × (lookup 2 t.handles.handle_to_id ≡ none)
    × (lookup 20 t.handles.id_to_handle ≡ none)
withdraw-forgets_example = withdraw-forgets 20 2 published published-IsValid card_handle

abbrev removed : PropertyDelta
removed = record { has_card = false; card = none }

abbrev day : List PresenceChange
day =
    card_published second_card
    ∷ withdrawn 20
    ∷ properties_changed 10 removed
    ∷ relabelled (record reader { model = "Other" })
    ∷ card_type_resolved 3 "passport"
    ∷ []

run_changes-IsValid_example : IsValid (run_changes day published)
run_changes-IsValid_example =
    run_changes-IsValid day published published-IsValid (no_reader, (tt, (tt, (tt, (tt, tt)))))

abbrev published_reader : ReaderState
published_reader = record {
  name = "Reader 0";
  has_card = true;
  card = some 2;
  model = "Reader";
  iface = 1;
}

abbrev published_routing : CardRouting
published_routing = record {
  card_id = 20;
  reader_id = 10;
  reader_name = "Reader 0";
  card_key = 20;
  caps = 3;
  pre_auth = 0;
}

reader_found : lookup 1 published.readers ≡ some published_reader
unfolding lookup
reader_found = refl

routing_found : card_routing 2 published ≡ some published_routing
unfolding lookup card_routing
routing_found = refl

reader_card-key_example :
    (id : ℕ) × (reader_card 1 published
      ≡ some (record { reader_id = id; reader_name = "Reader 0"; card_key = some 20 }))
reader_card-key_example =
    reader_card-key published 1 2 published_reader published_routing published-IsValid reader_found
      refl routing_found
