-- ===== src/Transport/Presence.antt =====
-- The published presence of SocketTransport.cpp: the handle maps, the published readers and cards, and
-- the roster. A handle is the text `obj/{n}`, kept as its `n`; a client's text of another form names
-- nothing. A card key is `std::to_string` of the card's id, kept as the id, with `none` for the empty
-- key. What the agent library hands over carries an invalid card id as `none`;
-- its enumerations are numbers.
pub mod Inverse
pub mod Updates
pub mod Invariant
pub mod Cards
pub mod Roster
pub mod History
use libre_darwin.Base.{
  ℕ, suc, String, Option, none, some, List, [], ◌∷◌, Bool, true, false, ◌&&◌, ◌==◌, str_eq,
  if◌then◌else◌, is_some,
}
use libre_darwin.Transport.Maps.{NumberMap, lookup, erase, assign}

-- `Agent::ReaderState`, `Agent::CardState` and `Agent::PropertyDelta`.
pub record CoreReader : Type 0 where
  pub id : ℕ
  pub name : String
  pub has_card : Bool
  pub card : Option ℕ
  pub model : String
  pub iface : ℕ

pub record CoreCard : Type 0 where
  pub id : ℕ
  pub reader : ℕ
  pub capabilities : ℕ
  pub pre_read_auth : ℕ
  pub card_type : String
  pub atr_hex : String

pub record PropertyDelta : Type 0 where
  pub has_card : Bool
  pub card : Option ℕ

-- `Agent::Wire::ReaderState` and `Agent::Wire::CardState`; their handles are the keys they stand under.
pub record ReaderState : Type 0 where
  pub name : String
  pub has_card : Bool
  pub card : Option ℕ
  pub model : String
  pub iface : ℕ

pub record CardState : Type 0 where
  pub reader : ℕ
  pub caps : ℕ
  pub pre_auth : ℕ
  pub card_type : Option String
  pub atr : Option String

pub record CardRouting : Type 0 where
  pub card_id : ℕ
  pub reader_id : ℕ
  pub reader_name : String
  pub card_key : ℕ
  pub caps : ℕ
  pub pre_auth : ℕ

-- `Agent::PresenceRoster`: its two lists are aligned by index.
pub record PresenceRoster : Type 0 where
  pub reader_names : List String
  pub card_keys : List (Option ℕ)

pub record ReaderCardInfo : Type 0 where
  pub reader_id : ℕ
  pub reader_name : String
  pub card_key : Option ℕ

-- `m_idToHandle`, `m_handleToId`, `m_nextHandle`.
pub record Handles : Type 0 where
  pub id_to_handle : NumberMap ℕ
  pub handle_to_id : NumberMap ℕ
  pub next_handle : ℕ

-- And `m_readers`, `m_cards`, `m_cardRouting`, `m_roster`.
pub record Registry : Type 0 where
  pub handles : Handles
  pub readers : NumberMap ReaderState
  pub cards : NumberMap CardState
  pub card_routing : NumberMap CardRouting
  pub roster : PresenceRoster

-- What is broadcast, each to the subscribers of presence events.
pub data PresenceEvent : Type 0 where
  reader_added : ℕ → ReaderState → PresenceEvent
  reader_relabelled : ℕ → String → ℕ → PresenceEvent
  card_added : ℕ → CardState → PresenceEvent
  reader_removed card_removed : ℕ → PresenceEvent
  slot_changed : ℕ → Bool → Option ℕ → PresenceEvent
  card_type_changed : ℕ → String → PresenceEvent

pub handle_for : ℕ → Handles → ℕ × Handles
handle_for id s = elim (lookup id s.id_to_handle) [
  | some handle ↦ (handle, s)
  | none ↦ (
    s.next_handle,
    record s {
      next_handle = suc s.next_handle;
      id_to_handle = assign id s.next_handle s.id_to_handle;
      handle_to_id = assign s.next_handle id s.handle_to_id;
    },
  )
]

-- `handleFor` of a card id, if it is valid.
pub handle_for_valid : Option ℕ → Handles → Option ℕ × Handles
unfolding handle_for
handle_for_valid none s = (none, s)
handle_for_valid (some id) s = let (handle, t) = handle_for id s in (some handle, t)

-- The card of the first card object that names the reader.
unfoldable pub card_key_in : ℕ → NumberMap CardRouting → NumberMap CardState → Option ℕ
card_key_in reader routings [] = none
card_key_in reader routings ((handle, card) ∷ cards) =
    let rest = card_key_in reader routings cards in
    if card.reader == reader
    then elim (lookup handle routings) [ some routing ↦ some routing.card_key | none ↦ none ]
    else rest

unfoldable pub roster_names : NumberMap ReaderState → List String
roster_names [] = []
roster_names ((_, reader) ∷ readers) = reader.name ∷ roster_names readers

unfoldable pub roster_keys :
    NumberMap CardRouting → NumberMap CardState → NumberMap ReaderState → List (Option ℕ)
unfolding card_key_in
roster_keys routings cards [] = []
roster_keys routings cards ((handle, _) ∷ readers) =
    card_key_in handle routings cards ∷ roster_keys routings cards readers

pub rebuild_roster : Registry → Registry
unfolding roster_names roster_keys
rebuild_roster s = record s {
  roster = record {
    reader_names = roster_names s.readers;
    card_keys = roster_keys s.card_routing s.cards s.readers;
  };
}

pub publish_reader : CoreReader → Registry → Registry × List PresenceEvent
unfolding handle_for_valid rebuild_roster
publish_reader reader s =
    let (handle, hs1) = handle_for reader.id s.handles in
    let (card, hs2) = handle_for_valid reader.card hs1 in
    let r : ReaderState = record {
      name = reader.name;
      has_card = reader.has_card;
      card = card;
      model = reader.model;
      iface = reader.iface;
    } in
    (
      rebuild_roster (record s { handles = hs2; readers = assign handle r s.readers }),
      reader_added handle r ∷ [],
    )

-- An empty text is an optional that is not set.
pub known_text : String → Option String
known_text t = if str_eq t "" then none else some t

pub publish_card : CoreCard → Registry → Registry × List PresenceEvent
unfolding handle_for rebuild_roster known_text
publish_card card s =
    let (handle, hs1) = handle_for card.id s.handles in
    let (reader, hs2) = handle_for card.reader hs1 in
    let c : CardState = record {
      reader = reader;
      caps = card.capabilities;
      pre_auth = card.pre_read_auth;
      card_type = known_text card.card_type;
      atr = known_text card.atr_hex;
    } in
    let routing : CardRouting = record {
      card_id = card.id;
      reader_id = card.reader;
      reader_name = elim (lookup reader s.readers) [ some r ↦ r.name | none ↦ "" ];
      card_key = card.id;
      caps = card.capabilities;
      pre_auth = card.pre_read_auth;
    } in
    (
      rebuild_roster (record s {
        handles = hs2;
        cards = assign handle c s.cards;
        card_routing = assign handle routing s.card_routing;
      }),
      card_added handle c ∷ [],
    )

-- The published object of a handle: a reader, else a card.
abbrev pub drop_published : ℕ → Registry → Registry × List PresenceEvent
drop_published handle s =
    if is_some (lookup handle s.readers)
    then (record s { readers = erase handle s.readers }, reader_removed handle ∷ [])
    else if is_some (lookup handle s.cards)
    then (
      record s { cards = erase handle s.cards; card_routing = erase handle s.card_routing },
      card_removed handle ∷ [],
    )
    else (s, [])

abbrev pub forget : ℕ → ℕ → Handles → Handles
forget object handle hs = record hs {
  id_to_handle = erase object hs.id_to_handle;
  handle_to_id = erase handle hs.handle_to_id;
}

pub withdraw : ℕ → Registry → Registry × List PresenceEvent
unfolding rebuild_roster
withdraw object s = elim (lookup object s.handles.id_to_handle) [
  | none ↦ (s, [])
  | some handle ↦
      let (t, events) = drop_published handle s in
      (rebuild_roster (record t { handles = forget object handle t.handles }), events)
]
