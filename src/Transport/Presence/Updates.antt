-- ===== src/Transport/Presence/Updates.antt =====
-- The changes to a published object, and the queries (SocketTransport.cpp).
use libre_darwin.Base.{
  ℕ, String, Option, none, some, List, [], ◌∷◌, Bool, false, ◌&&◌, ◌==◌, str_eq, if◌then◌else◌,
}
use libre_darwin.Transport.Maps.{lookup, assign}
use libre_darwin.Transport.Presence.{
  CoreReader, PropertyDelta, ReaderState, CardRouting, ReaderCardInfo, Registry, PresenceEvent,
  reader_relabelled, slot_changed, card_type_changed, handle_for_valid,
}

-- The published reader of an object: its handle and its state.
unfoldable pub published_reader : ℕ → Registry → Option (ℕ × ReaderState)
published_reader id s = elim (lookup id s.handles.id_to_handle) [
  | none ↦ none
  | some handle ↦ elim (lookup handle s.readers) [ none ↦ none | some r ↦ some (handle, r) ]
]

unfoldable pub relabel_reader : CoreReader → Registry → Registry × List PresenceEvent
unfolding published_reader
relabel_reader reader s = elim (published_reader reader.id s) [
  | none ↦ (s, [])
  | some (handle, r) ↦
      if str_eq r.model reader.model && (r.iface == reader.iface) then (s, []) else (
        record s {
          readers =
              assign handle (record r { model = reader.model; iface = reader.iface }) s.readers;
        },
        reader_relabelled handle reader.model reader.iface ∷ [],
      )
]

unfoldable pub update_properties : ℕ → PropertyDelta → Registry → Registry × List PresenceEvent
unfolding published_reader
update_properties reader delta s = elim (published_reader reader s) [
  | none ↦ (s, [])
  | some (handle, r) ↦
      let (card, hs) = handle_for_valid (if delta.has_card then delta.card else none) s.handles in
      (
        record s {
          handles = hs;
          readers = assign handle (record r { has_card = delta.has_card; card = card }) s.readers;
        },
        slot_changed handle delta.has_card card ∷ [],
      )
]

-- `it->second.cardType && *it->second.cardType == cardType`
pub is_type : Option String → String → Bool
is_type none t = false
is_type (some u) t = str_eq u t

unfoldable pub update_card_type : ℕ → String → Registry → Registry × List PresenceEvent
unfolding is_type
update_card_type card_handle card_type s = elim (lookup card_handle s.cards) [
  | none ↦ (s, [])
  | some c ↦ if is_type c.card_type card_type then (s, []) else (
    record s { cards = assign card_handle (record c { card_type = some card_type }) s.cards },
    card_type_changed card_handle card_type ∷ [],
  )
]

unfoldable pub card_routing : ℕ → Registry → Option CardRouting
card_routing card_handle s = lookup card_handle s.card_routing

-- The id of the card in the slot, if its handle is known.
unfoldable pub slot_key : Registry → Option ℕ → Option ℕ
slot_key s none = none
slot_key s (some card) = lookup card s.handles.handle_to_id

unfoldable pub reader_card : ℕ → Registry → Option ReaderCardInfo
unfolding slot_key
reader_card reader_handle s = elim (lookup reader_handle s.readers) [
  | none ↦ none
  | some r ↦ elim (lookup reader_handle s.handles.handle_to_id) [
    | none ↦ none
    | some id ↦ some (record { reader_id = id; reader_name = r.name; card_key = slot_key s r.card })
  ]
]
