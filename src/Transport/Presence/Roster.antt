-- ===== src/Transport/Presence/Roster.antt =====
-- The changes that do not rebuild the roster (SocketTransport.cpp): a label, a slot, a card type.
use libre_darwin.Base.{
  ℕ, String, ◌≡◌, refl, sym, ◌∙◌, Option, none, some, ◌&&◌, arith, ◌==◌, str_eq, if◌then◌else◌, inl,
  inr, Bool-cases, Option-cases, [], ◌∷◌,
}
use libre_darwin.Transport.Maps.{NumberMap, lookup, assign, lookup-assign, lookup-assign_cases}
use libre_darwin.Transport.Presence.{
  CoreReader, PropertyDelta, ReaderState, CardState, CardRouting, Registry, Handles, roster_names,
  roster_keys, card_key_in,
}
use libre_darwin.Transport.Presence.Inverse.{AreInverse}
use libre_darwin.Transport.Presence.Invariant.{IsValid, handle_for_valid-kept}
use libre_darwin.Transport.Presence.Updates.{
  published_reader, relabel_reader, update_properties, is_type, update_card_type, card_routing,
  reader_card, slot_key,
}

roster_names-assign :
    (h : ℕ) (r r' : ReaderState) (m : NumberMap ReaderState)
    → lookup h m ≡ some r
    → r'.name ≡ r.name
    → roster_names (assign h r' m) ≡ roster_names m
unfolding roster_names lookup assign
roster_names-assign h r r' [] e n = cc
roster_names-assign h r r' ((j, x) ∷ m) e n = ground (arith, roster_names-assign h r r' m)

roster_keys-assign :
    (routings : NumberMap CardRouting) (cards : NumberMap CardState) (h : ℕ) (r r' : ReaderState)
    (m : NumberMap ReaderState)
    → lookup h m ≡ some r
    → roster_keys routings cards (assign h r' m) ≡ roster_keys routings cards m
unfolding roster_keys lookup assign
roster_keys-assign routings cards h r r' [] e = cc
roster_keys-assign routings cards h r r' ((j, x) ∷ m) e =
    ground (arith, roster_keys-assign routings cards h r r' m)

card_key_in-assign :
    (routings : NumberMap CardRouting) (reader h : ℕ) (c c' : CardState) (m : NumberMap CardState)
    → lookup h m ≡ some c
    → c'.reader ≡ c.reader
    → card_key_in reader routings (assign h c' m) ≡ card_key_in reader routings m
unfolding card_key_in lookup assign
card_key_in-assign routings reader h c c' [] e n = cc
card_key_in-assign routings reader h c c' ((j, x) ∷ m) e n =
    ground (arith, card_key_in-assign routings reader h c c' m)

roster_keys-assign_card :
    (routings : NumberMap CardRouting) (h : ℕ) (c c' : CardState) (cards : NumberMap CardState)
    (m : NumberMap ReaderState)
    → lookup h cards ≡ some c
    → c'.reader ≡ c.reader
    → roster_keys routings (assign h c' cards) m ≡ roster_keys routings cards m
unfolding roster_keys
roster_keys-assign_card routings h c c' cards [] e n = refl
roster_keys-assign_card routings h c c' cards ((j, x) ∷ m) e n =
    rw
      (
        card_key_in-assign routings j h c c' cards e n,
        roster_keys-assign_card routings h c c' cards m e n,
      )
      refl

-- A published reader is changed, its name apart, and handles may be given on the way.
replace_reader :
    (s : Registry) (hs : Handles) (h : ℕ) (r r' : ReaderState)
    → IsValid s
    → AreInverse hs
    → ((i g : ℕ) → lookup g s.handles.handle_to_id ≡ some i → lookup g hs.handle_to_id ≡ some i)
    → lookup h s.readers ≡ some r
    → r'.name ≡ r.name
    → IsValid (record s { handles = hs; readers = assign h r' s.readers })
replace_reader s hs h r r' v inverse kept e n = record {
  inverse = inverse;
  reader_known = λ g x p. elim (lookup-assign_cases g h r' s.readers p) [
    | inl (f, _) ↦ let (i, k) = v.reader_known h r e in (i, rw f (kept i h k))
    | inr (_, old) ↦ let (i, k) = v.reader_known g x old in (i, kept i g k)
  ];
  apart = λ g x p. elim (lookup-assign_cases g h r' s.readers p) [
    | inl (f, _) ↦ rw f (v.apart h r e)
    | inr (_, old) ↦ v.apart g x old
  ];
  routed = v.routed;
  routing_id = λ g x p. let (i, k) = v.routing_id g x p in (kept _ g i, k);
  names = v.names ∙ sym (roster_names-assign h r r' s.readers e n);
  keys = v.keys ∙ sym (roster_keys-assign s.card_routing s.cards h r r' s.readers e);
}

published_reader-found :
    (id : ℕ) (s : Registry) {p : ℕ × ReaderState}
    → published_reader id s ≡ some p
    → lookup p.0 s.readers ≡ some p.1
unfolding published_reader
published_reader-found id s h = ground arith

pub relabel_reader-IsValid :
    (s : Registry) (reader : CoreReader) → IsValid s → IsValid (relabel_reader reader s).0
unfolding relabel_reader
relabel_reader-IsValid s reader v = relabelled (published_reader reader.id s) refl
  where
    relabelled :
        (o : Option (ℕ × ReaderState))
        → published_reader reader.id s ≡ o
        → IsValid (relabel_reader reader s).0
    relabelled none e = rw (e, relabel_reader) v
    relabelled (some (h, r)) e =
        let same = str_eq r.model reader.model && (r.iface == reader.iface) in
        rw (e, relabel_reader)
          (elim (Bool-cases same) [
            | inl f ↦ rw f v
            | inr f ↦ rw f (
                replace_reader s s.handles h r _ v v.inverse (λ i g p. p)
                  (published_reader-found reader.id s e) refl)
          ])

pub update_properties-IsValid :
    (s : Registry) (id : ℕ) (delta : PropertyDelta)
    → IsValid s
    → IsValid (update_properties id delta s).0
unfolding update_properties
update_properties-IsValid s id delta v = updated (published_reader id s) refl
  where
    updated :
        (o : Option (ℕ × ReaderState))
        → published_reader id s ≡ o
        → IsValid (update_properties id delta s).0
    updated none e = rw (e, update_properties) v
    updated (some (h, r)) e =
        let kept =
          handle_for_valid-kept (if delta.has_card then delta.card else none) s.handles v.inverse in
        rw (e, update_properties)
          (replace_reader s _ h r _ v kept.0 kept.1 (published_reader-found id s e) refl)

replace_card :
    (s : Registry) (h : ℕ) (c c' : CardState)
    → IsValid s
    → lookup h s.cards ≡ some c
    → c'.reader ≡ c.reader
    → IsValid (record s { cards = assign h c' s.cards })
replace_card s h c c' v e n = record {
  inverse = v.inverse;
  reader_known = v.reader_known;
  apart = λ g x p. ground (arith, lookup-assign g h c' s.cards, v.apart g x p, e);
  routed = λ g. ground (arith, lookup-assign g h c' s.cards, v.routed g, e);
  routing_id = v.routing_id;
  names = v.names;
  keys = v.keys ∙ sym (roster_keys-assign_card s.card_routing h c c' s.cards s.readers e n);
}

pub update_card_type-IsValid :
    (s : Registry) (card : ℕ) (card_type : String)
    → IsValid s
    → IsValid (update_card_type card card_type s).0
unfolding update_card_type
update_card_type-IsValid s card card_type v = elim (Option-cases (lookup card s.cards)) [
  | inl e ↦ rw (e, update_card_type) v
  | inr (c, e) ↦
      rw (e, update_card_type)
        (elim (Bool-cases (is_type c.card_type card_type)) [
          | inl f ↦ rw f v
          | inr f ↦ rw f (replace_card s card c _ v e refl)
        ])
]

slot_key-of_routed :
    (s : Registry) (card : ℕ) (routing : CardRouting)
    → IsValid s
    → lookup card s.card_routing ≡ some routing
    → slot_key s (some card) ≡ some routing.card_key
unfolding slot_key
slot_key-of_routed s card routing v e = let (i, k) = v.routing_id card routing e in rw (i, k) refl

-- In a valid presence, a published reader whose slot holds a routed card is answered with the key in
-- that card's routing: the two lookups agree on the card.
pub reader_card-key :
    (s : Registry) (h card : ℕ) (r : ReaderState) (routing : CardRouting)
    → IsValid s
    → lookup h s.readers ≡ some r
    → r.card ≡ some card
    → card_routing card s ≡ some routing
    → (id : ℕ) × (reader_card h s
        ≡ some (record { reader_id = id; reader_name = r.name; card_key = some routing.card_key }))
unfolding reader_card card_routing
reader_card-key s h card r routing v e slot f =
    let (id, known) = v.reader_known h r e in
    (id, rw (e, reader_card, known, slot, slot_key-of_routed s card routing v f) refl)
