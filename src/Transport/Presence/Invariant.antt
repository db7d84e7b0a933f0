-- ===== src/Transport/Presence/Invariant.antt =====
-- What holds of the presence after every change to it.
use libre_darwin.Base.{ℕ, ◌≡◌, refl, Option, none, some, arith, inl, inr, Option-cases, is_some}
use libre_darwin.Transport.Maps.{lookup, lookup-assign_cases}
use libre_darwin.Transport.Presence.{
  CoreReader, ReaderState, CardRouting, Registry, Handles, handle_for, handle_for_valid,
  rebuild_roster, roster_names, roster_keys, publish_reader,
}
use libre_darwin.Transport.Presence.Inverse.{AreInverse, Given, handle_for-Given}

-- The handle maps are inverse; every published object has its handle there, and is a reader or a card,
-- not both; every card has its routing, whose card is the handle's and whose key is that card's id; the
-- roster is the one of the published objects.
pub record IsValid (s : Registry) : Type 0 where
  pub inverse : AreInverse s.handles
  pub reader_known :
      (h : ℕ) (r : ReaderState)
      → lookup h s.readers ≡ some r
      → (id : ℕ) × (lookup h s.handles.handle_to_id ≡ some id)
  pub apart : (h : ℕ) (r : ReaderState) → lookup h s.readers ≡ some r → lookup h s.cards ≡ none
  pub routed : (h : ℕ) → is_some (lookup h s.cards) ≡ is_some (lookup h s.card_routing)
  pub routing_id :
      (h : ℕ) (routing : CardRouting)
      → lookup h s.card_routing ≡ some routing
      → (lookup h s.handles.handle_to_id ≡ some routing.card_id)
        × (routing.card_key ≡ routing.card_id)
  pub names : s.roster.reader_names ≡ roster_names s.readers
  pub keys : s.roster.card_keys ≡ roster_keys s.card_routing s.cards s.readers

pub handle_for_valid-kept :
    (id : Option ℕ) (hs : Handles)
    → AreInverse hs
    → AreInverse (handle_for_valid id hs).1
      × ((i h : ℕ)
          → lookup h hs.handle_to_id ≡ some i
          → lookup h (handle_for_valid id hs).1.handle_to_id ≡ some i)
unfolding handle_for_valid
handle_for_valid-kept none hs v = (v, λ i h p. p)
handle_for_valid-kept (some id) hs v = let g = handle_for-Given id hs v in (g.inverse, g.kept)

-- The agent library gives readers and cards different ids: an id that is given out as a card's is not a
-- published reader's, and the other way round.
abbrev pub NoReader : ℕ → Registry → Type 0
NoReader id s = (h : ℕ) → lookup h s.handles.handle_to_id ≡ some id → lookup h s.readers ≡ none

abbrev pub NoCard : ℕ → Registry → Type 0
NoCard id s = (h : ℕ) → lookup h s.handles.handle_to_id ≡ some id → lookup h s.cards ≡ none

pub known_id :
    (s : Registry)
    → IsValid s
    → (id : ℕ) (r : ReaderState) {g : ℕ × Handles} → Given id s.handles g
    → lookup g.0 s.readers ≡ some r
    → lookup g.0 s.handles.handle_to_id ≡ some id
known_id s v id r {g} given p =
    let (i, e) = v.reader_known g.0 r p in ground (arith, given.kept i g.0 e, given.given, e)

-- The reader's handle is not a card's.
new_reader-apart :
    (s : Registry)
    → IsValid s
    → (id : ℕ) {g : ℕ × Handles} → Given id s.handles g
    → NoCard id s
    → lookup g.0 s.cards ≡ none
new_reader-apart s v id {g} given free = elim (Option-cases (lookup g.0 s.card_routing)) [
  | inl e ↦ ground (arith, v.routed g.0, e)
  | inr (routing, e) ↦
      let old = (v.routing_id g.0 routing e).0 in
      free g.0 (ground (arith, given.kept routing.card_id g.0 old, given.given, old))
]

-- Publishing a reader whose id is no card's keeps the presence valid:
-- the handle maps are inverse, every published object has its handle, every card its routing under its
-- own id, and the roster is the one of the published objects.
pub publish_reader-IsValid :
    (reader : CoreReader) (s : Registry)
    → IsValid s
    → NoCard reader.id s
    → IsValid (publish_reader reader s).0
unfolding publish_reader rebuild_roster
publish_reader-IsValid reader s v free =
    let given = handle_for-Given reader.id s.handles v.inverse in
    let (g, hs) = handle_for reader.id s.handles in
    let (inverse, kept) = handle_for_valid-kept reader.card hs given.inverse in
    record {
      inverse = inverse;
      reader_known = λ h x p. elim (lookup-assign_cases h g _ s.readers p) [
        | inl (e, _) ↦ (reader.id, rw e (kept reader.id g given.given))
        | inr (_, old) ↦ let (i, k) = v.reader_known h x old in (i, kept i h (given.kept i h k))
      ];
      apart = λ h x p. elim (lookup-assign_cases h g _ s.readers p) [
        | inl (e, _) ↦ rw e (new_reader-apart s v reader.id given free)
        | inr (_, old) ↦ v.apart h x old
      ];
      routed = v.routed;
      routing_id = λ h x p. let (i, k) = v.routing_id h x p in (kept _ h (given.kept _ h i), k);
      names = refl;
      keys = refl;
    }
