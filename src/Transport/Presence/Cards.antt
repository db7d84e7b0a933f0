-- ===== src/Transport/Presence/Cards.antt =====
-- Cards come and objects go (SocketTransport.cpp): the presence stays valid, and a withdrawn object is
-- gone from everything a client can ask.
use libre_darwin.Base.{
  ℕ, ◌≡◌, ◌≢◌, refl, sym, subst, ◌∙◌, none, some, arith, ◌==◌, if◌then◌else◌, inl, inr, Bool-cases,
  Option-cases,
}
use libre_darwin.Transport.Maps.{
  lookup, lookup-erase, lookup-assign, lookup-assign_cases, some_of_unless,
}
use libre_darwin.Transport.Presence.{
  CoreCard, ReaderState, Registry, Handles, handle_for, rebuild_roster, publish_card, withdraw,
  drop_published,
}
use libre_darwin.Transport.Presence.Inverse.{Given, handle_for-Given, forget-AreInverse}
use libre_darwin.Transport.Presence.Invariant.{IsValid, NoReader, known_id}

not_a_reader :
    (s : Registry)
    → IsValid s
    → (id : ℕ) {g : ℕ × Handles} → Given id s.handles g
    → NoReader id s
    → (x : ReaderState) → lookup g.0 s.readers ≢ some x
not_a_reader s v id {g} given free x p = let none_there = free g.0 (known_id s v id x given p) in cc

-- Publishing a card whose id is no reader's keeps the presence valid:
-- the handle maps are inverse, every published object has its handle, every card its routing under its
-- own id, and the roster is the one of the published objects.
pub publish_card-IsValid :
    (card : CoreCard) (s : Registry)
    → IsValid s
    → NoReader card.id s
    → IsValid (publish_card card s).0
unfolding publish_card rebuild_roster
publish_card-IsValid card s v free =
    let given = handle_for-Given card.id s.handles v.inverse in
    let (g, hs) = handle_for card.id s.handles in
    let slot = handle_for-Given card.reader hs given.inverse in
    record {
      inverse = slot.inverse;
      reader_known =
          λ h x p. let (i, k) = v.reader_known h x p in (i, slot.kept i h (given.kept i h k));
      apart = λ h x p. rw (lookup-assign h g _ s.cards) (elim (Bool-cases (h == g)) [
        | inl e ↦ absurd (
            not_a_reader s v card.id given free x
              (subst (λ k. lookup k s.readers ≡ some x) (ground arith) p))
        | inr e ↦ rw e (v.apart h x p)
      ]);
      routed = λ h.
          rw (lookup-assign h g _ s.cards, lookup-assign h g _ s.card_routing)
            (ground (arith, v.routed h));
      routing_id = λ h x p. elim (lookup-assign_cases h g _ s.card_routing p) [
        | inl (e, new) ↦ rw (e, sym new) (slot.kept card.id g given.given, refl)
        | inr (_, old) ↦ let (i, k) = v.routing_id h x old in (slot.kept _ h (given.kept _ h i), k)
      ];
      names = refl;
      keys = refl;
    }

-- What is left of the registry once the object of a handle is dropped.
record Dropped (h : ℕ) (s t : Registry) : Type 0 where
  handles : t.handles ≡ s.handles
  readers : (g : ℕ) → lookup g t.readers ≡ (if g == h then none else lookup g s.readers)
  cards : (g : ℕ) → lookup g t.cards ≡ (if g == h then none else lookup g s.cards)
  routing : (g : ℕ) → lookup g t.card_routing ≡ (if g == h then none else lookup g s.card_routing)

drop_published-Dropped : (h : ℕ) (s : Registry) → IsValid s → Dropped h s (drop_published h s).0
drop_published-Dropped h s v = elim (Option-cases (lookup h s.readers)) [
  | inr (r, e) ↦ rw e (record {
    handles = refl;
    readers = λ g. lookup-erase g h s.readers;
    cards = λ g. ground (arith, v.apart h r e);
    routing = λ g. ground (arith, v.apart h r e, v.routed h);
  })
  | inl e ↦ elim (Option-cases (lookup h s.cards)) [
    | inr (c, f) ↦
        rw (e, f)
          (record {
            handles = refl;
            readers = λ g. ground (arith, e);
            cards = λ g. lookup-erase g h s.cards;
            routing = λ g. lookup-erase g h s.card_routing;
          })
    | inl f ↦
        rw (e, f)
          (record {
            handles = refl;
            readers = λ g. ground (arith, e);
            cards = λ g. ground (arith, f);
            routing = λ g. ground (arith, f, v.routed h);
          })
  ]
]

-- Withdrawing an object, published or not, keeps the presence valid:
-- the handle maps are inverse, every published object has its handle, every card its routing under its
-- own id, and the roster is the one of the published objects.
pub withdraw-IsValid : (object : ℕ) (s : Registry) → IsValid s → IsValid (withdraw object s).0
unfolding withdraw rebuild_roster
withdraw-IsValid object s v = elim (Option-cases (lookup object s.handles.id_to_handle)) [
  | inl e ↦ rw (e, withdraw) v
  | inr (h, e) ↦
      let d = drop_published-Dropped h s v in
      rw (e, withdraw, d.handles)
        (record {
          inverse = forget-AreInverse object h s.handles e v.inverse;
          reader_known = λ g x p.
              let (n, old) = some_of_unless (g == h) _ (sym (d.readers g) ∙ p) in
              let (i, k) = v.reader_known g x old in
              (i, lookup-erase g h s.handles.handle_to_id ∙ rw n k);
          apart = λ g x p. ground (arith, d.readers g, d.cards g, v.apart g x);
          routed = λ g. ground (arith, d.cards g, d.routing g, v.routed g);
          routing_id = λ g x p.
              let (n, old) = some_of_unless (g == h) _ (sym (d.routing g) ∙ p) in
              let (i, k) = v.routing_id g x old in
              (lookup-erase g h s.handles.handle_to_id ∙ rw n i, k);
          names = refl;
          keys = refl;
        })
]

-- A withdrawn object of a valid presence is gone, whatever it was: its handle names no reader, no card
-- and no routing, stands for no object, and the object has none.
pub withdraw-forgets :
    (object h : ℕ) (s : Registry)
    → IsValid s
    → lookup object s.handles.id_to_handle ≡ some h
    → let t = (withdraw object s).0 in
      (lookup h t.readers ≡ none)
      × (lookup h t.cards ≡ none)
      × (lookup h t.card_routing ≡ none)
      × (lookup h t.handles.handle_to_id ≡ none)
      × (lookup object t.handles.id_to_handle ≡ none)
unfolding withdraw rebuild_roster
withdraw-forgets object h s v e =
    let d = drop_published-Dropped h s v in
    rw (e, withdraw, d.handles)
      (
        ground (arith, d.readers h),
        ground (arith, d.cards h),
        ground (arith, d.routing h),
        ground (arith, lookup-erase h h s.handles.handle_to_id),
        ground (arith, lookup-erase object object s.handles.id_to_handle),
      )
