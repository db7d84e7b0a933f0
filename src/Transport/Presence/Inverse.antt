-- ===== src/Transport/Presence/Inverse.antt =====
-- The two handle maps are inverse to each other, and a handle is never given out twice.
use libre_darwin.Base.{ℕ, suc, ◌≡◌, ◌<◌, ◌≤◌, none, some, arith, inl, inr, Option-cases}
use libre_darwin.Transport.Maps.{lookup, assign, lookup-erase, lookup-assign}
use libre_darwin.Transport.Presence.{Handles, handle_for, forget}

pub record AreInverse (hs : Handles) : Type 0 where
  pub forth : (id h : ℕ) → lookup id hs.id_to_handle ≡ some h → lookup h hs.handle_to_id ≡ some id
  pub back : (id h : ℕ) → lookup h hs.handle_to_id ≡ some id → lookup id hs.id_to_handle ≡ some h
  pub fresh : (id h : ℕ) → lookup h hs.handle_to_id ≡ some id → h < hs.next_handle

-- Giving an object its handle keeps the maps inverse and every handle that was given; the handle is
-- the object's from then on.
pub record Given (id : ℕ) (hs : Handles) (r : ℕ × Handles) : Type 0 where
  pub inverse : AreInverse r.1
  pub given : lookup r.0 r.1.handle_to_id ≡ some id
  pub kept : (i h : ℕ) → lookup h hs.handle_to_id ≡ some i → lookup h r.1.handle_to_id ≡ some i
  pub later : hs.next_handle ≤ r.1.next_handle

not_given : (hs : Handles) → AreInverse hs → lookup hs.next_handle hs.handle_to_id ≡ none
not_given hs v = elim (Option-cases (lookup hs.next_handle hs.handle_to_id)) [
  | inl e ↦ e
  | inr (i, e) ↦ absurd (omega (arith, v.fresh i hs.next_handle e))
]

new_handle :
    (id : ℕ) (hs : Handles)
    → lookup id hs.id_to_handle ≡ none
    → AreInverse hs
    → Given id hs (
      hs.next_handle,
      record {
        id_to_handle = assign id hs.next_handle hs.id_to_handle;
        handle_to_id = assign hs.next_handle id hs.handle_to_id;
        next_handle = suc hs.next_handle;
      },
    )
new_handle id hs e v =
    let n = hs.next_handle in
    let to_handle = λ (i : ℕ). lookup-assign i id n hs.id_to_handle in
    let to_id = λ (h : ℕ). lookup-assign h n id hs.handle_to_id in
    let free = not_given hs v in
    record {
      inverse = record {
        forth = λ i h p. ground (arith, to_handle i, to_id h, v.forth i h, v.fresh i h, free, e);
        back = λ i h p. ground (arith, to_handle i, to_id h, v.back i h, v.fresh i h, free, e);
        fresh = λ i h p. ground (arith, to_id h, v.fresh i h);
      };
      given = ground (arith, to_id n);
      kept = λ i h p. ground (arith, to_id h, v.fresh i h p);
      later = omega arith;
    }

pub handle_for-Given : (id : ℕ) (hs : Handles) → AreInverse hs → Given id hs (handle_for id hs)
unfolding handle_for
handle_for-Given id hs v = elim (Option-cases (lookup id hs.id_to_handle)) [
  | inr (h, e) ↦
      rw (e, handle_for)
        (record { inverse = v; given = v.forth id h e; kept = λ i h' p. p; later = omega arith })
  | inl e ↦ rw (e, handle_for) (new_handle id hs e v)
]

-- After `forget` of an object and its handle the maps are inverse.
pub forget-AreInverse :
    (id h : ℕ) (hs : Handles)
    → lookup id hs.id_to_handle ≡ some h
    → AreInverse hs
    → AreInverse (forget id h hs)
forget-AreInverse id h hs e v = record {
  forth = λ i g p. ground (
    arith,
    lookup-erase i id hs.id_to_handle,
    lookup-erase g h hs.handle_to_id,
    v.forth i g,
    v.forth id h e,
    v.back i h,
  );
  back = λ i g p. ground (
    arith,
    lookup-erase i id hs.id_to_handle,
    lookup-erase g h hs.handle_to_id,
    v.back i g,
    v.back id g,
    v.forth id h e,
  );
  fresh = λ i g p. ground (arith, lookup-erase g h hs.handle_to_id, v.fresh i g);
}
