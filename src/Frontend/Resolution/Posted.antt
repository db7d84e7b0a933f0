-- ===== src/Frontend/Resolution/Posted.antt =====
-- What is posted to the loop about cards, in any order (agent/src/backend/SocketFrontend.cpp).
use libre_darwin.Base.{
  ℕ, ◌≡◌, refl, sym, subst, ◌∙◌, Option, none, some, List, [], ◌∷◌, Bool, true, false, ◌==◌,
  if◌then◌else◌, is_some, arith, if-split, Bool-cases, inl, inr,
}
use libre_darwin.Transport.Maps.{NumberMap, lookup, assign, erase, lookup-erase, lookup-assign}
use libre_darwin.Transport.Presence.{CoreReader, CoreCard}
use libre_darwin.Frontend.Resolution.{
  CardProbe, Policy, PendingCard, Presence, PresenceCall, on_reader_published, on_withdrawn,
  schedule_card_resolve, retry, apply_card_resolution, resolve, resolve_pending, publish_resolved,
}

-- What is posted to the loop: by the presence model, by a probe, by a timer.
pub data Posted : Type 0 where
  published_reader : CoreReader → Posted
  published_card : CoreCard → Posted
  withdrawn : ℕ → Posted
  probed : CoreCard → CardProbe → Posted
  retried : CoreCard → Posted

-- Of the announcements and withdrawals of a card, the latest is an announcement.
abbrev pub is_announced : ℕ → List Posted → Bool
is_announced id [] = false
is_announced id (published_card card ∷ history) =
    let rest = is_announced id history in if card.id == id then true else rest
is_announced id (withdrawn object ∷ history) =
    let rest = is_announced id history in if object == id then false else rest
is_announced id (_ ∷ history) = is_announced id history

is_some-assign :
    {A : Type 0} (j k : ℕ) (v : A) (m : NumberMap A)
    → is_some (lookup j (assign k v m)) ≡ (if k == j then true else is_some (lookup j m))
is_some-assign j k v m = rw (lookup-assign j k v m) (ground arith)

is_some-assign_found :
    {A : Type 0} (j k : ℕ) (v : A) (m : NumberMap A) {w : A}
    → lookup k m ≡ some w
    → is_some (lookup j (assign k v m)) ≡ true
    → is_some (lookup j m) ≡ true
is_some-assign_found j k v m e h = ground (arith, is_some-assign j k v m)

is_some-erase :
    {A : Type 0} (j k : ℕ) (m : NumberMap A)
    → is_some (lookup j (erase k m)) ≡ true
    → is_some (lookup j m) ≡ true
is_some-erase j k m h = ground (arith, lookup-erase j k m)

is_some-erase_if :
    {A : Type 0} (j k : ℕ) (m : NumberMap A)
    → is_some (lookup j (erase k m)) ≡ (if k == j then false else is_some (lookup j m))
is_some-erase_if j k m = ground (arith, lookup-erase j k m)

announced_card :
    (b : Bool) (now before : Bool) {announced : Bool}
    → now ≡ (if b then true else before)
    → now ≡ true
    → (before ≡ true → announced ≡ true)
    → (if b then true else announced) ≡ true
announced_card true now before e h k = refl
announced_card false now before e h k = k (sym e ∙ h)

withdrawn_card :
    (b : Bool) (now before : Bool) {announced : Bool}
    → now ≡ (if b then false else before)
    → now ≡ true
    → (before ≡ true → announced ≡ true)
    → (if b then false else announced) ≡ true
withdrawn_card true now before e h k = cc
withdrawn_card false now before e h k = k (sym e ∙ h)

module _ (policy : Policy) where
  abbrev pub step : Posted → Presence → Presence × List PresenceCall
  step (published_reader reader) s = on_reader_published reader s
  step (published_card card) s = schedule_card_resolve policy card s
  step (withdrawn object) s = on_withdrawn object s
  step (probed card probe) s = apply_card_resolution policy card probe s
  step (retried card) s = retry policy card s

  abbrev pub start : Presence
  start = record {
    pending_cards = [];
    reader_names = [];
    registry = record {
      handles = record { id_to_handle = []; handle_to_id = []; next_handle = 1 };
      readers = [];
      cards = [];
      card_routing = [];
      roster = record { reader_names = []; card_keys = [] };
    };
  }

  -- What was posted, the latest first.
  abbrev pub after_posted : List Posted → Presence
  after_posted [] = start
  after_posted (p ∷ history) = let (s, _) = step p (after_posted history) in s

  abbrev presence_in : Presence × List PresenceCall → Presence
  presence_in (s, calls) = s

  abbrev pub calls_in : Presence × List PresenceCall → List PresenceCall
  calls_in (s, calls) = calls

  -- A pending card is announced.
  abbrev pub AllAnnounced : List Posted → Presence → Type 0
  AllAnnounced history s =
      (id : ℕ) → is_some (lookup id s.pending_cards) ≡ true → is_announced id history ≡ true

  pending-schedule_card_resolve :
      (id : ℕ) (card : CoreCard) (s : Presence)
      → is_some (lookup id (presence_in (schedule_card_resolve policy card s)).pending_cards)
        ≡ (if card.id == id then true else is_some (lookup id s.pending_cards))
  unfolding schedule_card_resolve
  pending-schedule_card_resolve id card s = is_some-assign id card.id _ s.pending_cards

  pending-resolve_pending :
      (id : ℕ) (card : CoreCard) (probe : CardProbe) (p : PendingCard) (r : Option ℕ × ℕ)
      (s : Presence)
      → lookup card.id s.pending_cards ≡ some p
      → is_some (lookup id (presence_in (resolve_pending policy card probe p r s)).pending_cards)
        ≡ true
      → is_some (lookup id s.pending_cards) ≡ true
  unfolding publish_resolved
  pending-resolve_pending id card probe p (some delay, attempts) s e h =
      is_some-assign_found id card.id _ s.pending_cards e h
  pending-resolve_pending id card probe p (none, attempts) s e h =
      is_some-erase id card.id s.pending_cards h

  pending-apply_card_resolution :
      (id : ℕ) (card : CoreCard) (probe : CardProbe) (s : Presence) (o : Option PendingCard)
      → lookup card.id s.pending_cards ≡ o
      → is_some (lookup id (presence_in (resolve policy card probe o s)).pending_cards) ≡ true
      → is_some (lookup id s.pending_cards) ≡ true
  pending-apply_card_resolution id card probe s none e h = h
  pending-apply_card_resolution id card probe s (some p) e h =
      pending-resolve_pending id card probe p _ s e h

  retried_card :
      (id other : ℕ) (before : Bool) (history : List Posted) {now : Bool}
      → now ≡ (if other == id then true else before)
      → now ≡ true
      → is_announced other history ≡ true
      → (before ≡ true → is_announced id history ≡ true)
      → is_announced id history ≡ true
  retried_card id other before history {now} e h a k = elim (Bool-cases (other == id)) [
    | inl t ↦ let q : other ≡ id = ground arith in subst (λ n. is_announced n history ≡ true) q a
    | inr f ↦ k (ground arith)
  ]

  AllAnnounced-step :
      (p : Posted) (history : List Posted) (s : Presence)
      → AllAnnounced history s
      → AllAnnounced (p ∷ history) (presence_in (step p s))
  unfolding on_reader_published on_withdrawn retry apply_card_resolution
  AllAnnounced-step (published_reader reader) history s k id h = k id h
  AllAnnounced-step (published_card card) history s k id h =
      announced_card (card.id == id) _ _ (pending-schedule_card_resolve id card s) h (k id)
  AllAnnounced-step (withdrawn object) history s k id h =
      withdrawn_card (object == id) _ _ (is_some-erase_if id object s.pending_cards) h (k id)
  AllAnnounced-step (probed card probe) history s k id h =
      k id (pending-apply_card_resolution id card probe s _ refl h)
  AllAnnounced-step (retried card) history s k id h =
      if-split
        (λ o.
          is_some (lookup id (presence_in o).pending_cards) ≡ true → is_announced id history ≡ true)
        _ _ _
        (λ t q.
          retried_card id card.id _ history (pending-schedule_card_resolve id card s) q
            (k card.id t) (k id))
        (λ _ q. k id q) h

  pub AllAnnounced-after_posted :
      (history : List Posted) → AllAnnounced history (after_posted history)
  unfolding lookup
  AllAnnounced-after_posted [] id h = cc
  AllAnnounced-after_posted (p ∷ history) id h =
      AllAnnounced-step p history (after_posted history) (AllAnnounced-after_posted history) id h
