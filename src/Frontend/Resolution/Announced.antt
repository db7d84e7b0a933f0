-- ===== src/Frontend/Resolution/Announced.antt =====
-- The cards that `applyCardResolution` publishes (agent/src/backend/SocketFrontend.cpp).
use libre_darwin.Base.{
  ℕ, String, ◌≡◌, refl, ap, Option, none, some, List, [], ◌∷◌, true, map, is_some, All, All-append,
  if-either,
}
use libre_darwin.Transport.Maps.{NumberMap, lookup}
use libre_darwin.Transport.Presence.{
  CoreCard, PresenceEvent, PresenceRoster, publish_card, withdraw,
}
use libre_darwin.Frontend.Resolution.{
  CardProbe, Policy, PendingCard, Presence, PresenceCall, probe_queued, retry_set, card_published,
  broadcast, reader_held, reader_dropped, on_reader_published, on_withdrawn, schedule_card_resolve,
  retry, apply_card_resolution, resolve, resolve_pending, publish_resolved, refined, hold_calls,
  drop_calls, probe_calls,
}
use libre_darwin.Frontend.Resolution.Posted.{
  Posted, published_reader, published_card, withdrawn, probed, retried, is_announced, step,
  after_posted, calls_in, AllAnnounced-after_posted,
}

module _ (policy : Policy) where
  -- What must hold for a call.
  abbrev pub IsTimely : List Posted → PresenceCall → Type 0
  IsTimely history (card_published card) = is_announced card.id history ≡ true
  IsTimely history _ = Unit

  broadcast-IsTimely :
      (history : List Posted) (events : List PresenceEvent)
      → All (IsTimely history) (map broadcast events)
  broadcast-IsTimely history [] = tt
  broadcast-IsTimely history (e ∷ events) = (tt, broadcast-IsTimely history events)

  hold_calls-IsTimely :
      (history : List Posted) (card : CoreCard) (probe : CardProbe) (roster : PresenceRoster)
      → All (IsTimely history) (hold_calls policy card probe roster)
  unfolding hold_calls
  hold_calls-IsTimely history card probe roster =
      if-either (All (IsTimely history)) (policy.holds_reader probe roster card.id)
        (reader_held card.reader ∷ []) [] (tt, tt) tt

  drop_calls-IsTimely :
      (history : List Posted) (object : ℕ) (names : NumberMap String)
      → All (IsTimely history) (drop_calls object names)
  unfolding drop_calls
  drop_calls-IsTimely history object names =
      if-either (All (IsTimely history)) (is_some (lookup object names))
        (reader_dropped object ∷ []) [] (tt, tt) tt

  probe_calls-IsTimely :
      (history : List Posted) (reader : ℕ) (name : String)
      → All (IsTimely history) (probe_calls policy reader name)
  unfolding probe_calls
  probe_calls-IsTimely history reader name =
      if-either (All (IsTimely history)) (policy.probe_on_worker reader name)
        (probe_queued reader name ∷ []) (retry_set policy.first_delay ∷ []) (tt, tt) (tt, tt)

  publish_resolved-IsTimely :
      (history : List Posted) (card : CoreCard) (probe : CardProbe) (s : Presence)
      → is_announced card.id history ≡ true
      → All (IsTimely history) (calls_in policy (publish_resolved policy card probe s))
  unfolding publish_resolved
  publish_resolved-IsTimely history card probe s h =
      let (registry, events) = publish_card (refined policy card probe) s.registry in
      (
        h,
        All-append (IsTimely history) (map broadcast events)
            (hold_calls policy card probe registry.roster) (broadcast-IsTimely history events)
            (hold_calls-IsTimely history card probe registry.roster),
      )

  resolve-IsTimely :
      (history : List Posted) (card : CoreCard) (probe : CardProbe) (o : Option PendingCard)
      → lookup card.id (after_posted policy history).pending_cards ≡ o
      → All
          (IsTimely history)
          (calls_in policy (resolve policy card probe o (after_posted policy history)))
  resolve-IsTimely history card probe none e = tt
  resolve-IsTimely history card probe (some p) e = by_policy (policy.retry_after probe p.attempts)
    where
      announced : is_announced card.id history ≡ true
      announced = let h = AllAnnounced-after_posted policy history in h card.id (ap is_some e)

      by_policy :
          (r : Option ℕ × ℕ)
          → All (IsTimely history) (
              calls_in policy (resolve_pending policy card probe p r (after_posted policy history)))
      by_policy (some delay, attempts) = (tt, tt)
      by_policy (none, attempts) = publish_resolved-IsTimely history card probe _ announced

  -- At any point of any history, a card is published to the clients only if it was announced and not
  -- withdrawn since, however late the probe or a retry of it comes.
  pub step-IsTimely :
      (p : Posted) (history : List Posted)
      → All (IsTimely history) (calls_in policy (step policy p (after_posted policy history)))
  unfolding on_reader_published on_withdrawn schedule_card_resolve retry apply_card_resolution
  step-IsTimely (published_reader reader) history = broadcast-IsTimely history _
  step-IsTimely (published_card card) history = probe_calls-IsTimely history _ _
  step-IsTimely (withdrawn object) history =
      let s = after_posted policy history in
      let (registry, events) = withdraw object s.registry in
      All-append (IsTimely history) (drop_calls object s.reader_names) (map broadcast events)
        (drop_calls-IsTimely history object s.reader_names) (broadcast-IsTimely history events)
  step-IsTimely (probed card probe) history = resolve-IsTimely history card probe _ refl
  step-IsTimely (retried card) history =
      let s = after_posted policy history in
      if-either (λ o. All (IsTimely history) (calls_in policy o)) _
        (schedule_card_resolve policy card s) (s, []) (probe_calls-IsTimely history _ _) tt
