-- ===== src/Frontend/Resolution.antt =====
-- The deferred publication of a card (agent/src/backend/SocketFrontend.cpp): an announced card waits
-- for a probe of its capabilities, and is published when the probe is final. Everything here runs on the
-- loop. The attempts that the policy counts for a card are a number.
pub mod Posted
pub mod Announced
use libre_darwin.Base.{
  ℕ, String, Option, none, some, List, [], ◌∷◌, Bool, true, false, map, if◌then◌else◌, is_some,
  ◌==◌, ◌++◌,
}
use libre_darwin.Transport.Maps.{NumberMap, lookup, assign, erase}
use libre_darwin.Transport.Presence.{
  CoreReader, CoreCard, Registry, PresenceRoster, PresenceEvent, publish_reader, publish_card,
  withdraw,
}

-- `Agent::CardProbe`, with the kind of a failed opening where it failed.
pub record CardProbe : Type 0 where
  pub capabilities : ℕ
  pub pre_read_auth : ℕ
  pub card_type : String
  pub failure : Option ℕ

-- `OpenError::Kind::SessionRefused`, and `detail::isRefusedSession`.
pub is_refused_session : ℕ → ℕ → Bool
is_refused_session session_refused kind = kind == session_refused

-- `CardResolutionPolicy`, and whether the reader's worker took the probe: how long to wait before
-- another attempt, if one is due, with the attempts counted; and the hold on a reader.
pub record Policy : Type 0 where
  pub retry_after : CardProbe → ℕ → Option ℕ × ℕ
  pub no_attempts : ℕ
  pub first_delay : ℕ
  pub probe_on_worker : ℕ → String → Bool
  pub holds_reader : CardProbe → PresenceRoster → ℕ → Bool

pub record PendingCard : Type 0 where
  pub card : CoreCard
  pub attempts : ℕ

-- `m_pendingCards`, `m_readerNames`, and the transport's presence.
pub record Presence : Type 0 where
  pub pending_cards : NumberMap PendingCard
  pub reader_names : NumberMap String
  pub registry : Registry

pub data PresenceCall : Type 0 where
  probe_queued : (reader : ℕ) (name : String) → PresenceCall
  retry_set : (delay : ℕ) → PresenceCall
  card_published : CoreCard → PresenceCall
  broadcast : PresenceEvent → PresenceCall
  reader_held reader_dropped : (reader : ℕ) → PresenceCall

abbrev pub name_or_empty : Option String → String
name_or_empty none = ""
name_or_empty (some name) = name

abbrev attempts_or : ℕ → Option PendingCard → ℕ
attempts_or zero_attempts none = zero_attempts
attempts_or zero_attempts (some p) = p.attempts

pub on_reader_published : CoreReader → Presence → Presence × List PresenceCall
on_reader_published reader s =
    let (registry, events) = publish_reader reader s.registry in
    (
      record s { reader_names = assign reader.id reader.name s.reader_names; registry = registry },
      map broadcast events,
    )

-- A reader takes its worker with it.
unfoldable pub drop_calls : ℕ → NumberMap String → List PresenceCall
drop_calls object names = if is_some (lookup object names) then reader_dropped object ∷ [] else []

pub on_withdrawn : ℕ → Presence → Presence × List PresenceCall
on_withdrawn object s =
    let (registry, events) = withdraw object s.registry in
    (
      record {
        pending_cards = erase object s.pending_cards;
        reader_names = erase object s.reader_names;
        registry = registry;
      },
      drop_calls object s.reader_names ++ map broadcast events,
    )

module _ (policy : Policy) where
  -- The probe on the reader's worker, or another try when it takes none.
  unfoldable pub probe_calls : ℕ → String → List PresenceCall
  probe_calls reader name =
      if policy.probe_on_worker reader name
      then probe_queued reader name ∷ []
      else retry_set policy.first_delay ∷ []

  unfoldable pub hold_calls : CoreCard → CardProbe → PresenceRoster → List PresenceCall
  hold_calls card probe roster =
      if policy.holds_reader probe roster card.id then reader_held card.reader ∷ [] else []

  pub schedule_card_resolve : CoreCard → Presence → Presence × List PresenceCall
  schedule_card_resolve card s =
      let name = name_or_empty (lookup card.reader s.reader_names) in
      let pending : PendingCard = record {
        card = card;
        attempts = attempts_or policy.no_attempts (lookup card.id s.pending_cards);
      } in
      (
        record s { pending_cards = assign card.id pending s.pending_cards },
        probe_calls card.reader name,
      )

  -- The timer of a retry: a card that was withdrawn meanwhile is dropped.
  pub retry : CoreCard → Presence → Presence × List PresenceCall
  retry card s =
      if is_some (lookup card.id s.pending_cards) then schedule_card_resolve card s else (s, [])

  abbrev pub refined : CoreCard → CardProbe → CoreCard
  refined card probe = record card {
    capabilities = probe.capabilities;
    pre_read_auth = probe.pre_read_auth;
    card_type = probe.card_type;
  }

  -- A final probe: the card is published, and its reader held where the policy says so.
  pub publish_resolved : CoreCard → CardProbe → Presence → Presence × List PresenceCall
  publish_resolved card probe s =
      let (registry, events) = publish_card (refined card probe) s.registry in
      (
        record s { pending_cards = erase card.id s.pending_cards; registry = registry },
        card_published (refined card probe) ∷ map broadcast events
            ++ hold_calls card probe registry.roster,
      )

  -- What a probe of a pending card decides.
  abbrev pub resolve_pending :
      CoreCard → CardProbe → PendingCard → Option ℕ × ℕ → Presence → Presence × List PresenceCall
  resolve_pending card probe p (some delay, attempts) s = (
    record s { pending_cards = assign card.id (record p { attempts = attempts }) s.pending_cards },
    retry_set delay ∷ [],
  )
  resolve_pending card probe p (none, attempts) s = publish_resolved card probe s

  abbrev pub resolve :
      CoreCard → CardProbe → Option PendingCard → Presence → Presence × List PresenceCall
  resolve card probe none s = (s, [])
  resolve card probe (some p) s =
      resolve_pending card probe p (policy.retry_after probe p.attempts) s

  pub apply_card_resolution : CoreCard → CardProbe → Presence → Presence × List PresenceCall
  apply_card_resolution card probe s = resolve card probe (lookup card.id s.pending_cards) s
