-- ===== src/Transport/Presence/History.antt =====
-- The presence over its whole history (SocketTransport.cpp).
use libre_darwin.Base.{ℕ, String, List, [], ◌∷◌}
use libre_darwin.Transport.Presence.{
  CoreReader, CoreCard, PropertyDelta, Registry, publish_reader, publish_card, withdraw,
}
use libre_darwin.Transport.Presence.Updates.{relabel_reader, update_properties, update_card_type}
use libre_darwin.Transport.Presence.Invariant.{IsValid, NoCard, NoReader, publish_reader-IsValid}
use libre_darwin.Transport.Presence.Cards.{publish_card-IsValid, withdraw-IsValid}
use libre_darwin.Transport.Presence.Roster.{
  relabel_reader-IsValid, update_properties-IsValid, update_card_type-IsValid,
}

-- The calls of the presence model.
pub data PresenceChange : Type 0 where
  reader_published : CoreReader → PresenceChange
  card_published : CoreCard → PresenceChange
  withdrawn : (object : ℕ) → PresenceChange
  relabelled : CoreReader → PresenceChange
  properties_changed : (reader : ℕ) → PropertyDelta → PresenceChange
  card_type_resolved : (card : ℕ) → String → PresenceChange

abbrev pub change : PresenceChange → Registry → Registry
change (reader_published reader) s = (publish_reader reader s).0
change (card_published card) s = (publish_card card s).0
change (withdrawn object) s = (withdraw object s).0
change (relabelled reader) s = (relabel_reader reader s).0
change (properties_changed reader delta) s = (update_properties reader delta s).0
change (card_type_resolved card card_type) s = (update_card_type card card_type s).0

-- An id that is published as a reader is no card's, and the other way round.
abbrev pub Fits : PresenceChange → Registry → Type 0
Fits (reader_published reader) s = NoCard reader.id s
Fits (card_published card) s = NoReader card.id s
Fits _ s = Unit

abbrev pub run_changes : List PresenceChange → Registry → Registry
run_changes [] s = s
run_changes (e ∷ changes) s = run_changes changes (change e s)

abbrev pub AllFit : List PresenceChange → Registry → Type 0
AllFit [] s = Unit
AllFit (e ∷ changes) s = Fits e s × AllFit changes (change e s)

change-IsValid : (e : PresenceChange) (s : Registry) → IsValid s → Fits e s → IsValid (change e s)
change-IsValid (reader_published reader) s v f = publish_reader-IsValid reader s v f
change-IsValid (card_published card) s v f = publish_card-IsValid card s v f
change-IsValid (withdrawn object) s v f = withdraw-IsValid object s v
change-IsValid (relabelled reader) s v f = relabel_reader-IsValid s reader v
change-IsValid (properties_changed reader delta) s v f = update_properties-IsValid s reader delta v
change-IsValid (card_type_resolved card card_type) s v f =
    update_card_type-IsValid s card card_type v

-- Whatever readers and cards come, change and go, as long as no id stands for a reader and a card at
-- once, a valid presence stays valid: the handle maps are inverse, every published object has its
-- handle, every card its routing under its own id, and the roster is the one of the published objects.
pub run_changes-IsValid :
    (changes : List PresenceChange) (s : Registry)
    → IsValid s
    → AllFit changes s
    → IsValid (run_changes changes s)
run_changes-IsValid [] s v f = v
run_changes-IsValid (e ∷ changes) s v (f, fs) =
    run_changes-IsValid changes (change e s) (change-IsValid e s v f) fs
