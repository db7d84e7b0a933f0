-- ===== src/Tests/Hosts.antt =====
-- The listener, the card resolution, the instance lock and the operation channel at concrete values.
use libre_darwin.Base.{
  ltb, ℕ, zero, ◌≤◌, ◌≡◌, refl, none, some, List, [], ◌∷◌, ◌++◌, Bool, true, false, All,
}
use libre_darwin.Transport.Presence.{CoreCard}
use libre_darwin.Transport.Listener.{ListenerEvent, path_checked, source_cancelled, start, run}
use libre_darwin.Transport.Listener.Invariant.{IsSound, run-IsSound}
use libre_darwin.Transport.Listener.Recovery.{failed_checks, IsServing, run-IsServing}
use libre_darwin.Frontend.Resolution.{CardProbe, Policy}
use libre_darwin.Frontend.Resolution.Posted.{published_card, probed, step, after_posted, calls_in}
use libre_darwin.Frontend.Resolution.Announced.{IsTimely, step-IsTimely}
use libre_darwin.Frontend.SignOptions.{Document}
use libre_darwin.OperationChannel.{
  Photo, BatchRow, photos, batch, emit_result, photo_bytes, photo_item, photo_items, row_bytes,
  batch_row, batch_rows,
}
use libre_darwin.OperationChannel.Descriptors.{delivery, emit_result-delivery}
use libre_darwin.InstanceLock as InstanceLock
use libre_darwin.InstanceLock.{
  World, Reach, begun, moved, open_created, lock_granted, path_named, becomes, opened, locked,
  holding,
}
use libre_darwin.InstanceLock.Exclusion.{Reach-exclusive}
use libre_darwin.InstanceLock.Termination.{steps_of, steps_of-le}

abbrev card : CoreCard
card = record {
  id = 20;
  reader = 10;
  capabilities = 3;
  pre_read_auth = 0;
  card_type = "";
  atr_hex = "3B";
}

abbrev probe : CardProbe
probe = record { capabilities = 3; pre_read_auth = 0; card_type = "eID"; failure = none }

abbrev policy : Policy
policy = record {
  retry_after = λ outcome attempts. (none, attempts);
  no_attempts = 0;
  first_delay = 250;
  probe_on_worker = λ reader name. true;
  holds_reader = λ outcome roster id. false;
}

step-IsTimely_example : All (IsTimely policy (published_card card ∷ [])) (
    calls_in policy
      (step policy (probed card probe) (after_posted policy (published_card card ∷ []))))
step-IsTimely_example = step-IsTimely policy (probed card probe) (published_card card ∷ [])

-- The path names another file.
abbrev names_other : ℕ → Bool
names_other _ = false

abbrev replaced : List ListenerEvent
replaced = path_checked names_other none ∷ source_cancelled none ∷ []

run-IsSound_example : IsSound (run replaced (start 3))
run-IsSound_example = run-IsSound 3 replaced

fresh_listener : IsSound (start 3)
fresh_listener = run-IsSound 3 []

run-IsServing_example : IsServing 5 (
    run
      (path_checked names_other none ∷ source_cancelled none ∷ failed_checks names_other 2
        ++ path_checked names_other (some 5) ∷ [])
      (start 3))
run-IsServing_example = run-IsServing names_other 2 5 (start 3) fresh_listener refl refl

abbrev first_opened : World
first_opened = record (becomes (InstanceLock.start none) 0 (opened 7 1)) { path = some 1 }

abbrev first_locked : World
first_locked = becomes first_opened 0 (locked 7 1)

abbrev first_holding : World
first_holding = becomes first_locked 0 (holding 1)

abbrev first_holds : Reach (InstanceLock.start none) first_holding
first_holds =
    moved 0
      (moved 0 (moved 0 begun (open_created (InstanceLock.start none) 7 1 refl refl))
        (lock_granted first_opened 7 1 refl (λ q ne. rw ne (λ e. (cc)))))
      (path_named first_locked 7 1 refl refl)

Reach-exclusive_example : (0 ≡ zero) × (first_holding.path ≡ some 1)
Reach-exclusive_example = Reach-exclusive none first_holding 0 0 1 1 first_holds refl refl

steps_of-le_example : steps_of 0 first_holds ≤ 28
steps_of-le_example = steps_of-le none 0 first_holds

-- Two descriptors can be made, and none for an empty document.
abbrev made : ℕ → Document → Bool
made n [] = false
made n (b ∷ bytes) = ltb n 2

abbrev portraits : List Photo
portraits =
    record { key = "portrait"; bytes = 1 ∷ [] } ∷ record { key = "signature"; bytes = 2 ∷ [] } ∷ []

abbrev signed_rows : List BatchRow
signed_rows =
    record {
      display_name = "a.pdf";
      bytes = 37 ∷ [];
      meta = record { format = "pades"; level = "b-t"; tsa_used = true; chain_complete = true };
      code = 0;
    }
    ∷ []

emit_result-delivery_example :
    (emit_result made 41 (photos portraits)
      ≡ delivery made 41 photo_bytes photo_item photo_items portraits)
    × (emit_result made 41 (batch signed_rows)
        ≡ delivery made 41 row_bytes batch_row batch_rows signed_rows)
emit_result-delivery_example = emit_result-delivery made 41 portraits signed_rows
