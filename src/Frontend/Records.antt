-- ===== src/Frontend/Records.antt =====
-- Who owns a running operation and a signed document (agent/src/backend/SocketFrontend.cpp).
use libre_darwin.Base.{ℕ, Option, none, some, List, [], ◌∷◌, Bool, false, ◌==◌, if◌then◌else◌}
use libre_darwin.Transport.Maps.{NumberMap, lookup, assign, erase}
use libre_darwin.Frontend.Errors.{no_result, communication_error}
use libre_darwin.Frontend.State.{
  Frontend, SignRecord, SignedArtifact, cancelled, ack, sign_recovery,
}
use libre_darwin.Frontend.Gates.{Services, Outcome, after, reply, reply_error}

-- `std::erase_if` on a map.
unfoldable pub erase_if : {A : Type 0} → (A → Bool) → NumberMap A → NumberMap A
erase_if p [] = []
erase_if p ((k, v) ∷ m) = let rest = erase_if p m in if p v then rest else (k, v) ∷ rest

-- `m_confirmsInFlight.erase`
unfoldable pub erase_caller : ℕ → List ℕ → List ℕ
erase_caller c [] = []
erase_caller c (d ∷ ds) = let rest = erase_caller c ds in if d == c then rest else d ∷ rest

abbrev pub is_owner : Option ℕ → ℕ → Bool
is_owner none caller = false
is_owner (some owner) caller = owner == caller

-- The record that answers a caller: its own.
abbrev pub owned_record : Option SignRecord → ℕ → Option SignedArtifact
owned_record none caller = none
owned_record (some r) caller = if r.owner == caller then some r.artifact else none

module _ {V : Type 0} where
  unfoldable pub handle_cancel : ℕ → ℕ → Frontend → Outcome V
  handle_cancel op caller s =
      if is_owner (lookup op s.op_owners) caller
      then after (cancelled op) (reply ack s)
      else reply ack s

  unfoldable pub handle_get_sign_result : Services → ℕ → ℕ → Frontend → Outcome V
  handle_get_sign_result services op caller s =
      elim (owned_record (lookup op s.sign_results) caller) [
        | none ↦ reply_error no_result s
        | some artifact ↦
            if services.anon_fd_made artifact.bytes
            then reply (sign_recovery artifact.meta artifact.bytes) s
            else reply_error communication_error s
      ]

-- Posted to the loop by a worker: the signed document, its eviction, and the end of an operation.
unfoldable pub stash_sign_artifact : ℕ → ℕ → SignedArtifact → Frontend → Frontend
stash_sign_artifact op owner artifact s = record s {
  sign_results = assign op (record { artifact = artifact; owner = owner }) s.sign_results;
}

unfoldable pub evict_sign_result : ℕ → Frontend → Frontend
evict_sign_result op s = record s { sign_results = erase op s.sign_results }

unfoldable pub op_finished : ℕ → Frontend → Frontend
op_finished op s = record s { op_owners = erase op s.op_owners }

unfoldable pub on_client_disconnected : ℕ → Frontend → Frontend
unfolding erase_if erase_caller
on_client_disconnected caller s = record s {
  op_owners = erase_if (λ owner. owner == caller) s.op_owners;
  sign_results = erase_if (λ (r : SignRecord). r.owner == caller) s.sign_results;
  confirms_in_flight = erase_caller caller s.confirms_in_flight;
}
