-- ===== src/Frontend/Confirmations.antt =====
-- The life of a trust confirmation (agent/src/backend/SocketFrontend.cpp): a request puts a question
-- on the confirmation queue, a person answers it, its worker posts the answer to the loop, and the loop
-- applies or refuses the change; a client may go and the frontend may end at any point of it.
pub mod Asks
pub mod History
pub mod Changes
pub mod Consent
pub mod Counts
pub mod Continue
pub mod Flight
use libre_darwin.Base.{
  ℕ, zero, suc, Option, none, some, List, [], ◌∷◌, ◌++◌, Bool, true, false, if◌then◌else◌,
}
use libre_darwin.Wire.{Cbor, PrompterWire}
use libre_darwin.Protocol.Messages.{ConfirmReply}
use libre_darwin.Frontend.Request.{Inbound}
use libre_darwin.Frontend.State.{
  Frontend, Ask, Effect, asked_person, CscaAnchorStateReply, SignedArtifact,
}
use libre_darwin.Frontend.Gates.{Services}
use libre_darwin.Frontend.Records.{
  stash_sign_artifact, evict_sign_result, op_finished, on_client_disconnected,
}
use libre_darwin.Frontend.Trust.{continue_confirmed}
use libre_darwin.Frontend.Dispatch.{dispatch}

-- The frontend with its guard, the questions that stand before a person, and the answers that are
-- posted to the loop.
pub record Host (V Status : Type 0) : Type 0 where
  pub frontend : Frontend
  pub alive : Bool
  pub asking : List (Ask V)
  pub posted : List (Ask V × ConfirmReply Status)

-- An effect with the request that it is for: a handler has its connection and its number throughout, and
-- a confirmation's continuation holds those of the request that asked.
pub record Sent (V : Type 0) : Type 0 where
  pub conn_id : ℕ
  pub req : ℕ
  pub effect : Effect V

abbrev pub for_request : {V : Type 0} → ℕ → ℕ → List (Effect V) → List (Sent V)
for_request conn_id req [] = []
for_request conn_id req (e ∷ es) =
    record { conn_id = conn_id; req = req; effect = e } ∷ for_request conn_id req es

abbrev pub effects_of : {V : Type 0} → List (Sent V) → List (Effect V)
effects_of [] = []
effects_of (x ∷ xs) = x.effect ∷ effects_of xs

pub data Event (V Status : Type 0) : Type 0 where
  dispatched : Inbound V → Event V Status
  answered : ℕ → ConfirmReply Status → Event V Status
  continued : Event V Status
  disconnected : (caller : ℕ) → Event V Status
  stashed : (op owner : ℕ) → SignedArtifact → Event V Status
  evicted finished : (op : ℕ) → Event V Status
  destroyed : Event V Status

abbrev pub asks_in : {V : Type 0} → List (Effect V) → List (Ask V)
asks_in [] = []
asks_in (asked_person ask ∷ es) = ask ∷ asks_in es
asks_in (_ ∷ es) = asks_in es

abbrev pub put_back : {A : Type 0} → A → Option (A × List A) → Option (A × List A)
put_back x none = none
put_back x (some (y, ys)) = some (y, x ∷ ys)

-- The question at a place of the queue, and those that stay.
unfoldable pub take_at : {A : Type 0} → ℕ → List A → Option (A × List A)
take_at n [] = none
take_at zero (x ∷ xs) = some (x, xs)
take_at (suc n) (x ∷ xs) = put_back x (take_at n xs)

module _ (c : Cbor) (w : PrompterWire)
    (encode_csca_anchor_state : CscaAnchorStateReply → c.Value) where
  abbrev pub change :
      (Frontend → Frontend) → Host c.Value w.Status → Host c.Value w.Status × List (Sent c.Value)
  change f h = (record h { frontend = f h.frontend }, [])

  -- A request reaches a frontend that is alive.
  unfoldable pub on_request :
      Services
      → Inbound c.Value
      → Host c.Value w.Status
      → Host c.Value w.Status × List (Sent c.Value)
  on_request services m h =
      let (s, es) = dispatch c services encode_csca_anchor_state m h.frontend in
      (record h { frontend = s; asking = h.asking ++ asks_in es }, for_request m.conn_id m.req es)

  -- The block on the confirmation queue, once `confirm` returned.
  pub on_answer : ℕ → ConfirmReply w.Status → Host c.Value w.Status → Host c.Value w.Status
  on_answer n verdict h = elim (take_at n h.asking) [
    | none ↦ h
    | some (ask, rest) ↦
        if h.alive
        then record h { asking = rest; posted = h.posted ++ (ask, verdict) ∷ [] }
        else record h { asking = rest }
  ]

  -- The continuation on the loop, which the guard drops when the frontend is gone.
  abbrev pub on_posted :
      Services
      → List (Ask c.Value × ConfirmReply w.Status)
      → Host c.Value w.Status
      → Host c.Value w.Status × List (Sent c.Value)
  on_posted services [] h = (h, [])
  on_posted services ((ask, verdict) ∷ rest) h =
      if h.alive
      then (let (s, es) = continue_confirmed c services w verdict ask h.frontend in
          (record h { frontend = s; posted = rest }, for_request ask.conn_id ask.req es))
      else (record h { posted = rest }, [])

  abbrev pub step :
      Services
      → Event c.Value w.Status
      → Host c.Value w.Status
      → Host c.Value w.Status × List (Sent c.Value)
  step services (dispatched m) h = if h.alive then on_request services m h else (h, [])
  step services (answered n verdict) h = (on_answer n verdict h, [])
  step services continued h = on_posted services h.posted h
  step services (disconnected caller) h = change (on_client_disconnected caller) h
  step services (stashed op owner artifact) h = change (stash_sign_artifact op owner artifact) h
  step services (evicted op) h = change (evict_sign_result op) h
  step services (finished op) h = change (op_finished op) h
  step services destroyed h = (record h { alive = false }, [])

  abbrev pub start : Host c.Value w.Status
  start = record {
    frontend = record { op_owners = []; sign_results = []; confirms_in_flight = [] };
    alive = true;
    asking = [];
    posted = [];
  }

  -- Events, the latest first; what the services answer may change with each.
  abbrev pub after_events : List (Services × Event c.Value w.Status) → Host c.Value w.Status
  after_events [] = start
  after_events ((services, e) ∷ history) = let (h, _) = step services e (after_events history) in h
