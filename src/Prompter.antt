-- ===== src/Prompter.antt =====
-- The prompter's socket server (prompter/PrompterServer.cpp): who is accepted, and what one request
-- leads to. The providers, the peer check and the frame reassembly are what the composition root and
-- the agent library supply.
pub mod Connections
pub mod Answers
use libre_darwin.Base.{
  ℕ, suc, String, Option, none, some, List, [], ◌∷◌, Bool, true, false, ◌==◌, str_eq, if◌then◌else◌,
  Expected, value, unexpected,
}
use libre_darwin.Wire.{Cbor, PrompterWire}
use libre_darwin.Protocol.Messages.{
  PromptRequest, RequestSecrets, ConfirmAction, PrompterRequest, prompt_request, prompt_cancel,
  request_secrets, confirm_action, prompt_reset, PromptReply, MultiPromptReply, ConfirmReply,
  ResetDone, PrompterParseError, unsupported_version,
}
use libre_darwin.Protocol.Fields.{Parsed}
use libre_darwin.Protocol.Decode.Requests.{parse_prompter_request}

-- `SecretProvider`, `MultiSecretProvider`, `ConfirmProvider` and `ResetHandler`, each by what it answers.
pub record Providers (Kind Status : Type 0) : Type 0 where
  pub provider : PromptRequest Kind → PromptReply Status
  pub multi_provider : RequestSecrets → MultiPromptReply Status
  pub confirm_provider : ConfirmAction → ConfirmReply Status
  pub reset : ℕ

-- What the server does besides its own state: it raises a window (one constructor for each provider),
-- dismisses one, sweeps them and counts those it closed, or sends a reply on the request's connection.
pub data Effect (Kind Status : Type 0) : Type 0 where
  ask_secret : PromptRequest Kind → Effect Kind Status
  ask_secrets : RequestSecrets → Effect Kind Status
  ask_confirmation : ConfirmAction → Effect Kind Status
  dismiss : String → Effect Kind Status
  sweep : (closed : ℕ) → Effect Kind Status
  send_secret : PromptReply Status → Effect Kind Status
  send_secrets : MultiPromptReply Status → Effect Kind Status
  send_confirm : ConfirmReply Status → Effect Kind Status
  send_reset_done : ResetDone → Effect Kind Status

-- `m_connections`, by the ids of those whose read source is live, and `m_nextConnId`.
pub record Server : Type 0 where
  pub connections : List ℕ
  pub next_conn_id : ℕ

unfoldable pub has : ℕ → List ℕ → Bool
has id [] = false
has id (i ∷ ids) = let rest = has id ids in if i == id then true else rest

pub erase : ℕ → List ℕ → List ℕ
erase id [] = []
erase id (i ∷ ids) = let rest = erase id ids in if i == id then ids else i ∷ rest

pub close_connection : Server → ℕ → Server
unfolding erase
close_connection s id = record s { connections = erase id s.connections }

module _ (w : PrompterWire) where
  open w use {Kind, Status, error, unauthorized}

  pub unauthorized_reply : PromptReply Status
  unauthorized_reply = record {
    status = unauthorized;
    secret = [];
    user_message = "caller is not the agent";
    protocol_version = none;
  }

  pub unsupported_version_reply : PromptReply Status
  unsupported_version_reply = record {
    status = error;
    secret = [];
    user_message = "prompter protocol version not supported by this helper";
    protocol_version = none;
  }

  pub unsupported_confirmation : ConfirmReply Status
  unsupported_confirmation = record {
    status = error;
    user_message = "unsupported confirmation";
    protocol_version = none;
  }

  -- The `std::visit` over the request.
  unfoldable pub visit : Providers Kind Status → PrompterRequest Kind → List (Effect Kind Status)
  unfolding unsupported_confirmation
  visit p (prompt_cancel msg) = dismiss msg.prompt_id ∷ []
  visit p (prompt_request req) = ask_secret req ∷ send_secret (p.provider req) ∷ []
  visit p (request_secrets req) = ask_secrets req ∷ send_secrets (p.multi_provider req) ∷ []
  visit p (confirm_action req) =
      if str_eq req.kind "configure_trust"
      then ask_confirmation req ∷ send_confirm (p.confirm_provider req) ∷ []
      else send_confirm unsupported_confirmation ∷ []
  visit p prompt_reset =
      let closed = p.reset in sweep closed ∷ send_reset_done (record { closed = closed }) ∷ []

  -- A parsed request is served, one from a newer agent is answered, any other is dropped in silence.
  unfoldable pub serve :
      Providers Kind Status → Parsed (PrompterRequest Kind) → List (Effect Kind Status)
  unfolding visit unsupported_version_reply
  serve p (value r) = visit p r
  serve p (unexpected unsupported_version) = send_secret unsupported_version_reply ∷ []
  serve p (unexpected e) = []

  -- `acceptOne`: the peer's credentials, if they could be captured, and the peer check's answer.
  pub accept_one :
      {Credentials : Type 0}
      → (Credentials → Bool)
      → Option Credentials
      → Server
      → Server × List (Effect Kind Status)
  unfolding unauthorized_reply
  accept_one peer_auth none s = (s, send_secret unauthorized_reply ∷ [])
  accept_one peer_auth (some creds) s =
      if peer_auth creds
      then (
        record { connections = s.next_conn_id ∷ s.connections; next_conn_id = suc s.next_conn_id },
        [],
      )
      else (s, send_secret unauthorized_reply ∷ [])

  -- What `pump` read: its frames' bodies, and whether its status was Ok. Only the first frame is served,
  -- and the connection's read side is retired before it is.
  pub on_frames :
      (c : Cbor)
      → Providers Kind Status
      → Server
      → ℕ
      → List c.Body
      → Bool
      → Server × List (Effect Kind Status)
  unfolding serve close_connection
  on_frames c p s id [] true = (s, [])
  on_frames c p s id [] false = (close_connection s id, [])
  on_frames c p s id (body ∷ _) ok =
      (close_connection s id, serve p (parse_prompter_request w c body))

  pub on_read_ready :
      (c : Cbor)
      → Providers Kind Status
      → Server
      → ℕ
      → List c.Body
      → Bool
      → Server × List (Effect Kind Status)
  unfolding on_frames has
  on_read_ready c p s id frames ok =
      if has id s.connections then on_frames c p s id frames ok else (s, [])
