-- ===== src/Client/Reset.antt =====
-- The start-up reset (`MacPrompterClient::reset` in agent/src/backend/MacPrompterClient.cpp): every
-- window that an earlier agent left standing is closed, within half a second.
use libre_darwin.Base.{
  ℕ, ◌*◌, ◌<◌, ◌≤◌, ◌^◌, max, ◌≡◌, refl, Option, none, some, List, [], ◌∷◌, Bool, true, not,
  if◌then◌else◌, value, unexpected, arith,
}
use libre_darwin.Wire.{Cbor, PrompterWire}
use libre_darwin.Protocol.Messages.{ResetDone}
use libre_darwin.Protocol.Encode.{prompt_reset_to_cbor}
use libre_darwin.Protocol.Decode.Replies.{parse_reset_done}
use libre_darwin.Protocol.RoundTrip.Confirm.{parse-prompt_reset}
use libre_darwin.Protocol.RoundTrip.Answers.{parse-reset_done}
use libre_darwin.Protocol.Decode.Requests.{parse_prompter_request}
use libre_darwin.Prompter.{Providers, Effect, sweep, serve, visit}
use libre_darwin.Client.{Received, frame}
use libre_darwin.Client.EndToEnd.{answering, reply_frame}

-- `kResetReplyBudgetMs` and `kMinReceiveBudgetUs`
abbrev pub reset_reply_budget_ms : ℕ
reset_reply_budget_ms = 500

abbrev pub min_receive_budget_us : ℕ
min_receive_budget_us = 1000

-- What the socket calls give. `left_us` is `waitReadable`'s answer, the rest of the budget in
-- microseconds, with 0 for a negative one; `timeout_set` is whether `setsockopt` took that many
-- microseconds, or refused them with EINVAL; `answer` is what `recvFrame` then gives.
pub record ResetLink (Body : Type 0) : Type 0 where
  pub connected : Bool
  pub peer_verified : Bool
  pub frame_sent : Bool
  pub left_us : Option ℕ
  pub timeout_set : ℕ → Bool
  pub answer : Body → Received Body

-- How a reset ends, one constructor for each line it logs.
pub data ResetOutcome : Type 0 where
  not_running unverified not_sent no_answer not_bounded no_frame not_readable : ResetOutcome
  windows_closed : ℕ → ResetOutcome

-- `tv_usec`
pub receive_timeout : ℕ → ℕ
receive_timeout left = max left min_receive_budget_us

-- Whatever rest of the reset's budget is left, the wait asked of the
-- socket is never the 0 that would mean no limit, and fits the microsecond field.
pub receive_timeout-bounds :
    (left : ℕ)
    → left ≤ reset_reply_budget_ms * 1000
    → (1000 ≤ receive_timeout left) × (receive_timeout left < 1000000)
unfolding receive_timeout
receive_timeout-bounds left h = (omega arith, omega arith)

module _ (w : PrompterWire) (c : Cbor) where
  pub read_reset : Received c.Body → ResetOutcome
  read_reset (frame body) = elim (parse_reset_done w c body) [
    | unexpected e ↦ not_readable
    | value done ↦ windows_closed done.closed
  ]
  read_reset _ = no_frame

  pub await_reset : (link : ResetLink c.Body) → c.Body → Option ℕ → ResetOutcome
  unfolding read_reset receive_timeout
  await_reset link body none = no_answer
  await_reset link body (some left) =
      if not (link.timeout_set (receive_timeout left))
      then not_bounded
      else read_reset (link.answer body)

  pub reset : ResetLink c.Body → ResetOutcome × List c.Body
  unfolding await_reset
  reset link =
      let body = c.encode (prompt_reset_to_cbor w c) in
      if not link.connected
      then (not_running, [])
      else if not link.peer_verified
      then (unverified, [])
      else if not link.frame_sent
      then (not_sent, body ∷ [])
      else (await_reset link body link.left_us, body ∷ [])

  read_reset-parsed :
      (body : c.Body) {r : ResetDone}
      → parse_reset_done w c body ≡ value r
      → read_reset (frame body) ≡ windows_closed r.closed
  unfolding read_reset
  read_reset-parsed body h = rw (h, read_reset) refl

  -- The sweeps among the helper's effects, each by the windows it closed.
  abbrev pub sweeps : List (Effect w.Kind w.Status) → List ℕ
  sweeps [] = []
  sweeps (sweep closed ∷ es) = closed ∷ sweeps es
  sweeps (_ ∷ es) = sweeps es

  -- With this build's helper at the other end and an answer within the budget, the reset sends one
  -- request, which makes the helper sweep its windows once, and learns how many the sweep closed.
  pub reset-answered :
      (p : Providers w.Kind w.Status) (left : ℕ)
      → p.reset < 2 ^ 32
      → let (outcome, sent) = reset (record {
        connected = true;
        peer_verified = true;
        frame_sent = true;
        left_us = some left;
        timeout_set = λ _. true;
        answer = answering w c p;
      }) in
        let body = c.encode (prompt_reset_to_cbor w c) in
        (outcome ≡ windows_closed p.reset)
        × (sent ≡ body ∷ [])
        × (sweeps (serve w p (parse_prompter_request w c body)) ≡ p.reset ∷ [])
  unfolding reset answering reply_frame serve visit
  reset-answered p left fits =
      rw (parse-prompt_reset w c)
        (read_reset-parsed _ (parse-reset_done w c (record { closed = p.reset }) fits), refl, refl)
