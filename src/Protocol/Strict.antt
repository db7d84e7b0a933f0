-- ===== src/Protocol/Strict.antt =====
-- What the reply parsers of wire/PrompterProtocol.cpp guarantee of whatever arrives.
use libre_darwin.Base.{ℕ, ◌≤◌, ◌≡◌, ◌≢◌, List, [], arith, value, length, String}
use libre_darwin.Wire.{Cbor, PrompterWire}
use libre_darwin.Wire.Maps.{Map}
use libre_darwin.Protocol.Messages.{PromptReply, MultiPromptReply}
use libre_darwin.Protocol.Fields.{required_secret}
use libre_darwin.Protocol.Decode.Replies.{parse_prompt_reply_map, parse_multi_prompt_reply_map}

module _ (w : PrompterWire) (c : Cbor) where
  required_secret-le :
      (m : Map c.Value) (k : String) (b : List ℕ)
      → required_secret c w.max_secret_bytes m k ≡ value b
      → length b ≤ w.max_secret_bytes
  unfolding required_secret
  required_secret-le m k b h = ground arith

  -- Whatever map arrives, a parsed secret reply holds no more bytes than the cap, and with any status
  -- but Ok it holds none.
  pub parse_prompt_reply_map-secret :
      (m : Map c.Value) {r : PromptReply w.Status}
      → parse_prompt_reply_map w c m ≡ value r
      → (length r.secret ≤ w.max_secret_bytes) × (r.status ≢ w.ok → r.secret ≡ [])
  unfolding parse_prompt_reply_map
  parse_prompt_reply_map-secret m {r} h = ground (arith, required_secret-le m "secret" r.secret)

  -- Whatever map arrives, each secret of a parsed change reply holds no more bytes than the cap, and
  -- with any status but Ok both are empty.
  pub parse_multi_prompt_reply_map-secrets :
      (m : Map c.Value) {r : MultiPromptReply w.Status}
      → parse_multi_prompt_reply_map w c m ≡ value r
      → (length r.primary ≤ w.max_secret_bytes)
        × (length r.secondary ≤ w.max_secret_bytes)
        × (r.status ≢ w.ok → (r.primary ≡ []) × (r.secondary ≡ []))
  unfolding parse_multi_prompt_reply_map
  parse_multi_prompt_reply_map-secrets m {r} h = ground (
    arith,
    required_secret-le m "primary" r.primary,
    required_secret-le m "secondary" r.secondary,
  )
