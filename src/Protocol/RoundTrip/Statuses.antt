-- ===== src/Protocol/RoundTrip/Statuses.antt =====
-- What the round trips of the replies share.
use libre_darwin.Base.{ℕ, String, ◌≤◌, ◌≡◌, List, some, arith, value, length, le→leb}
use libre_darwin.Wire.{Cbor, PrompterWire}
use libre_darwin.Wire.Maps.{Map, find}
use libre_darwin.Protocol.Messages.{prompter_protocol_version}
use libre_darwin.Protocol.Fields.{required_secret, opt_reply_version}
use libre_darwin.Protocol.Fields.Laws.{find_text-text, opt_announced_version-uint}
use libre_darwin.Protocol.Decode.Replies.{parse_status}

module _ (w : PrompterWire) (c : Cbor) (m : Map c.Value) where
  pub parse_status-shown :
      (s : w.Status)
      → find "status" m ≡ some (c.text (w.reply_status_token s))
      → parse_status w c m ≡ value s
  unfolding parse_status
  parse_status-shown s h = rw (
    find_text-text c m "status" (w.reply_status_token s) h,
    w.reply_status_from_token-reply_status_token s,
  )

  pub opt_reply_version-current :
      find "v" m ≡ some (c.uint prompter_protocol_version)
      → opt_reply_version c m ≡ value (some prompter_protocol_version)
  unfolding opt_reply_version
  opt_reply_version-current h = rw (opt_announced_version-uint c m 2 (omega arith) h)

  pub required_secret-bytes :
      (k : String) (b : List ℕ)
      → find k m ≡ some (c.bytes b)
      → length b ≤ w.max_secret_bytes
      → required_secret c w.max_secret_bytes m k ≡ value b
  unfolding required_secret
  required_secret-bytes k b h fits =
      rw (h, required_secret) (rw (c.as_bytes-bytes b, le→leb _ _ fits))
