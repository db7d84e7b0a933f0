-- ===== src/Protocol/Decode.antt =====
-- The parsers of wire/PrompterProtocol.cpp. Each fails closed: the first field that is missing,
-- mistyped, out of its vocabulary or too large ends the parse with an error.
pub mod Requests
pub mod Replies
use libre_darwin.Base.{ℕ, String, Option, none, some, ◌>>=◌, or_fail}
use libre_darwin.Wire.{Cbor}
use libre_darwin.Wire.Maps.{Map}
