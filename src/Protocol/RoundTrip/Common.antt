-- ===== src/Protocol/RoundTrip/Common.antt =====
-- What the round trips of the requests share.
use libre_darwin.Base.{ℕ, ◌<◌, ◌^◌, ◌≡◌, String, some, arith}
use libre_darwin.Wire.{Cbor, PrompterWire}
use libre_darwin.Wire.Maps.{Map, find}
use libre_darwin.Protocol.Messages.{prompter_protocol_version}
use libre_darwin.Protocol.Fields.{opt_uint, to_uint32}
use libre_darwin.Protocol.Fields.Laws.{
  shown_text, shown_uint, opt_text-shown_text, opt_uint-shown_uint, find_text-text, top_map-encode,
  opt_announced_version-uint,
}
use libre_darwin.Protocol.Decode.Requests.{
  opt_display_fields, parse_tagged, parse_request_map, parse_prompter_request,
}

pub to_uint32_of_lt : (n : ℕ) → n < 2 ^ 32 → to_uint32 n ≡ n
to_uint32_of_lt n h = omega arith

pub opt_uint-narrow :
    (c : Cbor) (m : Map c.Value) (k : String) (n : ℕ)
    → find k m ≡ shown_uint c n
    → n < 2 ^ 32
    → opt_uint c m k ≡ some n
opt_uint-narrow c m k n h b = opt_uint-shown_uint c m k n h (omega arith)

module _ (w : PrompterWire) (c : Cbor) where
  -- A map that carries this build's version and a tag is parsed by its tag.
  pub parse_request_map-tagged :
      (m : Map c.Value) (t : String)
      → find "v" m ≡ some (c.uint prompter_protocol_version)
      → find "t" m ≡ some (c.text t)
      → parse_prompter_request w c (c.encode (c.of_map m)) ≡ parse_tagged w c t m
  unfolding parse_prompter_request parse_request_map
  parse_request_map-tagged m t hv ht = rw (
    top_map-encode c m,
    opt_announced_version-uint c m 2 (omega arith) hv,
    find_text-text c m "t" t ht,
  )

module _ (c : Cbor) (m : Map c.Value) (title description requester artifact : String) where
  pub opt_display_fields-shown :
      find "title" m ≡ shown_text c title
      → find "description" m ≡ shown_text c description
      → find "requester" m ≡ shown_text c requester
      → find "artifact" m ≡ shown_text c artifact
      → opt_display_fields c m
        ≡ some (record {
          title = title;
          description = description;
          requester = requester;
          artifact = artifact;
        })
  unfolding opt_display_fields
  opt_display_fields-shown ht hd hq ha = rw (
    opt_text-shown_text c m "title" title ht,
    opt_text-shown_text c m "description" description hd,
    opt_text-shown_text c m "requester" requester hq,
    opt_text-shown_text c m "artifact" artifact ha,
  )
