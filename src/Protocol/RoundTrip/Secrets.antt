-- ===== src/Protocol/RoundTrip/Secrets.antt =====
-- `RequestSecrets`, encoded and parsed again.
use libre_darwin.Base.{◌<◌, ◌^◌, ◌≡◌, some, value}
use libre_darwin.Wire.{Cbor, PrompterWire}
use libre_darwin.Wire.Maps.{find}
use libre_darwin.Protocol.Messages.{RequestSecrets, request_secrets, prompter_protocol_version}
use libre_darwin.Protocol.Fields.Laws.{
  shown_text, shown_uint, finds, opt_text-shown_text, find_text-text,
}
use libre_darwin.Protocol.Encode.{request_secrets_map, request_secrets_to_cbor}
use libre_darwin.Protocol.Decode.Requests.{
  opt_display_fields, parse_tagged, parse_prompter_request, parse_request_secrets,
}
use libre_darwin.Protocol.RoundTrip.Common.{
  to_uint32_of_lt, opt_uint-narrow, parse_request_map-tagged, opt_display_fields-shown,
}

-- The numbers of a change request are `std::uint32_t`s.
pub record SecretsFitUint32 (r : RequestSecrets) : Type 0 where
  pub primary_min_length : r.primary_min_length < 2 ^ 32
  pub primary_max_length : r.primary_max_length < 2 ^ 32
  pub new_min_length : r.new_min_length < 2 ^ 32
  pub new_max_length : r.new_max_length < 2 ^ 32
  pub deadline_ms : r.deadline_ms < 2 ^ 32

module _ (w : PrompterWire) (c : Cbor) (r : RequestSecrets) where
  request_secrets_display :
      opt_display_fields c (request_secrets_map w c r)
      ≡ some (record {
        title = r.title;
        description = r.description;
        requester = r.requester;
        artifact = r.artifact;
      })
  unfolding request_secrets_map find
  request_secrets_display =
      opt_display_fields-shown c _ r.title r.description r.requester r.artifact (simp finds)
        (simp finds) (simp finds) (simp finds)

  request_secrets_found :
      (find "v" (request_secrets_map w c r) ≡ some (c.uint prompter_protocol_version))
      × (find "t" (request_secrets_map w c r) ≡ some (c.text "RequestSecrets"))
      × (find "kind" (request_secrets_map w c r) ≡ some (c.text r.kind))
      × (find "primaryMinLength" (request_secrets_map w c r) ≡ shown_uint c r.primary_min_length)
      × (find "primaryMaxLength" (request_secrets_map w c r) ≡ shown_uint c r.primary_max_length)
      × (find "newMinLength" (request_secrets_map w c r) ≡ shown_uint c r.new_min_length)
      × (find "newMaxLength" (request_secrets_map w c r) ≡ shown_uint c r.new_max_length)
      × (find "promptId" (request_secrets_map w c r) ≡ shown_text c r.prompt_id)
      × (find "deadlineMs" (request_secrets_map w c r) ≡ shown_uint c r.deadline_ms)
  unfolding request_secrets_map find
  request_secrets_found = (
    (simp finds),
    (simp finds),
    (simp finds),
    (simp finds),
    (simp finds),
    (simp finds),
    (simp finds),
    (simp finds),
    (simp finds),
  )

  -- A change request whose lengths and deadline fit 32 bits comes back as it was sent.
  pub parse-request_secrets :
      SecretsFitUint32 r
      → parse_prompter_request w c (c.encode (request_secrets_to_cbor w c r))
        ≡ value (request_secrets r)
  unfolding request_secrets_to_cbor parse_tagged parse_request_secrets
  parse-request_secrets h =
      let m = request_secrets_map w c r in
      let f = request_secrets_found in
      rw (
        parse_request_map-tagged w c m "RequestSecrets" f.0 f.1,
        find_text-text c m "kind" r.kind f.2,
        request_secrets_display,
        opt_uint-narrow c m "primaryMinLength" r.primary_min_length f.3 h.primary_min_length,
        opt_uint-narrow c m "primaryMaxLength" r.primary_max_length f.4 h.primary_max_length,
        opt_uint-narrow c m "newMinLength" r.new_min_length f.5 h.new_min_length,
        opt_uint-narrow c m "newMaxLength" r.new_max_length f.6 h.new_max_length,
        opt_text-shown_text c m "promptId" r.prompt_id f.7,
        opt_uint-narrow c m "deadlineMs" r.deadline_ms f.8 h.deadline_ms,
        to_uint32_of_lt r.primary_min_length h.primary_min_length,
        to_uint32_of_lt r.primary_max_length h.primary_max_length,
        to_uint32_of_lt r.new_min_length h.new_min_length,
        to_uint32_of_lt r.new_max_length h.new_max_length,
        to_uint32_of_lt r.deadline_ms h.deadline_ms,
      )
