-- ===== src/Protocol/RoundTrip/Prompt.antt =====
-- `PromptRequest` (RequestSecret), encoded and parsed again.
use libre_darwin.Base.{◌<◌, ◌^◌, ◌≡◌, ◌≢◌, some, value, if_neg}
use libre_darwin.Wire.{Cbor, PrompterWire}
use libre_darwin.Wire.Maps.{find}
use libre_darwin.Protocol.Messages.{PromptRequest, prompt_request, prompter_protocol_version}
use libre_darwin.Protocol.Fields.Laws.{
  shown_text, shown_uint, shown_texts, finds, opt_text-shown_text, opt_string_array-shown_texts,
  find_text-text,
}
use libre_darwin.Protocol.Encode.{prompt_request_map, prompt_request_to_cbor, shown_interface}
use libre_darwin.Protocol.Decode.Requests.{
  opt_display_fields, parse_tagged, parse_prompter_request, parse_prompt_request,
}
use libre_darwin.Protocol.RoundTrip.Common.{
  to_uint32_of_lt, opt_uint-narrow, parse_request_map-tagged, opt_display_fields-shown,
}

-- The numbers of a prompt request are `std::uint32_t`s.
pub record PromptFitsUint32 {Kind : Type 0} (r : PromptRequest Kind) : Type 0 where
  pub min_length : r.min_length < 2 ^ 32
  pub max_length : r.max_length < 2 ^ 32
  pub attempt : r.attempt < 2 ^ 32
  pub deadline_ms : r.deadline_ms < 2 ^ 32
  pub alt_deadline_ms : r.alt_deadline_ms < 2 ^ 32

module _ (w : PrompterWire) (c : Cbor) (r : PromptRequest w.Kind) where
  prompt_request_display :
      opt_display_fields c (prompt_request_map w c r)
      ≡ some (record {
        title = r.title;
        description = r.description;
        requester = r.requester;
        artifact = r.artifact;
      })
  unfolding prompt_request_map find
  prompt_request_display =
      opt_display_fields-shown c _ r.title r.description r.requester r.artifact (simp finds)
        (simp finds) (simp finds) (simp finds)

  prompt_request_found :
      (find "v" (prompt_request_map w c r) ≡ some (c.uint prompter_protocol_version))
      × (find "t" (prompt_request_map w c r) ≡ some (c.text "RequestSecret"))
      × (find "kind" (prompt_request_map w c r) ≡ some (c.text (w.kind_token r.kind)))
      × (find "artifacts" (prompt_request_map w c r) ≡ shown_texts c r.artifacts)
      × (find "readerInterface" (prompt_request_map w c r)
          ≡ shown_text c (shown_interface w c r.reader_interface))
      × (find "lastError" (prompt_request_map w c r) ≡ shown_text c r.last_error)
      × (find "promptId" (prompt_request_map w c r) ≡ shown_text c r.prompt_id)
      × (find "readerModel" (prompt_request_map w c r) ≡ shown_text c r.reader_model)
      × (find "readerFull" (prompt_request_map w c r) ≡ shown_text c r.reader_full)
      × (find "minLength" (prompt_request_map w c r) ≡ shown_uint c r.min_length)
      × (find "maxLength" (prompt_request_map w c r) ≡ shown_uint c r.max_length)
      × (find "attempt" (prompt_request_map w c r) ≡ shown_uint c r.attempt)
      × (find "deadlineMs" (prompt_request_map w c r) ≡ shown_uint c r.deadline_ms)
      × (find "altDeadlineMs" (prompt_request_map w c r) ≡ shown_uint c r.alt_deadline_ms)
  unfolding prompt_request_map find
  prompt_request_found = (
    (simp finds),
    (simp finds),
    (simp finds),
    (simp finds),
    (simp finds),
    (simp finds),
    (simp finds),
    (simp finds),
    (simp finds),
    (simp finds),
    (simp finds),
    (simp finds),
    (simp finds),
    (simp finds),
  )

  -- A prompt request whose numbers fit 32 bits and whose kind is not the PIN pair comes back as it
  -- was sent, except that an undetermined reader interface comes back empty.
  pub parse-prompt_request :
      PromptFitsUint32 r
      → r.kind ≢ w.change_pin
      → parse_prompter_request w c (c.encode (prompt_request_to_cbor w c r))
        ≡ value (
            prompt_request (record r { reader_interface = shown_interface w c r.reader_interface }))
  unfolding prompt_request_to_cbor parse_tagged parse_prompt_request
  parse-prompt_request h single =
      let m = prompt_request_map w c r in
      let f = prompt_request_found in
      rw (
        parse_request_map-tagged w c m "RequestSecret" f.0 f.1,
        find_text-text c m "kind" (w.kind_token r.kind) f.2,
        w.kind_from_token-kind_token r.kind,
        if_neg (w.kind_eq r.kind w.change_pin) single,
        prompt_request_display,
        opt_string_array-shown_texts c m "artifacts" r.artifacts f.3,
        opt_text-shown_text c m "readerInterface" (shown_interface w c r.reader_interface) f.4,
        opt_text-shown_text c m "lastError" r.last_error f.5,
        opt_text-shown_text c m "promptId" r.prompt_id f.6,
        opt_text-shown_text c m "readerModel" r.reader_model f.7,
        opt_text-shown_text c m "readerFull" r.reader_full f.8,
        opt_uint-narrow c m "minLength" r.min_length f.9 h.min_length,
        opt_uint-narrow c m "maxLength" r.max_length f.10 h.max_length,
        opt_uint-narrow c m "attempt" r.attempt f.11 h.attempt,
        opt_uint-narrow c m "deadlineMs" r.deadline_ms f.12 h.deadline_ms,
        opt_uint-narrow c m "altDeadlineMs" r.alt_deadline_ms f.13 h.alt_deadline_ms,
        to_uint32_of_lt r.min_length h.min_length,
        to_uint32_of_lt r.max_length h.max_length,
        to_uint32_of_lt r.attempt h.attempt,
        to_uint32_of_lt r.deadline_ms h.deadline_ms,
        to_uint32_of_lt r.alt_deadline_ms h.alt_deadline_ms,
      )
