-- ===== src/Protocol/Bounds.antt =====
-- What a request that `parsePrompterRequest` accepted is sure to be.
use libre_darwin.Base.{leb, value_or, ◌>>=◌}
use libre_darwin.Base.{
  String, ◌≡◌, ◌≢◌, Option, none, some, arith, value, >>=-eq-value, require, or_fail,
  or_fail-eq-value,
}
use libre_darwin.Wire.{Cbor, PrompterWire}
use libre_darwin.Wire.Maps.{Map}
use libre_darwin.Protocol.Messages.{
  PrompterRequest, PromptRequest, prompt_request, prompt_cancel, request_secrets, confirm_action,
  prompt_reset, missing_field, unsupported_version, prompter_protocol_version,
}
use libre_darwin.Protocol.Fields.{top_map, find_text, opt_announced_version}
use libre_darwin.Protocol.Decode.Requests.{
  parse_tagged, parse_request_map, parse_prompter_request, parse_prompt_request,
  prompt_request_fields, single_secret_kind, parse_request_secrets, parse_confirm_action,
  parse_prompt_cancel,
}
use libre_darwin.Protocol.RoundTrip.Prompt.{PromptFitsUint32}
use libre_darwin.Protocol.RoundTrip.Secrets.{SecretsFitUint32}

module _ (w : PrompterWire) (c : Cbor) where
  -- The predicate on what each message tag yields.
  abbrev pub IsSound : PrompterRequest w.Kind → Type 0
  IsSound (prompt_request r) = PromptFitsUint32 r × (r.kind ≢ w.change_pin)
  IsSound (request_secrets r) = SecretsFitUint32 r
  IsSound _ = Unit {0}

  single_secret_kind-ne-change_pin :
      (o : Option w.Kind) {k : w.Kind} → single_secret_kind w c o ≡ value k → k ≢ w.change_pin
  unfolding single_secret_kind
  single_secret_kind-ne-change_pin none h e = cc
  single_secret_kind-ne-change_pin (some j) h e = ground arith

  prompt_request_fields-kind :
      (m : Map c.Value) (kind : w.Kind) (r : PromptRequest w.Kind)
      → prompt_request_fields w c kind m ≡ some (prompt_request r)
      → kind ≢ w.change_pin
      → r.kind ≢ w.change_pin
  unfolding prompt_request_fields
  prompt_request_fields-kind m kind r h ne e = ground arith

  parse_prompt_request-IsSound :
      (m : Map c.Value) (r : PrompterRequest w.Kind)
      → parse_prompt_request w c m ≡ value r
      → IsSound r
  unfolding parse_prompt_request
  parse_prompt_request-IsSound m (prompt_request r) h =
      let (word, _, h₁) = >>=-eq-value (or_fail (find_text c m "kind") missing_field) _ h in
      let (kind, single, h₂) =
        >>=-eq-value (single_secret_kind w c (w.kind_from_token word)) _ h₁ in
      (
        ground arith,
        prompt_request_fields-kind m kind r (or_fail-eq-value _ _ h₂)
            (single_secret_kind-ne-change_pin _ single),
      )
  parse_prompt_request-IsSound m (prompt_cancel r) h = tt
  parse_prompt_request-IsSound m (request_secrets r) h = ground arith
  parse_prompt_request-IsSound m (confirm_action r) h = tt
  parse_prompt_request-IsSound m prompt_reset h = tt

  parse_request_secrets-IsSound :
      (m : Map c.Value) (r : PrompterRequest w.Kind)
      → parse_request_secrets w c m ≡ value r
      → IsSound r
  unfolding parse_request_secrets
  parse_request_secrets-IsSound m (prompt_request r) h = ground arith
  parse_request_secrets-IsSound m (prompt_cancel r) h = tt
  parse_request_secrets-IsSound m (request_secrets r) h = ground arith
  parse_request_secrets-IsSound m (confirm_action r) h = tt
  parse_request_secrets-IsSound m prompt_reset h = tt

  parse_tagged-IsSound :
      (t : String) (m : Map c.Value) (r : PrompterRequest w.Kind)
      → parse_tagged w c t m ≡ value r
      → IsSound r
  unfolding parse_tagged parse_prompt_cancel parse_confirm_action
  parse_tagged-IsSound t m (prompt_request r) h = ground (
    arith,
    parse_prompt_request-IsSound m (prompt_request r),
    parse_request_secrets-IsSound m (prompt_request r),
  )
  parse_tagged-IsSound t m (request_secrets r) h = ground (
    arith,
    parse_prompt_request-IsSound m (request_secrets r),
    parse_request_secrets-IsSound m (request_secrets r),
  )
  parse_tagged-IsSound t m _ h = tt

  -- Whatever body arrives, the lengths, deadlines and counts of a request that was accepted fit 32
  -- bits, and a single-secret request never asks for the PIN pair.
  pub parse_prompter_request-IsSound :
      (body : c.Body) (r : PrompterRequest w.Kind)
      → parse_prompter_request w c body ≡ value r
      → IsSound r
  unfolding parse_prompter_request parse_request_map
  parse_prompter_request-IsSound body r h =
      let (m, _, h₁) = >>=-eq-value (top_map c body) _ h in
      let (a, _, h₂) = >>=-eq-value (opt_announced_version c m) _ h₁ in
      let known = leb (value_or a 0) prompter_protocol_version in
      let (_, _, h₃) =
        >>=-eq-value (require known unsupported_version)
          (λ _. or_fail (find_text c m "t") missing_field >>= λ t. parse_tagged w c t m) h₂ in
      let (t, _, h₄) = >>=-eq-value (or_fail (find_text c m "t") missing_field) _ h₃ in
      parse_tagged-IsSound t m r h₄
