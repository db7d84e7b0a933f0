-- ===== src/Protocol/Gate.antt =====
-- The version gate of `parsePrompterRequest`, and what a parsed request is sure to be.
use libre_darwin.Base.{
  ℕ, ◌<◌, ◌≡◌, ◌≢◌, ◌↔◌, refl, Option, none, some, arith, value, unexpected, String, or_fail, ◌>>=◌,
  ◌>>◌, require, leb, value_or, >>=-ne-unexpected, or_fail-ne-unexpected,
}
use libre_darwin.Wire.{Cbor, PrompterWire}
use libre_darwin.Wire.Maps.{Map}
use libre_darwin.Protocol.Messages.{unsupported_version, missing_field, prompter_protocol_version}
use libre_darwin.Protocol.Fields.{Parsed, opt_text, find_text, opt_announced_version}
use libre_darwin.Protocol.Decode.Requests.{
  opt_display_fields, parse_tagged, parse_request_map, parse_prompt_request, single_secret_kind,
  parse_request_secrets, parse_confirm_action, parse_prompt_cancel,
}

-- Only the version test gives the error, and it gives it for a newer version.
gate_closed {ℓ} :
    {A : Type ℓ} (announced : Parsed (Option ℕ)) (rest : Parsed A)
    → announced ≢ unexpected unsupported_version
    → rest ≢ unexpected unsupported_version
    → (announced >>= λ a.
        require (leb (value_or a 0) prompter_protocol_version) unsupported_version >> rest)
      ≡ unexpected unsupported_version
    → (n : ℕ) × (announced ≡ value (some n)) × (prompter_protocol_version < n)
gate_closed (value none) rest ne ne' h = absurd (ne' h)
gate_closed (value (some n)) rest ne ne' h = (n, refl, ground arith)
gate_closed (unexpected e) rest ne ne' h = absurd (ne (cc))

module _ (w : PrompterWire) (c : Cbor) where
  parse_prompt_cancel-ne-unsupported :
      (m : Map c.Value) → parse_prompt_cancel w c m ≢ unexpected unsupported_version
  unfolding parse_prompt_cancel
  parse_prompt_cancel-ne-unsupported m =
      >>=-ne-unexpected _ _ (or_fail-ne-unexpected (opt_text c m "promptId") (λ e. cc)) (λ a e. cc)

  parse_request_secrets-ne-unsupported :
      (m : Map c.Value) → parse_request_secrets w c m ≢ unexpected unsupported_version
  unfolding parse_request_secrets
  parse_request_secrets-ne-unsupported m =
      >>=-ne-unexpected _ _ (or_fail-ne-unexpected (find_text c m "kind") (λ e. cc))
        (λ kind. or_fail-ne-unexpected _ (λ e. cc))

  parse_confirm_action-ne-unsupported :
      (m : Map c.Value) → parse_confirm_action w c m ≢ unexpected unsupported_version
  unfolding parse_confirm_action
  parse_confirm_action-ne-unsupported m =
      >>=-ne-unexpected _ _ (or_fail-ne-unexpected (find_text c m "kind") (λ e. cc)) (λ kind.
        >>=-ne-unexpected _ _ (or_fail-ne-unexpected (opt_display_fields c m) (λ e. cc)) (λ display.
          >>=-ne-unexpected _ _ (or_fail-ne-unexpected (opt_text c m "descriptionKey") (λ e. cc))
            (λ key e. cc)))

  single_secret_kind-ne-unsupported :
      (o : Option w.Kind) → single_secret_kind w c o ≢ unexpected unsupported_version
  unfolding single_secret_kind
  single_secret_kind-ne-unsupported none e = cc
  single_secret_kind-ne-unsupported (some k) e = ground arith

  parse_prompt_request-ne-unsupported :
      (m : Map c.Value) → parse_prompt_request w c m ≢ unexpected unsupported_version
  unfolding parse_prompt_request
  parse_prompt_request-ne-unsupported m =
      >>=-ne-unexpected _ _ (or_fail-ne-unexpected (find_text c m "kind") (λ e. cc)) (λ word.
        >>=-ne-unexpected _ _ (single_secret_kind-ne-unsupported (w.kind_from_token word))
          (λ kind. or_fail-ne-unexpected _ (λ e. cc)))

  parse_tagged-ne-unsupported :
      (t : String) (m : Map c.Value) → parse_tagged w c t m ≢ unexpected unsupported_version
  unfolding parse_tagged
  parse_tagged-ne-unsupported t m h = ground (
    arith,
    parse_prompt_cancel-ne-unsupported m,
    parse_request_secrets-ne-unsupported m,
    parse_confirm_action-ne-unsupported m,
    parse_prompt_request-ne-unsupported m,
  )

  opt_announced_version-ne-unsupported :
      (m : Map c.Value) → opt_announced_version c m ≢ unexpected unsupported_version
  unfolding opt_announced_version
  opt_announced_version-ne-unsupported m e = ground arith

  -- A request is refused as unsupported exactly when it announces a version, of any width, that is
  -- newer than this build's, whatever its tag and its other fields are.
  pub parse_request_map-unsupported_iff :
      (m : Map c.Value)
      → (parse_request_map w c m ≡ unexpected unsupported_version)
        ↔ ((n : ℕ) × (opt_announced_version c m ≡ value (some n)) × (prompter_protocol_version < n))
  unfolding parse_request_map
  parse_request_map-unsupported_iff m = (
    λ h.
        gate_closed (opt_announced_version c m)
          (or_fail (find_text c m "t") missing_field >>= λ t. parse_tagged w c t m)
          (opt_announced_version-ne-unsupported m)
          (>>=-ne-unexpected _ _ (or_fail-ne-unexpected (find_text c m "t") (λ e. cc))
            (λ t. parse_tagged-ne-unsupported t m))
          h,
    λ (n, e, newer). rw e (ground arith),
  )
