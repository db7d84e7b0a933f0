-- ===== src/Frontend/Signing.antt =====
-- The two signing requests (agent/src/backend/SocketFrontend.cpp).
use libre_darwin.Base.{
  suc, ℕ, zero, suc, String, Option, none, some, List, [], ◌∷◌, not, value_or, str_eq, length,
}
use libre_darwin.Frontend.Errors.{
  unsupported_signature_parameter, input_too_large, communication_error, invalid_request,
}
use libre_darwin.Frontend.SignOptions.{
  Document, SignOpts, ResolvedSignOptions, resolve_sign_options,
}
use libre_darwin.Frontend.Request.{BatchEntry}
use libre_darwin.Frontend.State.{
  Frontend, read_fd, ReadResult, read, not_regular, too_large, read_error, SignParams,
  BatchDocument, Operation,
}
use libre_darwin.Frontend.Gates.{
  Services, Outcome, Gate, ◌>>=◌, ◌>>◌, run, stop, ensure, present, successful, after, reply_error,
  with_card, authorized, rate_allowed, operation_target, launch,
}

-- `in.fds[i]`, for an index within it.
abbrev pub descriptor : List ℕ → ℕ → Option ℕ
descriptor [] i = none
descriptor (fd ∷ fds) zero = some fd
descriptor (fd ∷ fds) (suc i) = descriptor fds i

unfoldable pub sign_params : String → Document → String → ResolvedSignOptions → SignParams
sign_params cert document display_name resolved = record {
  cert_id = cert;
  input_document = document;
  format = resolved.format;
  level = resolved.level;
  packaging = resolved.packaging;
  allow_expired = resolved.allow_expired;
  display_name = display_name;
  reason = resolved.reason;
  location = resolved.location;
  tsa_url = value_or resolved.tsa_url "";
  visual = resolved.visual;
}

-- `inputs.front().bytes`; the count was checked before, so that there is one.
abbrev pub front_bytes : List BatchDocument → Document
front_bytes [] = []
front_bytes (document ∷ _) = document.bytes

module _ {V : Type 0} (services : Services) where
  abbrev pub checked_document : ReadResult → Frontend → Gate V Document
  checked_document (read []) s k = reply_error unsupported_signature_parameter s
  checked_document (read (b ∷ bs)) s k = k (b ∷ bs)
  checked_document not_regular s k = reply_error unsupported_signature_parameter s
  checked_document too_large s k = reply_error input_too_large s
  checked_document read_error s k = reply_error communication_error s

  -- The document behind a descriptor of the request, after so many reads.
  unfoldable pub read_document : (before : ℕ) → List ℕ → ℕ → Frontend → Gate V Document
  read_document before fds index s k =
      present (descriptor fds index) unsupported_signature_parameter s (λ fd. after (read_fd fd) (
        checked_document (services.read_bounded_regular_fd before fd services.max_input_bytes) s k))

  unfoldable pub read_documents :
      (before : ℕ) → List ℕ → List BatchEntry → Frontend → Gate V (List BatchDocument)
  read_documents before fds [] s k = k []
  read_documents before fds (entry ∷ entries) s k =
      read_document before fds entry.fd_index s (λ bytes.
        read_documents (suc before) fds entries s (λ rest.
          k (record { display_name = services.sanitize_label entry.name; bytes = bytes } ∷ rest)))

  unfoldable pub handle_sign : Option ℕ → String → SignOpts → ℕ → List ℕ → ℕ → Frontend → Outcome V
  handle_sign card cert opts in_fd fds caller s =
      let actions = services.actions in
      let config = services.config in
      run (do
        routing ← with_card services card services.pki_cap_bit s
        ensure (not (str_eq cert "")) unsupported_signature_parameter s
        authorized services actions.sign caller s
        rate_allowed services caller s
        document ← read_document 0 fds in_fd s
        resolved ← successful (resolve_sign_options services.sign_rules opts document config.sign) s
        let display_name = services.sanitize_label (value_or opts.display_name "")
        stop (
            launch services (operation_target services routing caller)
              (Operation.sign (sign_params cert document display_name resolved)) caller s))

  unfoldable pub handle_sign_batch :
      Option ℕ → String → SignOpts → List BatchEntry → List ℕ → ℕ → Frontend → Outcome V
  handle_sign_batch card cert opts docs fds caller s =
      let actions = services.actions in
      let config = services.config in
      run (do
        routing ← with_card services card services.pki_cap_bit s
        ensure (not (str_eq cert "")) unsupported_signature_parameter s
        authorized services actions.sign caller s
        rate_allowed services caller s
        ensure (services.is_valid_batch_document_count (length docs)) invalid_request s
        inputs ← read_documents 0 fds docs s
        resolved ←
            successful
              (resolve_sign_options services.sign_rules opts (front_bytes inputs) config.sign) s
        stop (
            launch services (operation_target services routing caller)
              (Operation.sign_batch (sign_params cert [] "" resolved) inputs) caller s))
