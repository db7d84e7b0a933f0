-- ===== src/Frontend/Config.antt =====
-- The configuration requests, but for the person's consent (agent/src/backend/SocketFrontend.cpp).
use libre_darwin.Base.{
  String, Option, none, some, List, [], ◌∷◌, Bool, false, map, str_eq, if◌then◌else◌, value_or,
  Expected, value, unexpected,
}
use libre_darwin.Wire.{Cbor}
use libre_darwin.Wire.Maps.{Map, find, emplace}
use libre_darwin.Frontend.Errors.{SyncError, invalid_config_value, unknown_config_key}
use libre_darwin.Frontend.State.{
  Frontend, TslSource, ConfigWrite, default_level, default_reason, default_location, tsa_urls,
  tsl_sources, reset_key, wrote, ack, config, CscaAnchorState, CscaAnchorStateReply,
}
use libre_darwin.Frontend.Gates.{
  Services, ConfigStore, Outcome, ◌>>=◌, ◌>>◌, run, stop, ensure, successful, perform, reply,
}

-- An empty signer, and an empty text.
abbrev pub to_anchor_state_reply : CscaAnchorState → CscaAnchorStateReply
to_anchor_state_reply recorded = record {
  anchors = recorded.anchors;
  issuers = recorded.issuers;
  replay_refusal_active = recorded.replay_refusal_active;
  signer = if str_eq recorded.signer "" then none else some recorded.signer;
  signer_pinned = recorded.signer_pinned;
  accepted_at = recorded.accepted_at;
  signed_at = recorded.signed_at;
}

module _ (c : Cbor) where
  abbrev pub flag : Option c.Value → Bool
  flag none = false
  flag (some v) = value_or (c.as_bool v) false

  -- The addresses of a list of texts.
  unfoldable pub texts : List c.Value → Option (List String)
  texts [] = some []
  texts (v ∷ vs) = elim (c.as_text v) [
    | none ↦ none
    | some t ↦ elim (texts vs) [ none ↦ none | some ts ↦ some (t ∷ ts) ]
  ]

  -- A trusted-list source: its address is required, its flags are not.
  unfoldable pub tsl_source : Map c.Value → Option TslSource
  tsl_source m = elim (find "url" m) [
    | none ↦ none
    | some url ↦ elim (c.as_text url) [
      | none ↦ none
      | some t ↦
          some (record { url = t; is_lotl = flag (find "isLotl" m); eager = flag (find "eager" m) })
    ]
  ]

  abbrev pub tsl_source_of : c.Value → Option TslSource
  tsl_source_of v = elim (c.as_map v) [ none ↦ none | some m ↦ tsl_source m ]

  unfoldable pub sources : List c.Value → Option (List TslSource)
  sources [] = some []
  sources (v ∷ vs) = elim (tsl_source_of v) [
    | none ↦ none
    | some t ↦ elim (sources vs) [ none ↦ none | some ts ↦ some (t ∷ ts) ]
  ]

  abbrev pub or_invalid :
      {A : Type 0} → (A → ConfigWrite) → Option A → Expected SyncError ConfigWrite
  or_invalid f none = unexpected invalid_config_value
  or_invalid f (some a) = value (f a)

  -- The call that a key and a value stand for.
  unfoldable pub write_of : String → c.Value → Expected SyncError ConfigWrite
  write_of key v =
      if str_eq key "DefaultLevel"
      then or_invalid default_level (c.as_text v)
      else if str_eq key "DefaultReason"
      then or_invalid default_reason (c.as_text v)
      else if str_eq key "DefaultLocation"
      then or_invalid default_location (c.as_text v)
      else if str_eq key "TsaUrls"
      then (elim (c.as_array v) [
        | none ↦ unexpected invalid_config_value
        | some vs ↦ or_invalid tsa_urls (texts vs)
      ])
      else if str_eq key "TslSources"
      then (elim (c.as_array v) [
        | none ↦ unexpected invalid_config_value
        | some vs ↦ or_invalid tsl_sources (sources vs)
      ])
      else unexpected unknown_config_key

  module _ (services : Services) where
    unfoldable pub store_write : ConfigWrite → Frontend → Outcome c.Value
    store_write write s = run (do
      perform (wrote write)
      ensure (services.write_ok write) invalid_config_value s
      stop (reply ack s))

    unfoldable pub apply_config_write : String → c.Value → Frontend → Outcome c.Value
    apply_config_write key v s =
        run (do write ← successful (write_of key v) s; stop (store_write write s))

    unfoldable pub apply_config_reset : String → Frontend → Outcome c.Value
    apply_config_reset key = store_write (reset_key key)

    abbrev pub tsl_source_value : TslSource → c.Value
    tsl_source_value source = c.of_map (
        emplace "eager" (c.boolean source.eager)
          (emplace "isLotl" (c.boolean source.is_lotl) (emplace "url" (c.text source.url) [])))

    module _ (encode_csca_anchor_state : CscaAnchorStateReply → c.Value) where
      pub anchor_state_entry : Option CscaAnchorState → c.Value
      anchor_state_entry none = c.of_map []
      anchor_state_entry (some held) = encode_csca_anchor_state (to_anchor_state_reply held)

      pub config_entries : ConfigStore → Map c.Value
      config_entries cfg =
          let sign = cfg.sign in
          emplace "CscaAnchorState" (anchor_state_entry cfg.csca_anchor_state) (
            emplace "DefaultLocation" (c.text sign.default_location) (
              emplace "DefaultReason" (c.text sign.default_reason) (
                emplace "TslCacheDir" (c.text cfg.tsl_cache_dir) (
                  emplace "TslSources" (c.array (map tsl_source_value cfg.tsl_sources)) (
                    emplace "LastTsaUrl" (c.text cfg.last_tsa_url) (
                      emplace "TsaUrls" (c.array (map c.text sign.tsa_urls))
                        (emplace "DefaultLevel" (c.text sign.default_level) [])))))))

      unfoldable pub handle_get_config : Frontend → Outcome c.Value
      handle_get_config s = reply (config (config_entries services.config)) s
