-- ===== src/Tests/Agent.antt =====
-- An agent with one card, and requests to it.
use libre_darwin.Base.{none, some, [], ◌∷◌, true, false, value, unexpected}
use libre_darwin.Transport.Presence.{Registry}
use libre_darwin.Frontend.SignOptions.{SignRules, SignDefaults, SignOpts}
use libre_darwin.Frontend.Request.{Request, Inbound}
use libre_darwin.Frontend.State.{
  Frontend, granted, read, CscaAnchorStateReply, bus_mutable_trust, cache_not_writable,
}
use libre_darwin.Frontend.Gates.{Services}
use libre_darwin.Tests.Sample.{Value, v_array, v_text, no_item}

abbrev pub rules : SignRules
rules = record {
  requested_format_from = λ o. o;
  sniff_format = λ bytes. some "pades";
  is_known_format = λ format. true;
  requested_level_from = λ o. o;
  resolve_sign_level = λ o d tsa. d;
  is_known_level = λ level. true;
  is_implemented_sign_level = λ level. true;
  requested_packaging_from = λ o. o;
  default_packaging_for = λ format. "enveloped";
  is_known_packaging = λ packaging. true;
  is_valid_tsa_url = λ url. true;
  is_valid_visual_geometry = λ g. true;
  narrow = λ g. g;
}

abbrev pub defaults : SignDefaults
defaults = record {
  default_level = "b-t";
  tsa_urls = "https://tsa" ∷ [];
  default_reason = "";
  default_location = "";
}

abbrev pub opts : SignOpts
opts = record {
  format = none;
  level = none;
  packaging = none;
  allow_expired = none;
  display_name = none;
  reason = some "approval";
  location = none;
  tsa_url = some "https://tsa";
  visual_signature = none;
}

abbrev pub registry : Registry
registry = record {
  handles = record {
    id_to_handle = (10, 1) ∷ (20, 2) ∷ [];
    handle_to_id = (1, 10) ∷ (2, 20) ∷ [];
    next_handle = 3;
  };
  readers = [];
  cards = [];
  card_routing =
      (
        2,
        record {
          card_id = 20;
          reader_id = 10;
          reader_name = "Reader 0";
          card_key = 20;
          caps = 3;
          pre_auth = 0;
        },
      )
      ∷ [];
  roster = record { reader_names = []; card_keys = [] };
}

abbrev pub services : Services
services = record {
  agent_ver = "1.0";
  agent_features = [];
  protocol_version = 3;
  registry = registry;
  identity_cap_bit = 1;
  pki_cap_bit = 2;
  pin_management_cap_bit = 4;
  actions = record {
    configure = "configure";
    sign = "sign";
    pkcs11_login = "pkcs11-login";
    credentials_manage = "credentials-manage";
    configure_trust = "configure-trust";
  };
  authorize = λ action caller. granted;
  allow = λ caller. true;
  read_bounded_regular_fd = λ before fd limit. read (37 ∷ []);
  max_input_bytes = 1000;
  max_master_list_bytes = 1000;
  is_valid_batch_document_count = λ n. true;
  sign_rules = rules;
  config = record {
    sign = defaults;
    last_tsa_url = "";
    tsl_sources = [];
    tsl_cache_dir = "";
    csca_anchor_state = none;
  };
  sanitize_label = λ label. label;
  peer_label = λ caller. none;
  launch = λ target operation. value 41;
  credential_snapshot = λ card. none;
  validate_pin_manage_request = λ request snapshot. none;
  sign_mechanism_from_token = λ token. none;
  decrypt_mechanism_from_token = λ token. none;
  anon_fd_made = λ bytes. true;
  mutability = λ key. some bus_mutable_trust;
  write_ok = λ write. true;
  import_master_list = λ bytes. unexpected cache_not_writable;
  to_hex = λ bytes. "";
  is_valid_layout_rect = λ box. true;
  appearance_font_bytes = [];
  login_active = λ reader caller. false;
}

abbrev pub encode_state : CscaAnchorStateReply → Value
encode_state state = v_text "state"

abbrev pub inbound : Request Value → Inbound Value
inbound body = record { conn_id = 1; req = 5; caller = 7; fds = 9 ∷ []; body = body }

abbrev pub sign_request : Inbound Value
sign_request = inbound (Request.sign (some 2) "cert" opts 0)

abbrev pub trust_request : Inbound Value
trust_request = inbound (Request.set_config "TsaUrls" (v_array no_item))

abbrev pub identity_request : Inbound Value
identity_request = inbound (Request.read_identity (some 2))

abbrev pub frontend : Frontend
frontend = record { op_owners = []; sign_results = []; confirms_in_flight = [] }
