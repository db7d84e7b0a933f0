-- ===== src/Tests/Names.antt =====
-- Names that are shown, peers that are judged and directories that are probed, at concrete values.
use libre_darwin.Base.{
  ℕ, ◌+◌, ◌≤◌, ◌≡◌, ◌↔◌, ◌⊎◌, Option, none, some, [], ◌∷◌, Bool, true, false, All,
}
use libre_darwin.Protocol.Display.{
  Bytes, separators, neutralize_display_name, format_untrusted_artifact_list, shown_count,
}
use libre_darwin.Protocol.Display.Separators.{IsFree, neutralize_display_name-IsFree}
use libre_darwin.Protocol.Display.Listing.{lines, split_lines, format_untrusted_artifact_list-lines}
use libre_darwin.Authorizer.{Actions, Policy, PeerAuth, granted, is_default, is_trust, authorize}
use libre_darwin.Authorizer.Decision.{Admits, list_for, authorize_iff}
use libre_darwin.PluginDirectory.{PluginDirInputs, resolve_plugin_dir}
use libre_darwin.PluginDirectory.Paths.{FilePath}
use libre_darwin.PluginDirectory.Cascade.{EndsChosen, expected_dir, resolve_plugin_dir-ends}

-- A name with a line break in it.
abbrev sly_name : Bytes
sly_name = 0x61 ∷ 0x0a ∷ 0x62 ∷ []

neutralize_display_name-IsFree_example :
    All (λ sep. IsFree sep (neutralize_display_name sly_name)) separators
neutralize_display_name-IsFree_example = neutralize_display_name-IsFree sly_name

format_untrusted_artifact_list-lines_example :
    let list = format_untrusted_artifact_list (sly_name ∷ sly_name ∷ []) 1 in
    let k = shown_count 2 1 in
    (split_lines list.block ≡ lines k (sly_name ∷ sly_name ∷ [])) × (list.omitted + k ≡ 2) × (1 ≤ k)
format_untrusted_artifact_list-lines_example =
    format_untrusted_artifact_list-lines sly_name (sly_name ∷ []) 1

abbrev actions : Actions
actions = record {
  configure = "configure";
  sign = "sign";
  pkcs11_login = "pkcs11-login";
  credentials_manage = "credentials.manage";
  configure_trust = "configure.trust";
}

abbrev policy : Policy
policy = record {
  trust_tier_signing_ids = "org.app" ∷ [];
  allowed_signing_ids = [];
  required_app_group = some "group";
  team_id = none;
}

abbrev peer : PeerAuth
peer = record {
  signing_id = some "org.app";
  app_groups = "group" ∷ [];
  designated_requirement_valid = none;
}

abbrev caller_credentials : ℕ → Option ℕ
caller_credentials caller = some caller

abbrev resolver : ℕ → PeerAuth
resolver creds = peer

authorize_iff_example :
    (authorize actions caller_credentials resolver policy "configure.trust" 1 ≡ granted) ↔ (
      ((is_default actions "configure.trust" ≡ true) ⊎ (is_trust actions "configure.trust" ≡ true))
      × ((creds : ℕ) × (caller_credentials 1 ≡ some creds)
          × ((list_for actions policy "configure.trust" ≡ [])
              ⊎ Admits policy (resolver creds) (list_for actions policy "configure.trust"))))
authorize_iff_example = authorize_iff actions caller_credentials resolver policy "configure.trust" 1

abbrev nowhere : FilePath → Bool
nowhere _ = false

abbrev inputs : PluginDirInputs
inputs = record {
  override = [];
  executable = some ("/" ∷ "bin" ∷ "agent" ∷ []);
  compiled_default = "/" ∷ "usr" ∷ "plugins" ∷ [];
}

resolve_plugin_dir-ends_example :
    EndsChosen (resolve_plugin_dir nowhere inputs)
    × ((resolve_plugin_dir nowhere inputs).dir
        ≡ expected_dir nowhere inputs.override inputs.executable inputs.compiled_default)
resolve_plugin_dir-ends_example = resolve_plugin_dir-ends nowhere inputs
