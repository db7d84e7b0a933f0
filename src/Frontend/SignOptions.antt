-- ===== src/Frontend/SignOptions.antt =====
-- The options of a signing request (`resolveSignOptions` in agent/src/backend/SocketFrontend.cpp). The
-- vocabulary itself, with the sniffing of a document's format, is the agent library's.
use mathlib.Core.Option
use libre_darwin.Base.{
  ℕ, String, ◌≡◌, ◌≢◌, refl, Option, none, some, List, [], ◌∷◌, Bool, true, false, not, ◌||◌, ◌&&◌,
  str_eq, eq_iff, is_some, value_or, Expected, value, ◌>>=◌, ◌>>◌, require, or_fail, subst,
  value-injective, arith,
}
use libre_darwin.Frontend.Errors.{SyncError, unsupported_signature_parameter}

abbrev pub Document : Type 0
Document = List ℕ

-- The page and the box of a visible signature. A double is its 64 bits.
pub record Geometry : Type 0 where
  pub page : ℕ
  pub x : ℕ
  pub y : ℕ
  pub width : ℕ
  pub height : ℕ

-- `SignatureParams`: what the library makes of a requested word, and what it knows; and
-- `narrow`, the casts of a page to `int` and of a double to `float`.
pub record SignRules : Type 0 where
  pub requested_format_from : Option String → Option String
  pub sniff_format : Document → Option String
  pub is_known_format : String → Bool
  pub requested_level_from : Option String → Option String
  pub resolve_sign_level : Option String → String → Bool → String
  pub is_known_level : String → Bool
  pub is_implemented_sign_level : String → Bool
  pub requested_packaging_from : Option String → Option String
  pub default_packaging_for : String → String
  pub is_known_packaging : String → Bool
  pub is_valid_tsa_url : String → Bool
  pub is_valid_visual_geometry : Geometry → Bool
  pub narrow : Geometry → Geometry

-- What the configuration store holds for signing.
pub record SignDefaults : Type 0 where
  pub default_level : String
  pub tsa_urls : List String
  pub default_reason : String
  pub default_location : String

pub record VisualSignature : Type 0 where
  pub geometry : Geometry
  pub text : String

pub record SignOpts : Type 0 where
  pub format : Option String
  pub level : Option String
  pub packaging : Option String
  pub allow_expired : Option Bool
  pub display_name : Option String
  pub reason : Option String
  pub location : Option String
  pub tsa_url : Option String
  pub visual_signature : Option (VisualSignature)

pub record ResolvedSignOptions : Type 0 where
  pub format : String
  pub level : String
  pub packaging : String
  pub allow_expired : Bool
  pub reason : String
  pub location : String
  pub tsa_url : Option String
  pub visual : Option (VisualSignature)

abbrev pub is_empty : List String → Bool
is_empty [] = true
is_empty (_ ∷ _) = false

or_fail_step :
    {A B : Type 0} (o : Option A) (e : SyncError) {f : A → Expected SyncError B} {b : B}
    → (or_fail o e >>= f) ≡ value b
    → (a : A) × (o ≡ some a) × (f a ≡ value b)
or_fail_step none e h = cc
or_fail_step (some a) e h = (a, refl, h)

require_step :
    {B : Type 0} (t : Bool) (e : SyncError) {m : Expected SyncError B} {b : B}
    → (require t e >> m) ≡ value b
    → (t ≡ true) × (m ≡ value b)
require_step true e h = (refl, h)
require_step false e h = cc

both_left : (a b : Bool) → (a && b) ≡ true → a ≡ true
both_left a b h = ground arith

both_right : (a b : Bool) → (a && b) ≡ true → b ≡ true
both_right a b h = ground arith

module _ (rules : SignRules) where
  -- The requested format, else the one sniffed off the document.
  abbrev pub chosen_format : Option String → Document → Option String
  chosen_format requested document = elim (rules.requested_format_from requested) [
    | some format ↦ some format
    | none ↦ rules.sniff_format document
  ]

  -- A timestamp authority for this request: a valid address, and not with the baseline level.
  abbrev pub accepts_tsa : Option String → String → Bool
  accepts_tsa none level = true
  accepts_tsa (some url) level = rules.is_valid_tsa_url url && not (str_eq level "b-b")

  abbrev pub accepts_visual : Option (VisualSignature) → String → Bool
  accepts_visual none format = true
  accepts_visual (some v) format =
      str_eq format "pades" && rules.is_valid_visual_geometry v.geometry

  -- `VisualParams` of a visible signature.
  abbrev pub visual_params : VisualSignature → VisualSignature
  visual_params v = record v { geometry = rules.narrow v.geometry }

  unfoldable pub resolve_sign_options :
      SignOpts → Document → SignDefaults → Expected SyncError ResolvedSignOptions
  resolve_sign_options opts document config =
      let bad = unsupported_signature_parameter in
      let level =
        rules.resolve_sign_level (rules.requested_level_from opts.level) config.default_level
          (not (is_empty config.tsa_urls) || is_some opts.tsa_url) in
      do
        format ← or_fail (chosen_format opts.format document) bad
        require (rules.is_known_format format) bad
        require (rules.is_known_level level && rules.is_implemented_sign_level level) bad
        let packaging =
            value_or (rules.requested_packaging_from opts.packaging)
              (rules.default_packaging_for format)
        require (rules.is_known_packaging packaging) bad
        require (accepts_tsa opts.tsa_url level) bad
        require (accepts_visual opts.visual_signature format) bad
        value (record {
          format = format;
          level = level;
          packaging = packaging;
          allow_expired = value_or opts.allow_expired false;
          reason = value_or opts.reason config.default_reason;
          location = value_or opts.location config.default_location;
          tsa_url = opts.tsa_url;
          visual = Option.map visual_params opts.visual_signature;
        })

  accepts_tsa_lem :
      (requested : Option String) (level : String)
      → accepts_tsa requested level ≡ true
      → (url : String) → requested ≡ some url
      → (rules.is_valid_tsa_url url ≡ true) × (level ≢ "b-b")
  accepts_tsa_lem none level h url e = cc
  accepts_tsa_lem (some v) level h url e = (ground (arith), λ q. ground (arith, eq_iff level "b-b"))

  accepts_visual_lem :
      (requested : Option VisualSignature) (format : String)
      → accepts_visual requested format ≡ true
      → (v : VisualSignature) → requested ≡ some v
      → (format ≡ "pades") × (rules.is_valid_visual_geometry v.geometry ≡ true)
  accepts_visual_lem none format h v e = cc
  accepts_visual_lem (some w) format h v e = (ground (arith, eq_iff format "pades"), ground arith)

  -- What a launched signature may rely on.
  pub record IsResolved (opts : SignOpts) (r : ResolvedSignOptions) : Type 0 where
    pub format_known : rules.is_known_format r.format ≡ true
    pub level_known : rules.is_known_level r.level ≡ true
    pub level_implemented : rules.is_implemented_sign_level r.level ≡ true
    pub packaging_known : rules.is_known_packaging r.packaging ≡ true
    pub tsa_kept : r.tsa_url ≡ opts.tsa_url
    pub tsa_valid :
        (url : String)
        → r.tsa_url ≡ some url
        → (rules.is_valid_tsa_url url ≡ true) × (r.level ≢ "b-b")
    pub visual_kept : r.visual ≡ Option.map visual_params opts.visual_signature
    pub visual_valid :
        (v : VisualSignature)
        → opts.visual_signature ≡ some v
        → (r.format ≡ "pades") × (rules.is_valid_visual_geometry v.geometry ≡ true)

  -- Options that were resolved name a known format, a known and implemented level and a known packaging;
  -- a timestamp authority is the requested one, with a valid address and a level above the baseline;
  -- a visible signature is the requested one, for PAdES and with a valid box.
  pub resolve_sign_options-IsResolved :
      (opts : SignOpts) (document : Document) (config : SignDefaults) {r : ResolvedSignOptions}
      → resolve_sign_options opts document config ≡ value r
      → IsResolved opts r
  unfolding resolve_sign_options
  resolve_sign_options-IsResolved opts document config {r} h =
      let bad = unsupported_signature_parameter in
      let (format, _, h1) = or_fail_step (chosen_format opts.format document) bad h in
      let (known, h2) = require_step (rules.is_known_format format) bad h1 in
      let (level, h3) = require_step _ bad h2 in
      let (packaging, h4) = require_step _ bad h3 in
      let (tsa, h5) = require_step _ bad h4 in
      let (visual, h6) = require_step _ bad h5 in
      subst (IsResolved opts) (value-injective _ r h6) (record {
        format_known = known;
        level_known = both_left _ _ level;
        level_implemented = both_right _ _ level;
        packaging_known = packaging;
        tsa_kept = refl;
        tsa_valid = accepts_tsa_lem opts.tsa_url _ tsa;
        visual_kept = refl;
        visual_valid = accepts_visual_lem opts.visual_signature format visual;
      })
