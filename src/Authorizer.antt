-- ===== src/Authorizer.antt =====
-- SecCodeAuthorizer (agent/src/backend/SecCodeAuthorizer.cpp and its header): which peer may do what.
pub mod Decision
use libre_darwin.Base.{
  String, Option, none, some, List, [], ◌∷◌, Bool, true, false, ◌&&◌, ◌||◌, str_eq, if◌then◌else◌,
  is_some,
}

-- The action ids of the agent library.
pub record Actions : Type 0 where
  pub configure : String
  pub sign : String
  pub pkcs11_login : String
  pub credentials_manage : String
  pub configure_trust : String

pub record Policy : Type 0 where
  pub trust_tier_signing_ids : List String
  pub allowed_signing_ids : List String
  pub required_app_group : Option String
  pub team_id : Option String

-- `PeerCodeSigning`: the facts read from a peer's audit token.
pub record PeerAuth : Type 0 where
  pub signing_id : Option String
  pub app_groups : List String
  pub designated_requirement_valid : Option Bool

pub data AuthorizationOutcome : Type 0 where
  granted denied : AuthorizationOutcome

pub contains : List String → String → Bool
contains [] v = false
contains (x ∷ list) v = str_eq x v || contains list v

-- `designatedRequirementValid != true`, of an optional.
abbrev pub is_true : Option Bool → Bool
is_true none = false
is_true (some b) = b

abbrev pub requirement_met : Policy → PeerAuth → Bool
requirement_met policy peer =
    if is_some policy.team_id then is_true peer.designated_requirement_valid else true

abbrev pub claims : PeerAuth → List String → String → Bool
claims peer list group =
    (elim peer.signing_id [ none ↦ false | some id ↦ contains list id ])
    && contains peer.app_groups group

-- The local `signingIdAllowed`, on the peer's resolved code.
pub signing_id_allowed : Policy → PeerAuth → List String → Bool
signing_id_allowed policy peer list = elim policy.required_app_group [
  | none ↦ false
  | some group ↦ if requirement_met policy peer then claims peer list group else false
]

abbrev pub outcome : Bool → AuthorizationOutcome
outcome true = granted
outcome false = denied

-- `list.empty() ? Granted : signingIdAllowed(list) ? Granted : Denied`
pub narrowed : Policy → PeerAuth → List String → AuthorizationOutcome
unfolding signing_id_allowed
narrowed policy peer [] = granted
narrowed policy peer (id ∷ ids) = outcome (signing_id_allowed policy peer (id ∷ ids))

pub is_default : Actions → String → Bool
is_default actions action =
    str_eq action actions.configure
    || str_eq action actions.sign
    || str_eq action actions.pkcs11_login
    || str_eq action actions.credentials_manage

pub is_trust : Actions → String → Bool
is_trust actions action = str_eq action actions.configure_trust

-- The credentials resolver and the resolution of a peer's code are what the composition root passes.
module _ {Caller Credentials : Type 0} (actions : Actions)
    (credentials : Caller → Option Credentials) (auth_resolver : Credentials → PeerAuth) where
  pub authorize : Policy → String → Caller → AuthorizationOutcome
  authorize policy action caller =
      if is_default actions action || is_trust actions action
      then (elim (credentials caller) [
        | none ↦ denied
        | some creds ↦ narrowed policy (auth_resolver creds) (
            if is_trust actions action
            then policy.trust_tier_signing_ids
            else policy.allowed_signing_ids)
      ])
      else denied
