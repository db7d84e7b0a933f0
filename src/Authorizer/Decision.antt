-- ===== src/Authorizer/Decision.antt =====
-- When the authorizer grants, stated on its own.
use libre_darwin.Base.{
  String, ◌≡◌, ◌≢◌, ◌↔◌, ◌⊎◌, Option, none, some, List, [], ◌∷◌, true, arith, refl, eq_iff,
  Option-cases, if◌then◌else◌, inl, inr,
}
use libre_darwin.Authorizer.{
  Actions, Policy, PeerAuth, granted, contains, signing_id_allowed, narrowed, is_default, is_trust,
  authorize,
}

abbrev Listed : String → List String → Type 0
Listed v [] = ⊥
Listed v (x ∷ list) = (x ≡ v) ⊎ Listed v list

contains_iff : (list : List String) (v : String) → (contains list v ≡ true) ↔ Listed v list
unfolding contains
contains_iff [] v = (λ h. cc, λ h. absurd h)
contains_iff (x ∷ list) v = ground (arith, eq_iff x v, contains_iff list v)

-- What a configured allow-list asks of a peer: the policy names an app group, the peer claims it and a
-- listed signing identifier, and with a team id in the policy its designated requirement held.
pub record Admits (policy : Policy) (peer : PeerAuth) (list : List String) : Type 0 where
  pub group : String
  pub signing_id : String
  pub required : policy.required_app_group ≡ some group
  pub identified : peer.signing_id ≡ some signing_id
  pub listed : Listed signing_id list
  pub entitled : Listed group peer.app_groups
  pub requirement : policy.team_id ≢ none → peer.designated_requirement_valid ≡ some true

Admits-of_allowed :
    (policy : Policy) (peer : PeerAuth) (list : List String)
    → signing_id_allowed policy peer list ≡ true
    → Admits policy peer list
unfolding signing_id_allowed
Admits-of_allowed policy peer list h = elim (Option-cases policy.required_app_group) [
  | inl e ↦ absurd (ground arith)
  | inr (group, e) ↦ elim (Option-cases peer.signing_id) [
    | inl e' ↦ absurd (ground arith)
    | inr (id, e') ↦ record {
      group = group;
      signing_id = id;
      required = e;
      identified = e';
      listed = (contains_iff list id).0 (ground arith);
      entitled = (contains_iff peer.app_groups group).0 (ground arith);
      requirement = λ set. ground arith;
    }
  ]
]

allowed-of_Admits :
    (policy : Policy) (peer : PeerAuth) (list : List String)
    → Admits policy peer list
    → signing_id_allowed policy peer list ≡ true
unfolding signing_id_allowed
allowed-of_Admits policy peer list a = ground (
  arith,
  a.required,
  a.identified,
  a.requirement,
  (contains_iff list a.signing_id).1 a.listed,
  (contains_iff peer.app_groups a.group).1 a.entitled,
)

narrowed_iff :
    (policy : Policy) (peer : PeerAuth) (list : List String)
    → (narrowed policy peer list ≡ granted) ↔ ((list ≡ []) ⊎ Admits policy peer list)
unfolding narrowed
narrowed_iff policy peer [] = (λ _. inl refl, λ _. refl)
narrowed_iff policy peer (id ∷ ids) = (
  λ h. inr (Admits-of_allowed policy peer (id ∷ ids) (ground arith)),
  λ h. elim h [ inl e ↦ cc | inr a ↦ ground (arith, allowed-of_Admits policy peer (id ∷ ids) a) ],
)

-- The list that an action is held to.
abbrev pub list_for : Actions → Policy → String → List String
list_for actions policy action =
    if is_trust actions action then policy.trust_tier_signing_ids else policy.allowed_signing_ids

module _ {Caller Credentials : Type 0} (actions : Actions)
    (credentials : Caller → Option Credentials) (auth_resolver : Credentials → PeerAuth) where
  -- A request is granted exactly when its action is one of the five known, its caller is identified,
  -- and the list of the action's tier is empty or admits the peer's resolved code.
  pub authorize_iff :
      (policy : Policy) (action : String) (caller : Caller)
      → (authorize actions credentials auth_resolver policy action caller ≡ granted) ↔ (
          ((is_default actions action ≡ true) ⊎ (is_trust actions action ≡ true))
          × ((creds : Credentials) × (credentials caller ≡ some creds)
              × ((list_for actions policy action ≡ [])
                  ⊎ Admits policy (auth_resolver creds) (list_for actions policy action))))
  unfolding authorize
  authorize_iff policy action caller = (
    λ h. elim (Option-cases (credentials caller)) [
      | inl e ↦ absurd (ground arith)
      | inr (creds, e) ↦ (
        ground arith,
        (
          creds,
          e,
          (narrowed_iff policy (auth_resolver creds) (list_for actions policy action)).0
              (ground arith),
        ),
      )
    ],
    λ (known, (creds, e, passes)). ground (
      arith,
      (narrowed_iff policy (auth_resolver creds) (list_for actions policy action)).1 passes,
    ),
  )
