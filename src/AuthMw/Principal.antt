-- ===== src/AuthMw/Principal.antt =====
-- authmw/principal.go. A Go map is the list of its entries in the order in which a `range` visits
-- them, and an error is its Connect code.
use service_runtime.Base.{
  Bool, ◌||◌, Option, none, some, List, [], ◌∷◌, if◌then◌else◌, Text, codes, is_empty, text_eq,
  trim_space, to_lower, equal_fold, contains,
}

-- `Actor` of authmw/authmw.go
pub record Actor : Type 0 where
  pub actor_type : Text
  pub id : Text
  pub organization_id : Text
  pub attributes : List (Text × Text)

pub record Principal : Type 0 where
  pub organization_id : Text
  pub workspace_id : Text
  pub subject : Text
  pub user_subject : Text
  pub service : Text
  pub token_type : Text
  pub scopes : List Text
  pub agent_id : Text
  pub is_human : Bool

unfoldable pub is_human_actor_type : Text → Bool
is_human_actor_type t =
    let name = to_lower (trim_space t) in
    text_eq name (codes "human") || text_eq name (codes "user")

-- The cases of the switch over the attributes' names.
pub data Field : Type 0 where
  workspace_field agent_field user_subject_field service_field token_type_field is_human_field :
      Field
  no_field : Field

field_named : Text → Field
field_named name =
    if text_eq name (codes "workspace_id") || text_eq name (codes "workspace")
    then workspace_field
    else if text_eq name (codes "agent_id") || text_eq name (codes "agent")
    then agent_field
    else if text_eq name (codes "user_subject")
    then user_subject_field
    else if text_eq name (codes "service")
    then service_field
    else if text_eq name (codes "token_type")
    then token_type_field
    else if text_eq name (codes "is_human")
    then is_human_field
    else no_field

unfoldable pub field_of : Text → Field
unfolding field_named
field_of key = field_named (to_lower (trim_space key))

unfoldable pub set_field : Field → Text → Principal → Principal
set_field workspace_field v p = record p { workspace_id = v }
set_field agent_field v p = record p { agent_id = v }
set_field user_subject_field v p = record p { user_subject = v }
set_field service_field v p = record p { service = v }
set_field token_type_field v p = record p { token_type = v }
set_field is_human_field v p = record p { is_human = p.is_human || equal_fold v (codes "true") }
set_field no_field v p = p

-- The loop over the attributes.
unfoldable pub set_attributes : List (Text × Text) → Principal → Principal
unfolding set_field
set_attributes [] p = p
set_attributes (a ∷ rest) p = set_attributes rest (set_field (field_of a.0) (trim_space a.1) p)

-- The principal before that loop.
unfoldable pub base_principal : Actor → List Text → Principal
unfolding is_human_actor_type
base_principal a scopes =
    let token_type = trim_space a.actor_type in
    let subject = trim_space a.id in
    record {
      organization_id = trim_space a.organization_id;
      workspace_id = [];
      subject = subject;
      user_subject = [];
      service = if text_eq token_type (codes "service") then subject else [];
      token_type = token_type;
      scopes = scopes;
      agent_id = [];
      is_human = is_human_actor_type a.actor_type;
    }

unfoldable pub principal_from_actor : Actor → List Text → Principal
unfolding set_attributes base_principal
principal_from_actor a scopes = set_attributes a.attributes (base_principal a scopes)

pub data Code : Type 0 where
  invalid_argument permission_denied : Code

require_same : Text → Text → Option Code
require_same own target =
    if is_empty target
    then some invalid_argument
    else if text_eq (trim_space own) target
    then none
    else some permission_denied

unfoldable pub require_organization : Principal → Text → Option Code
unfolding require_same
require_organization p id = require_same p.organization_id (trim_space id)

unfoldable pub require_workspace : Principal → Text → Option Code
unfolding require_same
require_workspace p id = require_same p.workspace_id (trim_space id)

unfoldable pub require_scope : Principal → Text → Option Code
require_scope p scope =
    let wanted = trim_space scope in
    if is_empty wanted || contains p.scopes wanted then none else some permission_denied

unfoldable pub require_human : Principal → Option Code
unfolding is_human_actor_type
require_human p =
    if p.is_human || is_human_actor_type p.token_type then none else some permission_denied

unfoldable pub any_is : List Text → Text → Option Code
any_is [] agent = none
any_is (c ∷ cs) agent =
    let rest = any_is cs agent in
    if text_eq (trim_space c) agent then some permission_denied else rest

unfoldable pub reject_self_approval : Principal → Text → Option Code
unfolding any_is
reject_self_approval p agent_id =
    let agent = trim_space agent_id in
    if is_empty agent then none else any_is (p.agent_id ∷ p.subject ∷ p.user_subject ∷ []) agent
