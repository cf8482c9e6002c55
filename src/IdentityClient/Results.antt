-- ===== src/IdentityClient/Results.antt =====
-- `Introspect` of identityclient/client.go: the result as a plain struct. The getters of the
-- service's message are an argument.
use service_runtime.Base.{ℕ, Bool, List, Text}
use service_runtime.IdentityClient.Client.{Result, ok, err, Client}
use service_runtime.IdentityClient.Introspect.{Exchange, introspect_proto}

pub record IntrospectionResult : Type 0 where
  pub active : Bool
  pub agent_type : Text
  pub capabilities : List Text
  pub organization_id : Text
  pub run_id : Text
  pub scopes : List Text
  pub service : Text
  pub subject : Text
  pub surface : Text
  pub token_type : Text
  pub user_subject : Text

-- The getters of `identityv1.IntrospectResponse`
pub record Getters (R : Type 0) : Type 0 where
  pub get_active : R → Bool
  pub get_agent_type : R → Text
  pub get_capabilities : R → List Text
  pub get_organization_id : R → Text
  pub get_run_id : R → Text
  pub get_scopes : R → List Text
  pub get_service : R → Text
  pub get_subject : R → Text
  pub get_surface : R → Text
  pub get_token_type : R → Text
  pub get_user_subject : R → Text

module _ {R : Type 0} (g : Getters R) where
  -- A nil message, which a client never returns without an error, is left out.
  unfoldable pub introspection_result_from_proto : R → IntrospectionResult
  introspection_result_from_proto r = record {
    active = g.get_active r;
    agent_type = g.get_agent_type r;
    capabilities = g.get_capabilities r;
    organization_id = g.get_organization_id r;
    run_id = g.get_run_id r;
    scopes = g.get_scopes r;
    service = g.get_service r;
    subject = g.get_subject r;
    surface = g.get_surface r;
    token_type = g.get_token_type r;
    user_subject = g.get_user_subject r;
  }

  from_proto : Result R → Result IntrospectionResult
  from_proto (err e) = err e
  from_proto (ok r) = ok (introspection_result_from_proto r)

  unfoldable pub introspect :
      ℕ → ℕ → Text → Exchange R → Client R → Client R × Result IntrospectionResult
  unfolding from_proto
  introspect now later token exchange c =
      let (c', r) = introspect_proto g.get_active now later token exchange c in (c', from_proto r)
