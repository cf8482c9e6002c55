-- ===== src/AuthMw/Auth.antt =====
-- authmw/authmw.go and authmw/errors.go. The verifier and the validator are functions of the token, or
-- missing, and their errors are of a type of their own.
use service_runtime.Base.{
  ℕ, Bool, true, false, not, ◌&&◌, Option, none, some, List, [], ◌∷◌, ◌==◌, if◌then◌else◌, Text,
  codes, is_empty, trim_space, equal_fold, has_prefix, contains,
}
use service_runtime.AuthMw.Principal.{Actor, Principal, principal_from_actor}

pub record VerifiedToken : Type 0 where
  pub actor : Actor
  pub scopes : List Text

pub record ValidatedApiKey : Type 0 where
  pub id : Text
  pub organization_id : Text
  pub scopes : List Text

unfoldable pub has_scope : List Text → Text → Bool
has_scope available required = not (is_empty required) && contains available required

unfoldable pub has_all_scopes : List Text → List Text → Bool
unfolding has_scope
has_all_scopes available [] = true
has_all_scopes available (r ∷ rs) =
    let rest = has_all_scopes available rs in if has_scope available r then rest else false

-- `strings.SplitN(header, " ", 2)`, when it has two parts
unfoldable pub split_space : Text → Option (Text × Text)
split_space [] = none
split_space (c ∷ cs) =
    let rest = split_space cs in
    if c == 32 then some ([], cs) else elim rest [ none ↦ none | some p ↦ some (c ∷ p.0, p.1) ]

bearer_part : Option (Text × Text) → Option Text
bearer_part none = none
bearer_part (some p) =
    let token = trim_space p.1 in
    if not (equal_fold p.0 (codes "Bearer"))
    then none
    else if is_empty token
    then none
    else some token

unfoldable pub bearer_token : Text → Option Text
unfolding bearer_part
bearer_token header = bearer_part (split_space header)

-- An error's status and code, or the call of the next handler with what its context holds.
pub data Handling : Type 0 where
  write_error : ℕ → Text → Handling
  call_next : Actor → Principal → Handling

module _ (E : Type 0) where
  pub data AuthError : Type 0 where
    missing_scopes token_verifier_unavailable api_key_validator_unavailable : AuthError
    service_error : E → AuthError

  pub data Verified (A : Type 0) : Type 0 where
    verified : A → Verified A
    failed : E → Verified A

  pub record Middleware : Type 0 where
    pub token_verifier : Option (Text → List Text → Verified VerifiedToken)
    pub api_key_validator : Option (Text → Verified ValidatedApiKey)
    pub is_forbidden_error : Option (AuthError → Bool)

  pub data Authenticated : Type 0 where
    authenticated : Actor → List Text → Authenticated
    unauthenticated : AuthError → Authenticated

  unfoldable pub api_key_result : List Text → Verified ValidatedApiKey → Authenticated
  api_key_result scopes (failed e) = unauthenticated (service_error e)
  api_key_result scopes (verified k) =
      if not (has_all_scopes k.scopes scopes)
      then unauthenticated missing_scopes
      else authenticated
          (record {
            actor_type = codes "api_key";
            id = k.id;
            organization_id = k.organization_id;
            attributes = [];
          })
          k.scopes

  unfoldable pub authenticate_api_key_with :
      Option (Text → Verified ValidatedApiKey) → Text → List Text → Authenticated
  unfolding api_key_result
  authenticate_api_key_with none token scopes = unauthenticated api_key_validator_unavailable
  authenticate_api_key_with (some validate) token scopes = api_key_result scopes (validate token)

  unfoldable pub token_result : Verified VerifiedToken → Authenticated
  token_result (failed e) = unauthenticated (service_error e)
  token_result (verified v) = authenticated v.actor v.scopes

  unfoldable pub authenticate_token_with :
      Option (Text → List Text → Verified VerifiedToken) → Text → List Text → Authenticated
  unfolding token_result
  authenticate_token_with none token scopes = unauthenticated token_verifier_unavailable
  authenticate_token_with (some verify) token scopes = token_result (verify token scopes)

  unfoldable pub authenticate : Middleware → Text → List Text → Authenticated
  unfolding authenticate_api_key_with authenticate_token_with
  authenticate m token scopes =
      if has_prefix token (codes "pk_")
      then authenticate_api_key_with m.api_key_validator token scopes
      else authenticate_token_with m.token_verifier token scopes

  unfoldable pub is_missing_scopes : AuthError → Bool
  is_missing_scopes missing_scopes = true
  is_missing_scopes token_verifier_unavailable = false
  is_missing_scopes api_key_validator_unavailable = false
  is_missing_scopes (service_error e) = false

  -- `isForbidden` of an error that is not nil
  unfoldable pub is_forbidden : Middleware → AuthError → Bool
  unfolding is_missing_scopes
  is_forbidden m e = elim m.is_forbidden_error [ none ↦ is_missing_scopes e | some f ↦ f e ]

  unfoldable pub handling : Middleware → Authenticated → Handling
  unfolding is_forbidden
  handling m (unauthenticated e) =
      write_error (if is_forbidden m e then 403 else 401) (codes "authorization_failed")
  handling m (authenticated actor available) =
      call_next actor (principal_from_actor actor available)

  unfoldable pub with_token : Middleware → List Text → Option Text → Handling
  unfolding handling
  with_token m scopes none = write_error 401 (codes "missing_authorization")
  with_token m scopes (some token) = handling m (authenticate m token scopes)

  unfoldable pub with_auth : Middleware → List Text → Text → Handling
  unfolding with_token
  with_auth m scopes header = with_token m scopes (bearer_token header)
