-- ===== src/AuthMw/Admission.antt =====
-- Who reaches the next handler (authmw/authmw.go).
use mathlib.Core.List.{Memᴰ}
use mathlib.Core.Path.{subst}
use service_runtime.Base.{
  ◌≡◌, refl, sym, ◌∙◌, ap, ◌↔◌, inl, inr, true, false, none, some, List, [], arith, All, Text,
  codes, is_empty, trim_space, has_prefix, Bool-cases, Option-cases,
}
use service_runtime.AuthMw.Principal.{Actor, Principal, principal_from_actor, require_scope}
use service_runtime.AuthMw.Auth.{
  VerifiedToken, ValidatedApiKey, bearer_token, Verified, verified, failed, Middleware,
  Authenticated, authenticated, unauthenticated, authenticate, call_next, with_auth, api_key_result,
  authenticate_api_key_with, token_result, authenticate_token_with, handling, with_token,
}
use service_runtime.AuthMw.Checks.{
  has_all_scopes_iff, principal-scopes, All-Mem, require_scope-contained,
}

module _ (E : Type 0) where
  abbrev pub key_actor : ValidatedApiKey → Actor
  key_actor k = record {
    actor_type = codes "api_key";
    id = k.id;
    organization_id = k.organization_id;
    attributes = [];
  }

  -- The identity service vouches for the token: a key by its scopes, another token by the verifier.
  pub data Vouches (m : Middleware E) (scopes : List Text) (token : Text) (a : Actor)
      (available : List Text) : Type 0 where
    by_key :
        (validate : Text → Verified E ValidatedApiKey) (k : ValidatedApiKey)
        → has_prefix token (codes "pk_") ≡ true
        → m.api_key_validator ≡ some validate
        → validate token ≡ verified k
        → All (λ r. (is_empty r ≡ false) × Memᴰ r k.scopes) scopes
        → a ≡ key_actor k
        → available ≡ k.scopes
        → Vouches m scopes token a available
    by_token :
        (verify : Text → List Text → Verified E VerifiedToken) (v : VerifiedToken)
        → has_prefix token (codes "pk_") ≡ false
        → m.token_verifier ≡ some verify
        → verify token scopes ≡ verified v
        → a ≡ v.actor
        → available ≡ v.scopes
        → Vouches m scopes token a available

  Vouches-authenticate :
      (m : Middleware E) (scopes : List Text) (token : Text) (a : Actor) (available : List Text)
      → Vouches m scopes token a available
      → authenticate E m token scopes ≡ authenticated a available
  unfolding authenticate authenticate_api_key_with authenticate_token_with api_key_result
      token_result
  Vouches-authenticate m scopes token a available (by_key validate k p c v h e f) =
      let all = (has_all_scopes_iff k.scopes scopes).1 h in rw (p, c, v, all, e, f)
  Vouches-authenticate m scopes token a available (by_token verify v p c w e f) = rw (p, c, w, e, f)

  key_result-Vouches :
      (m : Middleware E) (scopes : List Text) (token : Text) (a : Actor) (available : List Text)
      (validate : Text → Verified E ValidatedApiKey) (r : Verified E ValidatedApiKey)
      → has_prefix token (codes "pk_") ≡ true
      → m.api_key_validator ≡ some validate
      → validate token ≡ r
      → api_key_result E scopes r ≡ authenticated a available
      → Vouches m scopes token a available
  unfolding api_key_result
  key_result-Vouches m scopes token a available validate (failed x) p c v e = cc
  key_result-Vouches m scopes token a available validate (verified k) p c v e =
      by_key validate k p c v ((has_all_scopes_iff k.scopes scopes).0 (ground (arith, e)))
        (ground (arith, e)) (ground (arith, e))

  token_result-Vouches :
      (m : Middleware E) (scopes : List Text) (token : Text) (a : Actor) (available : List Text)
      (verify : Text → List Text → Verified E VerifiedToken) (r : Verified E VerifiedToken)
      → has_prefix token (codes "pk_") ≡ false
      → m.token_verifier ≡ some verify
      → verify token scopes ≡ r
      → token_result E r ≡ authenticated a available
      → Vouches m scopes token a available
  unfolding token_result
  token_result-Vouches m scopes token a available verify (failed x) p c v e = cc
  token_result-Vouches m scopes token a available verify (verified k) p c v e =
      by_token verify k p c v (ground (arith, e)) (ground (arith, e))

  authenticate-Vouches :
      (m : Middleware E) (scopes : List Text) (token : Text) (a : Actor) (available : List Text)
      → authenticate E m token scopes ≡ authenticated a available
      → Vouches m scopes token a available
  unfolding authenticate authenticate_api_key_with authenticate_token_with
  authenticate-Vouches m scopes token a available e =
      elim (Bool-cases (has_prefix token (codes "pk_"))) [
        | inl p ↦ elim (Option-cases m.api_key_validator) [
          | inl c ↦ absurd (ground (arith, e, p, c))
          | inr c ↦
              key_result-Vouches m scopes token a available c.0 (c.0 token) p c.1 refl
                (ground (arith, e, p, c.1))
        ]
        | inr p ↦ elim (Option-cases m.token_verifier) [
          | inl c ↦ absurd (ground (arith, e, p, c))
          | inr c ↦
              token_result-Vouches m scopes token a available c.0 (c.0 token scopes) p c.1 refl
                (ground (arith, e, p, c.1))
        ]
      ]

  handling-calls :
      (m : Middleware E) (x : Authenticated E) (a : Actor) (p : Principal)
      → handling E m x ≡ call_next a p
      → (available : List Text) × (x ≡ authenticated a available)
        × (p ≡ principal_from_actor a available)
  unfolding handling
  handling-calls m (unauthenticated e) a p h = cc
  handling-calls m (authenticated b available) a p h = (available, cc, cc)

  -- The next handler is called just if the Authorization header has a bearer token for which the
  -- identity service vouches with all required scopes, and then with that actor and its principal.
  pub with_auth_iff :
      (m : Middleware E) (scopes : List Text) (header : Text) (a : Actor) (p : Principal)
      → (with_auth E m scopes header ≡ call_next a p) ↔ (
          (token : Text) × (available : List Text) × (bearer_token header ≡ some token)
          × Vouches m scopes token a available
          × (p ≡ principal_from_actor a available))
  unfolding with_auth with_token handling
  with_auth_iff m scopes header a p = (
    λ h. elim (Option-cases (bearer_token header)) [
      | inl none_found ↦ absurd (ground (arith, h, none_found))
      | inr found ↦
          let (available, auth, e) =
            handling-calls m (authenticate E m found.0 scopes) a p (ground (arith, h, found.1)) in
          (found.0, available, found.1, authenticate-Vouches m scopes found.0 a available auth, e)
    ],
    λ q.
        let (token, available, b, v, e) = q in
        let auth = Vouches-authenticate m scopes token a available v in rw (b, auth, e),
  )

  -- With a key of the API, every check of a scope that the middleware required is passed by the
  -- principal that the next handler gets; the required scopes have no space around them.
  pub required_scopes_are_granted :
      (m : Middleware E) (scopes : List Text) (header token scope : Text) (a : Actor)
      (p : Principal)
      → bearer_token header ≡ some token
      → has_prefix token (codes "pk_") ≡ true
      → with_auth E m scopes header ≡ call_next a p
      → Memᴰ scope scopes
      → trim_space scope ≡ scope
      → require_scope p scope ≡ none
  required_scopes_are_granted m scopes header token scope a p b pk h wanted trimmed =
      let (token', available, b', v, e) = (with_auth_iff m scopes header a p).0 h in
      let same : token' ≡ token = cc in
      elim v [
        | by_key validate k pk' c r all f g ↦ require_scope-contained p scope trimmed (
            subst (Memᴰ scope) (sym (ap (λ x. x.scopes) e ∙ principal-scopes a available ∙ g))
              (All-Mem _ scopes all wanted).1)
        | by_token verify w pk' c r f g ↦ absurd (ground (arith, pk, pk', same))
      ]
