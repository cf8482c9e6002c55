-- ===== src/AuthMw/Tests.antt =====
-- Tests of authmw/, and its theorems at concrete inputs.
use mathlib.Core.List.{Memᴰ, Permᴰ}
use service_runtime.Base.{
  ◌≡◌, refl, sym, ap, ◌∙◌, ◌↔◌, true, none, some, List, [], ◌∷◌, Text, codes, trim_space, to_lower,
  equal_fold, text_eq, has_prefix, contains,
}
use service_runtime.AuthMw.Principal.{
  Actor, principal_from_actor, field_of, require_scope, require_human,
}
use service_runtime.AuthMw.Auth.{
  ValidatedApiKey, verified, Middleware, with_auth, write_error, call_next, bearer_token,
  has_all_scopes, split_space, authenticate,
}
use service_runtime.AuthMw.Admission.{Vouches, with_auth_iff, required_scopes_are_granted}
use service_runtime.AuthMw.Order.{Consistent, principal_ignores_order}

bears : bearer_token (codes "bEARER  pk_1 ") ≡ some (codes "pk_1")
unfolding bearer_token equal_fold trim_space split_space text_eq
bears = refl

bears_nothing : bearer_token (codes "Bearer") ≡ none
unfolding bearer_token split_space
bears_nothing = refl

abbrev key : ValidatedApiKey
key = record {
  id = codes "k";
  organization_id = codes "o";
  scopes = codes "read" ∷ codes "write" ∷ [];
}

abbrev keys : Middleware Text
keys = record {
  token_verifier = none;
  api_key_validator = some (λ t. verified key);
  is_forbidden_error = none;
}

abbrev key_actor : Actor
key_actor = record {
  actor_type = codes "api_key";
  id = codes "k";
  organization_id = codes "o";
  attributes = [];
}

reads :
    with_auth Text keys (codes "read" ∷ []) (codes "Bearer pk_1")
    ≡ call_next key_actor (principal_from_actor key_actor key.scopes)
unfolding with_auth bearer_token equal_fold trim_space split_space text_eq authenticate has_prefix
    has_all_scopes contains
reads = refl

lacks :
    with_auth Text keys (codes "admin" ∷ []) (codes "Bearer pk_1")
    ≡ write_error 403 (codes "authorization_failed")
unfolding with_auth bearer_token equal_fold trim_space split_space text_eq authenticate has_prefix
    has_all_scopes contains
lacks = refl

with_auth_iff_example :
    (with_auth Text keys (codes "read" ∷ []) (codes "Bearer pk_1")
      ≡ call_next key_actor (principal_from_actor key_actor key.scopes))
    ↔ ((token : Text) × (available : List Text) × (bearer_token (codes "Bearer pk_1") ≡ some token)
        × Vouches Text keys (codes "read" ∷ []) token key_actor available
        × (principal_from_actor key_actor key.scopes ≡ principal_from_actor key_actor available))
with_auth_iff_example =
    with_auth_iff Text keys (codes "read" ∷ []) (codes "Bearer pk_1") key_actor
      (principal_from_actor key_actor key.scopes)

bears_key : bearer_token (codes "Bearer pk_1") ≡ some (codes "pk_1")
unfolding bearer_token equal_fold trim_space split_space text_eq
bears_key = refl

is_key : has_prefix (codes "pk_1") (codes "pk_") ≡ true
unfolding has_prefix
is_key = refl

read_is_trimmed : trim_space (codes "read") ≡ codes "read"
unfolding trim_space
read_is_trimmed = refl

required_scopes_are_granted_example :
    require_scope (principal_from_actor key_actor key.scopes) (codes "read") ≡ none
required_scopes_are_granted_example =
    required_scopes_are_granted Text keys (codes "read" ∷ []) (codes "Bearer pk_1") (codes "pk_1")
      (codes "read") key_actor (principal_from_actor key_actor key.scopes) bears_key is_key reads
      (Memᴰ.head refl) read_is_trimmed

abbrev agent : Actor
agent = record {
  actor_type = codes "agent";
  id = codes "a";
  organization_id = codes "o";
  attributes = (codes "Agent", codes " b") ∷ (codes "is_human", codes "TRUE") ∷ [];
}

becomes_human : require_human (principal_from_actor agent []) ≡ none
unfolding require_human principal_from_actor field_of trim_space to_lower text_eq equal_fold
becomes_human = refl

pair_is_Consistent : (x y : Text × Text) → ¬ (field_of x.0 ≡ field_of y.0) → Consistent (x ∷ y ∷ [])
pair_is_Consistent x y h a b (Memᴰ.head p) (Memᴰ.head q) e named =
    ap (λ z. trim_space z.1) (p ∙ sym q)
pair_is_Consistent x y h a b (Memᴰ.head p) (Memᴰ.tail (Memᴰ.head q)) e named =
    absurd (h (ap (λ z. field_of z.0) (sym p) ∙ e ∙ ap (λ z. field_of z.0) q))
pair_is_Consistent x y h a b (Memᴰ.head p) (Memᴰ.tail (Memᴰ.tail n)) e named = elim n [ ]
pair_is_Consistent x y h a b (Memᴰ.tail (Memᴰ.head p)) (Memᴰ.tail (Memᴰ.tail n)) e named =
    elim n [ ]
pair_is_Consistent x y h a b (Memᴰ.tail (Memᴰ.tail m)) n e named = elim m [ ]
pair_is_Consistent x y h a b (Memᴰ.tail (Memᴰ.head p)) (Memᴰ.head q) e named =
    absurd (h (ap (λ z. field_of z.0) (sym q) ∙ sym e ∙ ap (λ z. field_of z.0) p))
pair_is_Consistent x y h a b (Memᴰ.tail (Memᴰ.head p)) (Memᴰ.tail (Memᴰ.head q)) e named =
    ap (λ z. trim_space z.1) (p ∙ sym q)

fields_differ : ¬ (field_of (codes "Agent") ≡ field_of (codes "is_human"))
unfolding field_of trim_space to_lower text_eq
fields_differ e = cc

agent_is_Consistent : Consistent agent.attributes
agent_is_Consistent =
    pair_is_Consistent (codes "Agent", codes " b") (codes "is_human", codes "TRUE") fields_differ

principal_ignores_order_example :
    principal_from_actor agent []
    ≡ principal_from_actor
        (record agent {
          attributes = (codes "is_human", codes "TRUE") ∷ (codes "Agent", codes " b") ∷ [];
        })
        []
principal_ignores_order_example =
    principal_ignores_order agent []
      ((codes "is_human", codes "TRUE") ∷ (codes "Agent", codes " b") ∷ []) (Permᴰ.swap refl refl)
      agent_is_Consistent
