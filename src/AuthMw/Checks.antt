-- ===== src/AuthMw/Checks.antt =====
-- What the checks on scopes and principals answer (authmw/).
use mathlib.Core.List.{Memᴰ}
use mathlib.Core.Path.{subst}
use service_runtime.Base.{
  ◌≡◌, refl, sym, ◌∙◌, ◌↔◌, ◌⊎◌, inl, inr, true, false, none, List, [], ◌∷◌, arith, All, Text,
  is_empty, text_eq, text_eq_iff, trim_space, contains_sound, contains_complete, Bool-cases,
}
use service_runtime.AuthMw.Principal.{
  Actor, Principal, principal_from_actor, set_attributes, base_principal, require_scope,
  reject_self_approval, set_field, field_of, any_is, Field, workspace_field, agent_field,
  user_subject_field, service_field, token_type_field, is_human_field, no_field,
}
use service_runtime.AuthMw.Auth.{has_scope, has_all_scopes}

has_scope_iff :
    (available : List Text) (r : Text)
    → (has_scope available r ≡ true) ↔ ((is_empty r ≡ false) × Memᴰ r available)
unfolding has_scope
has_scope_iff available r = (
  λ h. (ground (arith, h), contains_sound available r (ground (arith, h))),
  λ p. ground (arith, p.0, contains_complete available r p.1),
)

-- `HasAllScopes` holds of a list of required scopes just if none of them is empty and all of them are
-- available.
pub has_all_scopes_iff :
    (available required : List Text)
    → (has_all_scopes available required ≡ true)
      ↔ All (λ r. (is_empty r ≡ false) × Memᴰ r available) required
unfolding has_all_scopes
has_all_scopes_iff available [] = (λ h. tt, λ p. refl)
has_all_scopes_iff available (r ∷ rs) =
    let (one, one') = has_scope_iff available r in
    let (all, all') = has_all_scopes_iff available rs in
    (λ h. (one (ground (arith, h)), all (ground (arith, h))), λ p. rw (one' p.0) (all' p.1))

set_field-scopes : (f : Field) (v : Text) (p : Principal) → (set_field f v p).scopes ≡ p.scopes
unfolding set_field
set_field-scopes workspace_field v p = refl
set_field-scopes agent_field v p = refl
set_field-scopes user_subject_field v p = refl
set_field-scopes service_field v p = refl
set_field-scopes token_type_field v p = refl
set_field-scopes is_human_field v p = refl
set_field-scopes no_field v p = refl

set_attributes-scopes :
    (attributes : List (Text × Text)) (p : Principal)
    → (set_attributes attributes p).scopes ≡ p.scopes
unfolding set_attributes
set_attributes-scopes [] p = refl
set_attributes-scopes (x ∷ xs) p =
    set_attributes-scopes xs (set_field (field_of x.0) (trim_space x.1) p)
    ∙ set_field-scopes (field_of x.0) (trim_space x.1) p

pub principal-scopes :
    (a : Actor) (scopes : List Text) → (principal_from_actor a scopes).scopes ≡ scopes
unfolding principal_from_actor base_principal
principal-scopes a scopes = set_attributes-scopes a.attributes (base_principal a scopes)

pub All-Mem : {A : Type 0} (P : A → Type 0) {a : A} (xs : List A) → All P xs → Memᴰ a xs → P a
All-Mem P [] h m = elim m [ ]
All-Mem P (x ∷ xs) h (Memᴰ.head e) = subst P (sym e) h.0
All-Mem P (x ∷ xs) h (Memᴰ.tail m) = All-Mem P xs h.1 m

pub require_scope-contained :
    (p : Principal) (scope : Text)
    → trim_space scope ≡ scope
    → Memᴰ scope p.scopes
    → require_scope p scope ≡ none
unfolding require_scope
require_scope-contained p scope t m = rw t (ground (arith, contains_complete p.scopes scope m))

any_is_iff :
    (cs : List Text) (agent : Text)
    → (any_is cs agent ≡ none) ↔ All (λ c. ¬ (trim_space c ≡ agent)) cs
unfolding any_is
any_is_iff [] agent = (λ h. tt, λ h. refl)
any_is_iff (c ∷ cs) agent =
    let (to, from) = any_is_iff cs agent in
    let (sound, complete) = text_eq_iff (trim_space c) agent in
    (
      λ h. (λ e. ground (arith, complete e, h), to (ground (arith, h))),
      λ p. elim (Bool-cases (text_eq (trim_space c) agent)) [
        | inl same ↦ absurd (p.0 (sound same))
        | inr other ↦ rw other (from p.1)
      ],
    )

-- `RejectSelfApproval` passes just if the trimmed agent is empty or is neither the agent, the subject
-- nor the user of the principal, all trimmed.
pub reject_self_approval_iff :
    (p : Principal) (agent_id : Text)
    → (reject_self_approval p agent_id ≡ none) ↔ (
        (is_empty (trim_space agent_id) ≡ true)
        ⊎ All
            (λ c. ¬ (trim_space c ≡ trim_space agent_id))
            (p.agent_id ∷ p.subject ∷ p.user_subject ∷ []))
unfolding reject_self_approval
reject_self_approval_iff p agent_id =
    let (to, from) =
      any_is_iff (p.agent_id ∷ p.subject ∷ p.user_subject ∷ []) (trim_space agent_id) in
    (
      λ h. elim (Bool-cases (is_empty (trim_space agent_id))) [
        | inl e ↦ inl e
        | inr e ↦ inr (to (ground (arith, h, e)))
      ],
      λ q. elim q [ inl e ↦ rw e | inr all ↦ ground (arith, from all) ],
    )
