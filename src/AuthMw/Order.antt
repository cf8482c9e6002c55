-- ===== src/AuthMw/Order.antt =====
-- The order of a principal's attributes (authmw/principal.go): a Go map has none.
use mathlib.Core.List.{Memᴰ, Permᴰ}
use mathlib.Core.Path.{ap₂}
use service_runtime.Base.{◌≡◌, ◌≢◌, refl, sym, ◌∙◌, ap, List, arith, Text, trim_space}
use service_runtime.AuthMw.Principal.{
  Actor, Principal, Field, workspace_field, agent_field, user_subject_field, service_field,
  token_type_field, is_human_field, no_field, field_of, set_field, set_attributes, base_principal,
  principal_from_actor,
}

-- Two attributes of the same field of a principal have the same trimmed value; attributes that name
-- no field are free.
abbrev pub Consistent : List (Text × Text) → Type 0
Consistent attributes =
    (a b : Text × Text)
    → Memᴰ a attributes
    → Memᴰ b attributes
    → field_of a.0 ≡ field_of b.0
    → field_of a.0 ≢ no_field
    → trim_space a.1 ≡ trim_space b.1

named_comm :
    (f g : Field) (v w : Text) (p : Principal)
    → (f ≡ g → v ≡ w)
    → set_field f v (set_field g w p) ≡ set_field g w (set_field f v p)
unfolding set_field
named_comm workspace_field g v w p h = ground (arith, h)
named_comm agent_field g v w p h = ground (arith, h)
named_comm user_subject_field g v w p h = ground (arith, h)
named_comm service_field g v w p h = ground (arith, h)
named_comm token_type_field g v w p h = ground (arith, h)
named_comm is_human_field g v w p h = ground (arith, h)
named_comm no_field g v w p h = refl

set_field_comm :
    (f g : Field) (v w : Text) (p : Principal)
    → (f ≡ g → f ≢ no_field → v ≡ w)
    → set_field f v (set_field g w p) ≡ set_field g w (set_field f v p)
unfolding set_field
set_field_comm workspace_field g v w p h = named_comm workspace_field g v w p (λ e. h e (λ z. cc))
set_field_comm agent_field g v w p h = named_comm agent_field g v w p (λ e. h e (λ z. cc))
set_field_comm user_subject_field g v w p h =
    named_comm user_subject_field g v w p (λ e. h e (λ z. cc))
set_field_comm service_field g v w p h = named_comm service_field g v w p (λ e. h e (λ z. cc))
set_field_comm token_type_field g v w p h = named_comm token_type_field g v w p (λ e. h e (λ z. cc))
set_field_comm is_human_field g v w p h = named_comm is_human_field g v w p (λ e. h e (λ z. cc))
set_field_comm no_field g v w p h = refl

Mem-Perm : {A : Type 0} {a : A} {xs ys : List A} → Permᴰ xs ys → Memᴰ a ys → Memᴰ a xs
Mem-Perm Permᴰ.nil m = m
Mem-Perm (Permᴰ.cons e d) (Memᴰ.head h) = Memᴰ.head (h ∙ sym e)
Mem-Perm (Permᴰ.cons e d) (Memᴰ.tail m) = Memᴰ.tail (Mem-Perm d m)
Mem-Perm (Permᴰ.swap e f) (Memᴰ.head h) = Memᴰ.tail (Memᴰ.head (h ∙ sym f))
Mem-Perm (Permᴰ.swap e f) (Memᴰ.tail (Memᴰ.head h)) = Memᴰ.head (h ∙ sym e)
Mem-Perm (Permᴰ.swap e f) (Memᴰ.tail (Memᴰ.tail m)) = Memᴰ.tail (Memᴰ.tail m)
Mem-Perm (Permᴰ.trans d e) m = Mem-Perm d (Mem-Perm e m)

set_attributes-Perm :
    {xs ys : List (Text × Text)} (p : Principal)
    → Permᴰ xs ys
    → Consistent xs
    → set_attributes xs p ≡ set_attributes ys p
unfolding set_attributes
set_attributes-Perm p Permᴰ.nil c = refl
set_attributes-Perm p (Permᴰ.cons {a = a} {b = b} {l₂ = l} e d) c =
    set_attributes-Perm (set_field (field_of a.0) (trim_space a.1) p) d
      (λ x y m n. c x y (Memᴰ.tail m) (Memᴰ.tail n))
    ∙ ap (λ x. set_attributes l (set_field (field_of x.0) (trim_space x.1) p)) e
set_attributes-Perm p (Permᴰ.swap {a = a} {b = b} {l = l} e f) c =
    ap (set_attributes l) (
      set_field_comm (field_of b.0) (field_of a.0) (trim_space b.1) (trim_space a.1) p
        (c b a (Memᴰ.tail (Memᴰ.head refl)) (Memᴰ.head refl)))
    ∙ ap₂
        (λ x y.
          set_attributes l (
            set_field (field_of x.0) (trim_space x.1)
              (set_field (field_of y.0) (trim_space y.1) p)))
        e f
set_attributes-Perm p (Permᴰ.trans d e) c =
    set_attributes-Perm p d c
    ∙ set_attributes-Perm p e (λ x y m n. c x y (Mem-Perm d m) (Mem-Perm d n))

-- The principal does not depend on the order in which the actor's attributes are visited, if those
-- that name the same field have the same trimmed value; those that name no field may be any.
pub principal_ignores_order :
    (a : Actor) (scopes : List Text) (attributes : List (Text × Text))
    → Permᴰ a.attributes attributes
    → Consistent a.attributes
    → principal_from_actor a scopes
      ≡ principal_from_actor (record a { attributes = attributes }) scopes
unfolding principal_from_actor base_principal
principal_ignores_order a scopes attributes p c = set_attributes-Perm (base_principal a scopes) p c
