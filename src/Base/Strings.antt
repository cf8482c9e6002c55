-- ===== src/Base/Strings.antt =====
-- Go strings as the lists of their code points. A Go string that is valid UTF-8 is such a list.
use Prim.Native.Nat.{ℕ, ◌+◌, ◌/◌, ◌%◌}
use Prim.Native.Char.{code}
use Prim.Native.String.{String}
use mathlib.Core.Path.{◌≡◌, refl, ap, sym, ◌∙◌}
use mathlib.Core.Logic.{◌↔◌, inl, inr}
use mathlib.Core.Bool.{Bool, true, false, ◌&&◌, ◌||◌}
use mathlib.Core.List.{List, [], ◌∷◌, ◌++◌, reverse, map, Memᴰ}
use native.Mathlib.Omega.{arith}
use service_runtime.Base.Tests.{leb, ltb, ◌==◌, if◌then◌else◌, Bool-cases}

abbrev pub Text : Type 0
Text = List ℕ

abbrev pub codes : String → Text
codes String.[] = []
codes (String.◌∷◌ c s) = code c ∷ codes s

unfoldable pub text_eq : Text → Text → Bool
text_eq [] [] = true
text_eq [] (y ∷ ys) = false
text_eq (x ∷ xs) [] = false
text_eq (x ∷ xs) (y ∷ ys) = x == y && text_eq xs ys

pub text_eq_refl : (s : Text) → text_eq s s ≡ true
unfolding text_eq
text_eq_refl [] = refl
text_eq_refl (x ∷ xs) = ground (arith, text_eq_refl xs)

pub text_eq_sound : (s t : Text) → text_eq s t ≡ true → s ≡ t
unfolding text_eq
text_eq_sound [] [] h = refl
text_eq_sound [] (y ∷ ys) h = cc
text_eq_sound (x ∷ xs) [] h = cc
text_eq_sound (x ∷ xs) (y ∷ ys) h = ground (arith, text_eq_sound xs ys)

pub text_eq_iff : (s t : Text) → (text_eq s t ≡ true) ↔ (s ≡ t)
text_eq_iff s t = (text_eq_sound s t, λ e. ap (text_eq s) (sym e) ∙ text_eq_refl s)

-- `s == ""`
abbrev pub is_empty : Text → Bool
is_empty [] = true
is_empty (x ∷ xs) = false

-- `unicode.IsSpace`
pub is_space : ℕ → Bool
is_space c =
    (leb 9 c && leb c 13)
    || c == 32
    || c == 0x85
    || c == 0xA0
    || c == 0x1680
    || (leb 0x2000 c && leb c 0x200A)
    || c == 0x2028
    || c == 0x2029
    || c == 0x202F
    || c == 0x205F
    || c == 0x3000

pub drop_space : Text → Text
drop_space [] = []
drop_space (c ∷ cs) = let rest = drop_space cs in if is_space c then rest else c ∷ cs

-- `strings.TrimSpace`
unfoldable pub trim_space : Text → Text
unfolding drop_space is_space
trim_space s = reverse (drop_space (reverse (drop_space s)))

-- The bytes of one code point.
encode_rune : ℕ → List ℕ
encode_rune c =
    if ltb c 0x80
    then c ∷ []
    else if ltb c 0x800
    then (0xC0 + c / 64) ∷ (0x80 + c % 64) ∷ []
    else if ltb c 0x10000
    then (0xE0 + c / 4096) ∷ (0x80 + c / 64 % 64) ∷ (0x80 + c % 64) ∷ []
    else (0xF0 + c / 262144) ∷ (0x80 + c / 4096 % 64) ∷ (0x80 + c / 64 % 64) ∷ (0x80 + c % 64) ∷ []

-- `[]byte(s)`
unfoldable pub utf8 : Text → List ℕ
unfolding encode_rune
utf8 [] = []
utf8 (c ∷ cs) = encode_rune c ++ utf8 cs

lower_rune : ℕ → ℕ
lower_rune c =
    if leb 65 c && leb c 90
    then c + 32
    else if c == 0x212A
    then 107
    else if c == 0x130
    then 105
    else c

-- `strings.ToLower`, exact where the result is compared with ASCII text: the runes whose lower case
-- is an ASCII letter are A to Z, the Kelvin sign and the dotted capital I.
unfoldable pub to_lower : Text → Text
unfolding lower_rune
to_lower s = map lower_rune s

fold_rune : ℕ → ℕ
fold_rune c =
    if leb 65 c && leb c 90
    then c + 32
    else if c == 0x212A
    then 107
    else if c == 0x17F
    then 115
    else c

-- `strings.EqualFold` with ASCII text
unfoldable pub equal_fold : Text → Text → Bool
unfolding fold_rune
equal_fold s t = text_eq (map fold_rune s) (map fold_rune t)

unfoldable pub has_prefix : Text → Text → Bool
has_prefix s [] = true
has_prefix [] (y ∷ ys) = false
has_prefix (x ∷ xs) (y ∷ ys) = x == y && has_prefix xs ys

-- `slices.Contains`
unfoldable pub contains : List Text → Text → Bool
contains [] t = false
contains (s ∷ ss) t = text_eq s t || contains ss t

pub contains_sound : (ss : List Text) (t : Text) → contains ss t ≡ true → Memᴰ t ss
unfolding contains
contains_sound [] t h = cc
contains_sound (s ∷ ss) t h = elim (Bool-cases (text_eq s t)) [
  | inl e ↦ Memᴰ.head (sym (text_eq_sound s t e))
  | inr e ↦ Memᴰ.tail (contains_sound ss t (ground (arith, h, e)))
]

pub contains_complete : (ss : List Text) (t : Text) → Memᴰ t ss → contains ss t ≡ true
unfolding contains
contains_complete [] t m = elim m [ ]
contains_complete (s ∷ ss) t (Memᴰ.head e) = rw (sym e, text_eq_refl t)
contains_complete (s ∷ ss) t (Memᴰ.tail m) = ground (arith, contains_complete ss t m)
