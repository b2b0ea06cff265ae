-- ===== src/Prelude/Texts.antt =====
-- The functions of Go's strings package that the program calls, over the native text, which
-- stands for a Go string that holds UTF-8.
use Prim.Native.Nat.{ℕ, compare, Ordering}
use Prim.Native.Char.{Char, code}
use Prim.Native.String
use Prim.Native.String.{String, [], ◌∷◌}
use mathlib.Core.Path.{◌≡◌, refl}
use mathlib.Core.Logic.{◌⊎◌, inl, inr}
use mathlib.Core.Bool.{Bool, true, false, ◌&&◌, ◌||◌}
use mathlib.Core.List.{List}
use native.Mathlib.Omega.{arith}
use text.Mathlib.TextEquality.{codes_equal}
use telemetry_controller.Prelude.Tests.{if◌then◌else◌}

infixr 65 ◌⧺◌
-- Concatenation, as fmt.Sprintf makes it of its verbs.
abbrev pub ◌⧺◌ : String → String → String
s ⧺ t = String.◌++◌ s t

abbrev between : ℕ → ℕ → ℕ → Bool
between lo c hi = elim (compare c lo) [
  | Ordering.lt ↦ false
  | _ ↦ elim (compare hi c) [ Ordering.lt ↦ false | _ ↦ true ]
]

-- strings.Join
unfoldable pub join : List String → String → String
join List.[] sep = []
join (List.◌∷◌ s List.[]) sep = s
join (List.◌∷◌ s (List.◌∷◌ t rest)) sep = s ⧺ sep ⧺ join (List.◌∷◌ t rest) sep

-- unicode.IsSpace
is_space : Char → Bool
is_space ch =
    let c = code ch in
    between 0x09 c 0x0d
    || between 0x20 c 0x20
    || between 0x85 c 0x85
    || between 0xa0 c 0xa0
    || between 0x1680 c 0x1680
    || between 0x2000 c 0x200a
    || between 0x2028 c 0x2029
    || between 0x202f c 0x202f
    || between 0x205f c 0x205f
    || between 0x3000 c 0x3000

is_empty : String → Bool
is_empty [] = true
is_empty (c ∷ s) = false

trim_left : String → String
trim_left [] = []
trim_left (c ∷ s) = let rest = trim_left s in if is_space c then rest else c ∷ s

trim_right : String → String
trim_right [] = []
trim_right (c ∷ s) = let rest = trim_right s in if is_empty rest && is_space c then [] else c ∷ rest

-- strings.TrimSpace
unfoldable pub trim_space : String → String
unfolding trim_left trim_right is_space is_empty
trim_space s = trim_right (trim_left s)

abbrev StartsClean : String → Type 0
StartsClean [] = Unit
StartsClean (c ∷ s) = is_space c ≡ false

trim_left-StartsClean : (s : String) → StartsClean (trim_left s)
unfolding trim_left
trim_left-StartsClean [] = tt
trim_left-StartsClean (c ∷ s) = ground (arith, trim_left-StartsClean s)

trim_left_of_StartsClean : (s : String) → StartsClean s → trim_left s ≡ s
unfolding trim_left
trim_left_of_StartsClean [] h = refl
trim_left_of_StartsClean (c ∷ s) h = rw h

trim_right-StartsClean : (s : String) → StartsClean s → StartsClean (trim_right s)
unfolding trim_right
trim_right-StartsClean [] h = tt
trim_right-StartsClean (c ∷ s) h = ground arith

trim_right_idem : (s : String) → trim_right (trim_right s) ≡ trim_right s
unfolding trim_right is_empty
trim_right_idem [] = refl
trim_right_idem (c ∷ s) = ground (arith, trim_right_idem s)

-- A text that was trimmed has no space to trim.
pub trim_space_idem : (s : String) → trim_space (trim_space s) ≡ trim_space s
unfolding trim_space
trim_space_idem s =
    let clean = trim_right-StartsClean (trim_left s) (trim_left-StartsClean s) in
    rw (trim_left_of_StartsClean (trim_right (trim_left s)) clean) (trim_right_idem (trim_left s))

-- strings.Compare(s, t) <= 0. The order of code points is the order of their bytes.
unfoldable pub text_le : String → String → Bool
text_le [] t = true
text_le (c ∷ s) [] = false
text_le (c ∷ s) (d ∷ t) = elim (compare (code c) (code d)) [
  | Ordering.lt ↦ true
  | Ordering.eq ↦ text_le s t
  | Ordering.gt ↦ false
]

pub text_le_refl : (s : String) → text_le s s ≡ true
unfolding text_le
text_le_refl [] = refl
text_le_refl (c ∷ s) = ground (arith, text_le_refl s)

pub text_le_total : (s t : String) → (text_le s t ≡ true) ⊎ (text_le t s ≡ true)
unfolding text_le
text_le_total [] t = inl refl
text_le_total (c ∷ s) [] = inr refl
text_le_total (c ∷ s) (d ∷ t) = ground (arith, text_le_total s t)

pub text_le_trans : (s t u : String) → text_le s t ≡ true → text_le t u ≡ true → text_le s u ≡ true
unfolding text_le
text_le_trans [] t u h k = refl
text_le_trans (c ∷ s) [] u h k = ground arith
text_le_trans (c ∷ s) (d ∷ t) [] h k = k
text_le_trans (c ∷ s) (d ∷ t) (e ∷ u) h k = ground (arith, text_le_trans s t u)

pub text_le_antisymm : (s t : String) → text_le s t ≡ true → text_le t s ≡ true → s ≡ t
unfolding text_le
text_le_antisymm [] [] h k = refl
text_le_antisymm [] (d ∷ t) h k = ground arith
text_le_antisymm (c ∷ s) [] h k = ground arith
text_le_antisymm (c ∷ s) (d ∷ t) h k = ground (arith, text_le_antisymm s t, codes_equal c d)

-- strings.HasPrefix(s, p), with the prefix first.
unfoldable pub starts_with : String → String → Bool
starts_with [] s = true
starts_with (c ∷ p) [] = false
starts_with (c ∷ p) (d ∷ s) = elim (compare (code c) (code d)) [
  | Ordering.eq ↦ starts_with p s
  | _ ↦ false
]

-- strings.Contains(s, p)
unfoldable pub contains_text : String → String → Bool
unfolding starts_with
contains_text [] p = starts_with p []
contains_text (c ∷ s) p = starts_with p (c ∷ s) || contains_text s p
