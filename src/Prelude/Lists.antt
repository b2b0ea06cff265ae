-- ===== src/Prelude/Lists.antt =====
-- Lists measured by native numbers, predicates over lists, and Go's slices.
use Prim.Native.Nat.{ℕ, suc, ◌+◌}
use mathlib.Core.Path.{◌≡◌, refl, sym, subst}
use mathlib.Core.Logic.{◌⊎◌, inl, inr}
use mathlib.Core.Bool.{Bool, true, false, ◌||◌}
use mathlib.Core.Option.{Option, none, some}
use mathlib.Core.List.{List, [], ◌∷◌, ◌++◌}
use native.Mathlib.Omega.{arith}
use telemetry_controller.Prelude.Tests.{if◌then◌else◌, Bool-cases, Eq, ◌==◌}

module _ {ℓ} {A : Type ℓ} where
  abbrev pub length : List A → ℕ
  length [] = 0
  length (x ∷ xs) = suc (length xs)

  pub length-append : (xs ys : List A) → length (xs ++ ys) ≡ length xs + length ys
  length-append [] ys = omega arith
  length-append (x ∷ xs) ys = omega (arith, length-append xs ys)

  -- The elements that pass a test, in order.
  abbrev pub keep : (A → Bool) → List A → List A
  keep p [] = []
  keep p (x ∷ xs) = let rest = keep p xs in if p x then x ∷ rest else rest

  -- The elements of a slice; nil has none.
  abbrev pub items : Option (List A) → List A
  items none = []
  items (some xs) = xs

  -- Go's append: the result is nil only if nothing is appended to nil.
  abbrev pub append_slice : Option (List A) → List A → Option (List A)
  append_slice none [] = none
  append_slice none (x ∷ xs) = some (x ∷ xs)
  append_slice (some ys) xs = some (ys ++ xs)

module _ {ℓ κ} {A : Type ℓ} where
  -- Every element satisfies `P`.
  abbrev pub All : (A → Type κ) → List A → Type κ
  All P [] = Unit
  All P (x ∷ xs) = P x × All P xs

  pub All-append : (P : A → Type κ) (xs ys : List A) → All P xs → All P ys → All P (xs ++ ys)
  All-append P [] ys hx hy = hy
  All-append P (x ∷ xs) ys hx hy = (hx.0, All-append P xs ys hx.1 hy)

  -- What holds of all elements holds of those that pass a test.
  pub All-keep : (P : A → Type κ) (p : A → Bool) (xs : List A) → All P xs → All P (keep p xs)
  All-keep P p [] h = tt
  All-keep P p (x ∷ xs) h = elim (Bool-cases (p x)) [
    | inl passes ↦ rw passes (h.0, All-keep P p xs h.1)
    | inr fails ↦ rw fails (All-keep P p xs h.1)
  ]

-- Membership as a fold, which the tactics take apart.
abbrev pub In : {A : Type 0} → A → List A → Type 0
In a [] = ⊥
In a (x ∷ xs) = (a ≡ x) ⊎ In a xs

module _ {A : Type 0} where
  -- What holds of each holds of all.
  pub All_of : (P : A → Type 0) (xs : List A) → ((a : A) → In a xs → P a) → All P xs
  All_of P [] h = tt
  All_of P (x ∷ xs) h = (h x (inl refl), All_of P xs (λ a later. h a (inr later)))

  -- What holds of all holds of each.
  pub All-In : (P : A → Type 0) (xs : List A) (a : A) → All P xs → In a xs → P a
  All-In P [] a ps h = absurd h
  All-In P (x ∷ xs) a ps (inl here) = subst P (sym here) ps.0
  All-In P (x ∷ xs) a ps (inr behind) = All-In P xs a ps.1 behind

  pub In-append_left : (a : A) (xs ys : List A) → In a xs → In a (xs ++ ys)
  In-append_left a [] ys h = elim h [ ]
  In-append_left a (x ∷ xs) ys (inl e) = inl e
  In-append_left a (x ∷ xs) ys (inr h) = inr (In-append_left a xs ys h)

  pub In-append_right : (a : A) (xs ys : List A) → In a ys → In a (xs ++ ys)
  In-append_right a [] ys h = h
  In-append_right a (x ∷ xs) ys h = inr (In-append_right a xs ys h)

  pub In-append_cases : (a : A) (xs ys : List A) → In a (xs ++ ys) → In a xs ⊎ In a ys
  In-append_cases a [] ys h = inr h
  In-append_cases a (x ∷ xs) ys (inl e) = inl (inl e)
  In-append_cases a (x ∷ xs) ys (inr h) = elim (In-append_cases a xs ys h) [
    | inl l ↦ inl (inr l)
    | inr r ↦ inr r
  ]

-- slices.Contains
module _ {A : Type 0} ⦃e : Eq A⦄ where
  unfoldable pub contains : List A → A → Bool
  contains [] a = false
  contains (x ∷ xs) a = x == a || contains xs a

  pub contains→In : (xs : List A) (a : A) → contains xs a ≡ true → In a xs
  unfolding contains
  contains→In [] a h = ground arith
  contains→In (x ∷ xs) a h = ground (arith, (e.beq_iff x a).0, contains→In xs a)

  pub In→contains : (xs : List A) (a : A) → In a xs → contains xs a ≡ true
  unfolding contains
  In→contains [] a h = elim h [ ]
  In→contains (x ∷ xs) a (inl same) = ground (arith, same, (e.beq_iff x a).1, In→contains xs a)
  In→contains (x ∷ xs) a (inr h) = ground (arith, In→contains xs a h)
