-- ===== src/Prelude/Sorting.antt =====
-- slices.SortFunc by strings.Compare of a key. The sort of Go's library returns an ordered
-- permutation, and this one is such a permutation. Where the keys of the elements are distinct, or
-- determine the elements, there is only one.
use Prim.Native.String.{String}
use mathlib.Core.Path.{◌≡◌}
use mathlib.Core.Logic.{inl, inr}
use mathlib.Core.Bool.{true}
use mathlib.Core.List.{List, [], ◌∷◌, Perm}
use mathlib.Core.List.Perm
use native.Mathlib.Omega.{arith}
use telemetry_controller.Prelude.Tests.{if◌then◌else◌, Bool-cases}
use telemetry_controller.Prelude.Lists.{All, In}
use telemetry_controller.Prelude.Texts.{text_le, text_le_total, text_le_trans}

module _ {A : Type 0} (key : A → String) where
  unfoldable pub insert_by : A → List A → List A
  insert_by x [] = x ∷ []
  insert_by x (y ∷ ys) =
      let further = y ∷ insert_by x ys in if text_le (key x) (key y) then x ∷ y ∷ ys else further

  unfoldable pub sort_by : List A → List A
  unfolding insert_by
  sort_by [] = []
  sort_by (x ∷ xs) = insert_by x (sort_by xs)

  -- Each key is at most every later one.
  abbrev pub IsAscending : List A → Type 0
  IsAscending [] = Unit
  IsAscending (x ∷ xs) = All (λ y. text_le (key x) (key y) ≡ true) xs × IsAscending xs

  insert_by-perm : (x : A) (ys : List A) → Perm (insert_by x ys) (x ∷ ys)
  unfolding insert_by
  insert_by-perm x [] = Perm.refl (x ∷ [])
  insert_by-perm x (y ∷ ys) = elim (Bool-cases (text_le (key x) (key y))) [
    | inl here ↦ rw here (Perm.refl (x ∷ y ∷ ys))
    | inr later ↦ rw later (Perm.trans (Perm.cons y (insert_by-perm x ys)) (Perm.swap x y ys))
  ]

  pub sort_by-perm : (xs : List A) → Perm (sort_by xs) xs
  unfolding sort_by
  sort_by-perm [] = Perm.refl []
  sort_by-perm (x ∷ xs) = Perm.trans (insert_by-perm x (sort_by xs)) (Perm.cons x (sort_by-perm xs))

  All-insert_by : (P : A → Type 0) (x : A) (ys : List A) → P x → All P ys → All P (insert_by x ys)
  unfolding insert_by
  All-insert_by P x [] p h = (p, tt)
  All-insert_by P x (y ∷ ys) p h = ground (arith, All-insert_by P x ys p h.1)

  pub All-sort_by : (P : A → Type 0) (xs : List A) → All P xs → All P (sort_by xs)
  unfolding sort_by
  All-sort_by P [] h = tt
  All-sort_by P (x ∷ xs) h = All-insert_by P x (sort_by xs) h.0 (All-sort_by P xs h.1)

  All-le_trans :
      (x y : A) (ys : List A)
      → text_le (key x) (key y) ≡ true
      → All (λ z. text_le (key y) (key z) ≡ true) ys
      → All (λ z. text_le (key x) (key z) ≡ true) ys
  All-le_trans x y [] h k = tt
  All-le_trans x y (z ∷ ys) h k =
      (text_le_trans (key x) (key y) (key z) h k.0, All-le_trans x y ys h k.1)

  insert_by-IsAscending : (x : A) (ys : List A) → IsAscending ys → IsAscending (insert_by x ys)
  unfolding insert_by
  insert_by-IsAscending x [] h = (tt, tt)
  insert_by-IsAscending x (y ∷ ys) h = elim (Bool-cases (text_le (key x) (key y))) [
    | inl here ↦ rw here ((here, All-le_trans x y ys here h.0), h)
    | inr later ↦ rw later (
      All-insert_by (λ z. text_le (key y) (key z) ≡ true) x ys
          (ground (arith, text_le_total (key x) (key y))) h.0,
      insert_by-IsAscending x ys h.1,
    )
  ]

  pub sort_by-IsAscending : (xs : List A) → IsAscending (sort_by xs)
  unfolding sort_by
  sort_by-IsAscending [] = tt
  sort_by-IsAscending (x ∷ xs) = insert_by-IsAscending x (sort_by xs) (sort_by-IsAscending xs)

  pub In-insert_by : (a x : A) (ys : List A) → In a (insert_by x ys) → In a (x ∷ ys)
  unfolding insert_by
  In-insert_by a x [] h = h
  In-insert_by a x (y ∷ ys) h = ground (arith, In-insert_by a x ys)

  insert_by-In : (a x : A) (ys : List A) → In a (x ∷ ys) → In a (insert_by x ys)
  unfolding insert_by
  insert_by-In a x [] h = h
  insert_by-In a x (y ∷ ys) h = ground (arith, insert_by-In a x ys)

  pub In-sort_by : (a : A) (xs : List A) → In a (sort_by xs) → In a xs
  unfolding sort_by
  In-sort_by a [] h = h
  In-sort_by a (x ∷ xs) h = ground (arith, In-insert_by a x (sort_by xs) h, In-sort_by a xs)

  pub sort_by-In : (a : A) (xs : List A) → In a xs → In a (sort_by xs)
  unfolding sort_by
  sort_by-In a [] h = h
  sort_by-In a (x ∷ xs) h = ground (arith, insert_by-In a x (sort_by xs), sort_by-In a xs)

-- slices.Sort of strings.
unfoldable pub sort : List String → List String
unfolding sort_by
sort xs = sort_by (λ s. s) xs
