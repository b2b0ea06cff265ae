-- ===== src/Utils/Canonical.antt =====
-- pkg/sdk/utils/utils.go: the normal form of a slice of strings.
use telemetry_controller.Prelude.{
  String, ◌≡◌, ◌≢◌, refl, sym, ◌∙◌, ◌↔◌, inl, inr, true, false, List, [], ◌∷◌, All, In, Bool-cases,
  contains, string_eq, text_le, text_le_antisymm, insert_by, sort_by, sort, IsAscending,
  sort_by-IsAscending, In-insert_by, In-sort_by, sort_by-In, arith, eq_iff, subst,
}
use telemetry_controller.Utils.{unique_from, normalize_string_slice}

-- Each text comes before every later one, and differs from it.
abbrev pub IsStrict : List String → Type 0
IsStrict [] = Unit
IsStrict (x ∷ xs) = All (λ y. (text_le x y ≡ true) × (x ≢ y)) xs × IsStrict xs

abbrev IsDistinct : List String → Type 0
IsDistinct [] = Unit
IsDistinct (x ∷ xs) = (In x xs → ⊥) × IsDistinct xs

-- What the loop keeps: what it has not seen, once.
In-unique_from :
    (a : String) (seen xs : List String)
    → In a (unique_from seen xs)
    → (In a xs) × (contains seen a ≡ false)
unfolding unique_from contains
In-unique_from a seen [] h = elim h [ ]
In-unique_from a seen (x ∷ xs) h =
    ground (arith, eq_iff x a, In-unique_from a (x ∷ seen) xs, In-unique_from a seen xs)

unique_from-In :
    (a : String) (seen xs : List String)
    → In a xs
    → contains seen a ≡ false
    → In a (unique_from seen xs)
unfolding unique_from contains
unique_from-In a seen [] h new = elim h [ ]
unique_from-In a seen (x ∷ xs) h new =
    ground (arith, eq_iff x a, unique_from-In a (x ∷ seen) xs, unique_from-In a seen xs)

unique_from-IsDistinct : (seen xs : List String) → IsDistinct (unique_from seen xs)
unfolding unique_from contains
unique_from-IsDistinct seen [] = tt
unique_from-IsDistinct seen (x ∷ xs) = elim (Bool-cases (contains seen x)) [
  | inl old ↦ rw old (unique_from-IsDistinct seen xs)
  | inr fresh ↦ rw fresh (
    λ h. ground (arith, In-unique_from x (x ∷ seen) xs h, eq_iff x x),
    unique_from-IsDistinct (x ∷ seen) xs,
  )
]

insert_by-IsDistinct :
    (x : String) (ys : List String)
    → (In x ys → ⊥)
    → IsDistinct ys
    → IsDistinct (insert_by (λ s. s) x ys)
unfolding insert_by
insert_by-IsDistinct x [] new h = (new, tt)
insert_by-IsDistinct x (y ∷ ys) new h = elim (Bool-cases (text_le x y)) [
  | inl before ↦ rw before (new, h)
  | inr behind ↦ rw behind (
    λ k. ground (arith, In-insert_by (λ s. s) y x ys k),
    insert_by-IsDistinct x ys (λ k. new (inr k)) h.1,
  )
]

sort_by-IsDistinct : (xs : List String) → IsDistinct xs → IsDistinct (sort_by (λ s. s) xs)
unfolding sort_by
sort_by-IsDistinct [] h = tt
sort_by-IsDistinct (x ∷ xs) h =
    insert_by-IsDistinct x (sort_by (λ s. s) xs) (λ k. h.0 (In-sort_by (λ s. s) x xs k))
      (sort_by-IsDistinct xs h.1)

All-differ :
    (x : String) (xs : List String)
    → (In x xs → ⊥)
    → All (λ y. text_le x y ≡ true) xs
    → All (λ y. (text_le x y ≡ true) × (x ≢ y)) xs
All-differ x [] new h = tt
All-differ x (y ∷ ys) new h = ((h.0, λ e. new (inl e)), All-differ x ys (λ k. new (inr k)) h.1)

Ascending-IsStrict : (xs : List String) → IsAscending (λ s. s) xs → IsDistinct xs → IsStrict xs
Ascending-IsStrict [] h k = tt
Ascending-IsStrict (x ∷ xs) h k = (All-differ x xs k.0 h.0, Ascending-IsStrict xs h.1 k.1)

-- The normal form lists its texts in strictly ascending order.
pub normalize_string_slice-IsStrict : (xs : List String) → IsStrict (normalize_string_slice xs)
unfolding normalize_string_slice sort
normalize_string_slice-IsStrict xs =
    Ascending-IsStrict _ (sort_by-IsAscending (λ s. s) (unique_from [] xs))
      (sort_by-IsDistinct _ (unique_from-IsDistinct [] xs))

-- It lists the texts of the slice and no other.
pub normalize_string_slice-In :
    (a : String) (xs : List String) → In a (normalize_string_slice xs) ↔ In a xs
unfolding normalize_string_slice sort contains
normalize_string_slice-In a xs = (
  λ h. (In-unique_from a [] xs (In-sort_by (λ s. s) a (unique_from [] xs) h)).0,
  λ h. sort_by-In (λ s. s) a (unique_from [] xs) (unique_from-In a [] xs h refl),
)

All-In : (P : String → Type 0) (a : String) (xs : List String) → All P xs → In a xs → P a
All-In P a [] ps h = elim h [ ]
All-In P a (x ∷ xs) ps (inl e) = subst P (sym e) ps.0
All-In P a (x ∷ xs) ps (inr h) = All-In P a xs ps.1 h

-- The first of a strictly ascending list is before all of it, and no other place has it.
IsStrict-unique :
    (xs ys : List String)
    → IsStrict xs
    → IsStrict ys
    → ((a : String) → In a xs → In a ys)
    → ((a : String) → In a ys → In a xs)
    → xs ≡ ys
IsStrict-unique [] [] s t f g = refl
IsStrict-unique [] (y ∷ ys) s t f g = absurd (g y (inl refl))
IsStrict-unique (x ∷ xs) [] s t f g = absurd (f x (inl refl))
IsStrict-unique (x ∷ xs) (y ∷ ys) s t f g =
    let same = heads (f x (inl refl)) (g y (inl refl)) in
    ap2 same (
      IsStrict-unique xs ys s.1 t.1 (λ a h. tail xs ys x y a same s.0 h (f a (inr h)))
        (λ a h. tail ys xs y x a (sym same) t.0 h (g a (inr h))))
  where
    heads : In x (y ∷ ys) → In y (x ∷ xs) → x ≡ y
    heads (inl e) k = e
    heads (inr h) (inl e) = sym e
    heads (inr h) (inr k) = text_le_antisymm x y (All-In _ y xs s.0 k).0 (All-In _ x ys t.0 h).0

    tail :
        (us vs : List String) (u v a : String)
        → u ≡ v
        → All (λ b. (text_le u b ≡ true) × (u ≢ b)) us
        → In a us
        → In a (v ∷ vs)
        → In a vs
    tail us vs u v a same later h (inl e) = absurd ((All-In _ a us later h).1 (same ∙ sym e))
    tail us vs u v a same later h (inr k) = k

    ap2 : {u v : String} {us vs : List String} → u ≡ v → us ≡ vs → (u ∷ us) ≡ (v ∷ vs)
    ap2 e q = cc (e, q)

-- The normal form depends only on which texts a slice has: slices with the same texts, however often
-- and in whatever order, have the same normal form.
pub normalize_string_slice-canonical :
    (xs ys : List String)
    → ((a : String) → In a xs ↔ In a ys)
    → normalize_string_slice xs ≡ normalize_string_slice ys
normalize_string_slice-canonical xs ys same =
    IsStrict-unique _ _ (normalize_string_slice-IsStrict xs) (normalize_string_slice-IsStrict ys)
      (λ a h.
        (normalize_string_slice-In a ys).1 ((same a).0 ((normalize_string_slice-In a xs).0 h)))
      (λ a h.
        (normalize_string_slice-In a xs).1 ((same a).1 ((normalize_string_slice-In a ys).0 h)))
