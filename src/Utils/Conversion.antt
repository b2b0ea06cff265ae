-- ===== src/Utils/Conversion.antt =====
-- What a conversion of a list keeps.
use telemetry_controller.Prelude.{
  ℕ, suc, ◌≡◌, Option, some, List, [], ◌∷◌, All, Option-cases, inl, inr,
}
use telemetry_controller.Cluster.{Result, ok, err}
use telemetry_controller.Cluster.Writes.{Post}
use telemetry_controller.Utils.{convert_from, get_concrete_type_from_list}

module _ {A T : Type 0} (assert : A → Option T) (P : A → Type 0) (Q : T → Type 0)
    (carry : (a : A) (t : T) → assert a ≡ some t → P a → Q t) where
  join-Post :
      (t : T) (r : Result (List T))
      → Q t
      → Post (All Q) r
      → Post (All Q) (elim r as (λ _. Result (List T)) [ ok ts ↦ ok (t ∷ ts) | err e ↦ err e ])
  join-Post t (ok ts) q h = (q, h)
  join-Post t (err e) q h = tt

  convert_from-All : (i : ℕ) (xs : List A) → All P xs → Post (All Q) (convert_from assert i xs)
  unfolding convert_from
  convert_from-All i [] h = tt
  convert_from-All i (x ∷ xs) h = elim (Option-cases (assert x)) [
    | inl other ↦ rw (other, convert_from) tt
    | inr (t, e) ↦
        rw (e, convert_from)
          (join-Post t (convert_from assert (suc i) xs) (carry x t e h.0)
            (convert_from-All (suc i) xs h.1))
  ]

  pub get_concrete_type_from_list-All :
      (xs : List A) → All P xs → Post (All Q) (get_concrete_type_from_list assert xs)
  unfolding get_concrete_type_from_list
  get_concrete_type_from_list-All xs h = convert_from-All 0 xs h
