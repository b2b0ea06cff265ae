-- ===== src/Connectors/Grouped.antt =====
-- routing_connector.go: the pipelines that are seen of each condition.
use telemetry_controller.Prelude.{
  String, ◌≡◌, ◌↔◌, ◌⊎◌, refl, sym, ap, subst, inl, inr, Option, none, some, List, [], ◌∷◌, In,
  In-append_left, In-append_right, In-append_cases, lookup, insert, insert-In, insert-In_cases,
  insert_keeps-In, string_eq, lookup-In,
}
use telemetry_controller.Connectors.{with_pipeline}

abbrev pub Seen : Type 0
Seen = List (String × List String)

-- The pipeline is among those of the condition.
abbrev pub IsGrouped : Seen → String → String → Type 0
IsGrouped seen condition pipeline = (ps : List String) × In (condition, ps) seen × In pipeline ps

module _ (c p : String) where
  -- One more pipeline of a condition.
  pub with-IsGrouped :
      (d q : String) (seen : Seen)
      → IsGrouped (insert d (with_pipeline q (lookup d seen)) seen) c p
        ↔ (IsGrouped seen c p ⊎ ((d ≡ c) × (p ≡ q)))
  unfolding with_pipeline
  with-IsGrouped d q seen = (back, forth)
    where
      grown : List String
      grown = with_pipeline q (lookup d seen)

      added :
          (found : Option (List String))
          → In p (with_pipeline q found)
          → (p ≡ q) ⊎ ((ps : List String) × (found ≡ some ps) × In p ps)
      added none at = elim at [ inl e ↦ inl e | inr h ↦ absurd h ]
      added (some ps) at = elim (In-append_cases p ps (q ∷ []) at) [
        | inl old ↦ inr (ps, refl, old)
        | inr new ↦ elim new [ inl e ↦ inl e | inr h ↦ absurd h ]
      ]

      kept :
          (found : Option (List String)) (ps : List String)
          → found ≡ some ps
          → In p ps
          → In p (with_pipeline q found)
      kept found ps e at =
          subst (λ x. In p (with_pipeline q x)) (sym e) (In-append_left p ps (q ∷ []) at)

      last : (found : Option (List String)) → In q (with_pipeline q found)
      last none = inl refl
      last (some ps) = In-append_right q ps (q ∷ []) (inl refl)

      back : IsGrouped (insert d grown seen) c p → IsGrouped seen c p ⊎ ((d ≡ c) × (p ≡ q))
      back (ps, at, inside) = elim (insert-In_cases d grown (c, ps) seen at) [
        | inr old ↦ inl (ps, old, inside)
        | inl e ↦
            let key = ap (λ x. let y : String × List String = x in y.0) e in
            elim (added (lookup d seen)
              (subst (In p) (ap (λ x. let y : String × List String = x in y.1) e) inside)) [
                | inl same ↦ inr (sym key, same)
                | inr (qs, found, old) ↦
                    inl
                      (qs, subst (λ x. In (x, qs) seen) (sym key) (lookup-In d qs seen found), old)
              ]
      ]

      forth : IsGrouped seen c p ⊎ ((d ≡ c) × (p ≡ q)) → IsGrouped (insert d grown seen) c p
      forth (inl (ps, at, inside)) = elim (insert_keeps-In d c grown ps seen at) [
        | inl there ↦ (ps, there, inside)
        | inr (same, found) ↦ (
          grown,
          subst (λ x. In (x, grown) (insert d grown seen)) (sym same) (insert-In d grown seen),
          kept (lookup d seen) ps found inside,
        )
      ]
      forth (inr (same, e)) = (
        grown,
        subst (λ x. In (x, grown) (insert d grown seen)) same (insert-In d grown seen),
        subst (λ x. In x grown) (sym e) (last (lookup d seen)),
      )
