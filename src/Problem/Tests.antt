-- ===== src/Problem/Tests.antt =====
-- Add at the inputs of pkg/resources/problem/problem_test.go, and the theorems at such an input.
use telemetry_controller.Prelude.{
  String, ◌≡◌, ◌≢◌, refl, inl, inr, Option, none, some, List, [], ◌∷◌, arith, eq_iff, items,
  contains, In, string_eq, trim_space,
}
use telemetry_controller.Problem.{ProblemHandler, add}
use telemetry_controller.Problem.Laws.{IsClean, add-IsClean, add_keeps, add_lists}

abbrev mock : ProblemHandler (Option (List String))
mock = record { get_problems = λ ps. ps; set_problems = λ ps c. ps }

abbrev given : List String
given = "  problem1 " ∷ "" ∷ "problem2" ∷ "problem1" ∷ []

add_test : add mock none given ≡ some ("problem1" ∷ "problem2" ∷ [])
unfolding add trim_space contains
add_test = refl

add-IsClean_example : IsClean (items (add mock none given))
add-IsClean_example = add-IsClean mock (λ c ps. refl) none given tt

problem2_filled : trim_space "problem2" ≢ ""
unfolding trim_space
problem2_filled = ground (arith, eq_iff "problem2" "")

add_lists_example : In (trim_space "problem2") (items (add mock none given))
add_lists_example =
    add_lists mock (λ c ps. refl) none given "problem2" (inr (inr (inl refl))) problem2_filled

add_keeps_example : In "old" (items (add mock (some ("old" ∷ [])) given))
add_keeps_example = add_keeps mock (λ c ps. refl) (some ("old" ∷ [])) given "old" (inl refl)
