-- ===== src/Problem.antt =====
-- pkg/resources/problem/problem.go: the problems that a resource's status lists.
pub mod Laws
mod Tests
use telemetry_controller.Prelude.{
  String, Bool, Option, some, List, [], ◌∷◌, items, append_slice, contains, string_eq, ◌==◌,
  trim_space, if◌then◌else◌,
}
use telemetry_controller.Api.{
  Output, set_output_problems, Subscription, set_subscription_problems, Tenant, set_tenant_problems,
  Bridge, set_bridge_problems,
}

-- The methods of the interface that Add calls.
pub record ProblemHandler (C : Type 0) : Type 0 where
  pub get_problems : C → Option (List String)
  pub set_problems : Option (List String) → C → C

-- One round of the loop of Add.
add_one : {C : Type 0} → ProblemHandler C → C → String → C
add_one h c text =
    let problem = trim_space text in
    if problem == ""
    then c
    else if contains (items (h.get_problems c)) problem
    then c
    else h.set_problems (append_slice (h.get_problems c) (problem ∷ [])) c

unfoldable pub add : {C : Type 0} → ProblemHandler C → C → List String → C
unfolding add_one
add h c [] = c
add h c (text ∷ texts) = add h (add_one h c text) texts

abbrev pub output_handler : ProblemHandler Output
output_handler = record {
  get_problems = λ o. o.status.problems;
  set_problems = set_output_problems;
}

abbrev pub subscription_handler : ProblemHandler Subscription
subscription_handler = record {
  get_problems = λ s. s.status.problems;
  set_problems = set_subscription_problems;
}

abbrev pub tenant_handler : ProblemHandler Tenant
tenant_handler = record {
  get_problems = λ t. t.status.problems;
  set_problems = set_tenant_problems;
}

abbrev pub bridge_handler : ProblemHandler Bridge
bridge_handler = record {
  get_problems = λ b. b.status.problems;
  set_problems = set_bridge_problems;
}

-- AddProblem of the four kinds, with the one text that the controllers pass.
abbrev pub add_output_problem : String → Output → Output
add_output_problem p o = add output_handler o (p ∷ [])

abbrev pub add_subscription_problem : String → Subscription → Subscription
add_subscription_problem p s = add subscription_handler s (p ∷ [])

abbrev pub add_tenant_problem : String → Tenant → Tenant
add_tenant_problem p t = add tenant_handler t (p ∷ [])

abbrev pub add_bridge_problem : String → Bridge → Bridge
add_bridge_problem p b = add bridge_handler b (p ∷ [])
