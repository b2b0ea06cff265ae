-- ===== src/TenantResources/Validation.antt =====
-- tenant_resource_manager.go: ValidateSubscriptionReferencedOutputsWithCache. The cache maps names
-- to pointers, so what is written to an output is seen by the later rounds: it is threaded through.
pub mod Verdict
pub mod Exact
pub mod Writes
use telemetry_controller.Prelude.{
  String, Bool, true, false, Option, none, some, List, [], ◌∷◌, lookup, insert, string_eq, ◌==◌,
  ◌⧺◌, if◌then◌else◌,
}
use telemetry_controller.Api.{
  NamespacedName, string, name_instance, state_ready, state_failed, Output, OutputAuth, output_name,
  set_output_state, clear_output_problems, Subscription, subscription_name,
}
use telemetry_controller.Problem.{add_output_problem}
use telemetry_controller.Cluster.{Result, ok, err, Client, Secret}
use telemetry_controller.Components.{query_output_secret}

abbrev pub OutputMap : Type 0
OutputMap = List (NamespacedName × Output)

-- An output under check, and the variable `invalid`.
pub record Check : Type 0 where
  pub output : Output
  pub invalid : Bool

pub record Validated : Type 0 where
  pub valid_outputs : List NamespacedName
  pub invalid_outputs : List String
  pub output_map : OutputMap

pub check_tenant : Subscription → NamespacedName → Output → Check
check_tenant s ref o =
    if o.status.tenant == s.status.tenant then record { output = o; invalid = false } else record {
      output =
          add_output_problem
            ("output "
              ⧺ string ref
              ⧺ " does not belong to the same tenant as subscription "
              ⧺ string (subscription_name s))
            o;
      invalid = true;
    }

-- A round's verdict joined to those of the later rounds.
reject : String → Validated → Validated
reject text v = record v { invalid_outputs = text ∷ v.invalid_outputs }

accept : NamespacedName → Validated → Validated
accept ref v = record v { valid_outputs = ref ∷ v.valid_outputs }

module _ {W : Type 0} (c : Client W) where
  -- A query that fails makes the output invalid.
  judge_secret : NamespacedName → Check → Result Secret → Check
  judge_secret ref k (ok _) = k
  judge_secret ref k (err e) = record {
    output =
        add_output_problem ("output " ⧺ string ref ⧺ " secret could not be queried: " ⧺ c.text e)
          k.output;
    invalid = true;
  }

  -- The secret is queried only if the output has an authentication.
  pub check_secret : NamespacedName → Check → Option OutputAuth → W → Check × W
  unfolding judge_secret
  check_secret ref k none w = (k, w)
  check_secret ref k (some a) w =
      let r = query_output_secret c k.output a w in (judge_secret ref k r.0, r.1)

  -- The status that a checked output gets. A failure to write it is only logged.
  settle : Check → W → Output × W
  settle k w =
      let failed = set_output_state state_failed k.output in
      let ready = set_output_state state_ready (clear_output_problems k.output) in
      if k.invalid
      then (failed, (c.update_output failed w).1)
      else (let r = c.update_output ready w in
          (elim r.0 [ ok _ ↦ ready | err _ ↦ set_output_state state_failed ready ], r.1))

  -- One round for an output that exists: whether it is invalid, and what became of it.
  pub check_output : Subscription → NamespacedName → Output → W → Bool × Output × W
  check_output s ref o w =
      let (k, w') = check_secret ref (check_tenant s ref o) o.spec.authentication w in
      let (o', w'') = settle k w' in (k.invalid, o', w'')

  validate_refs : Subscription → List NamespacedName → OutputMap → W → Validated × W
  validate_refs s [] m w = (record { valid_outputs = []; invalid_outputs = []; output_map = m }, w)
  validate_refs s (ref ∷ refs) m w = elim (lookup ref m) [
    | none ↦ let (v, w') = validate_refs s refs m w in (reject (string ref) v, w')
    | some o ↦
        let (invalid, o', w') = check_output s ref o w in
        let (v, w'') = validate_refs s refs (insert ref o' m) w' in
        (if invalid then reject (string (output_name o')) v else accept ref v, w'')
  ]

  unfoldable pub validate_subscription_referenced_outputs_with_cache :
      Subscription → OutputMap → W → Validated × W
  unfolding validate_refs check_output check_secret check_tenant settle reject accept
  validate_subscription_referenced_outputs_with_cache s m w = validate_refs s s.spec.outputs m w
