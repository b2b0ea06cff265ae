-- ===== src/TenantResources/Tests.antt =====
-- The tenant's resources in the sample, and the theorems at them.
use telemetry_controller.Prelude.{
  String, ◌≡◌, refl, sym, ap, ◌∙◌, inl, inr, true, not, some, List, [], ◌∷◌, map, keep, lookup,
  insert, lookup-cases, lookup-nil, arith,
}
use telemetry_controller.Api.{string, name_instance, output_name}
use telemetry_controller.Cluster.{Namespace}
use telemetry_controller.Cluster.Writes.{Returns}
use telemetry_controller.Sample.{sample, acme, all_logs, disk_name, foreign_name, file_output}
use telemetry_controller.TenantResources.{output_kind, normalize_namespace_slice}
use telemetry_controller.TenantResources.Ownership.{get_resource_owned_by_tenant}
use telemetry_controller.TenantResources.Ownership.Split.{
  IsSplit, get_resource_owned_by_tenant-IsSplit,
}
use telemetry_controller.TenantResources.Namespaces.{names, normalize_namespace_slice-canonical}
use telemetry_controller.TenantResources.Validation.{
  OutputMap, validate_subscription_referenced_outputs_with_cache,
}
use telemetry_controller.TenantResources.Validation.Verdict.{IsKeyed, is_valid}
use telemetry_controller.TenantResources.Validation.Exact.{validate_exact}

get_resource_owned_by_tenant_example :
    Returns (IsSplit "acme") (get_resource_owned_by_tenant sample (some output_kind) acme)
get_resource_owned_by_tenant_example =
    get_resource_owned_by_tenant-IsSplit sample (some output_kind) acme

abbrev cache : OutputMap
cache = (disk_name, file_output "disk" "acme") ∷ (foreign_name, file_output "foreign" "globex") ∷ []

cache-IsKeyed : IsKeyed cache
cache-IsKeyed r o h =
    elim (lookup-cases r disk_name (file_output "disk" "acme") o
      ((foreign_name, file_output "foreign" "globex") ∷ []) h) [
        | inl (same, e) ↦ ap output_name (sym e) ∙ same
        | inr k ↦ elim (lookup-cases r foreign_name (file_output "foreign" "globex") o [] k) [
          | inl (same, e) ↦ ap output_name (sym e) ∙ same
          | inr missing ↦ absurd (lookup-nil r o missing)
        ]
      ]

validate_exact_example :
    ((validate_subscription_referenced_outputs_with_cache sample all_logs cache []).0.valid_outputs
      ≡ keep (λ r. is_valid (λ _. true) all_logs (lookup r cache)) all_logs.spec.outputs)
    × ((validate_subscription_referenced_outputs_with_cache sample all_logs cache
          []).0.invalid_outputs
        ≡ map string (
            keep (λ r. not (is_valid (λ _. true) all_logs (lookup r cache))) all_logs.spec.outputs))
validate_exact_example =
    validate_exact sample (λ _. true) (λ r w. refl) all_logs cache [] cache-IsKeyed

validate_test :
    (validate_subscription_referenced_outputs_with_cache sample all_logs cache []).0.valid_outputs
    ≡ disk_name ∷ []
unfolding validate_subscription_referenced_outputs_with_cache lookup insert
validate_test = refl

abbrev namespace : String → Namespace
namespace n = record { name = n }

abbrev listed_twice : List Namespace
listed_twice = namespace "web" ∷ namespace "db" ∷ namespace "web" ∷ []

abbrev listed_once : List Namespace
listed_once = namespace "db" ∷ namespace "web" ∷ []

normalize_namespace_slice_example :
    names (normalize_namespace_slice listed_twice) ≡ names (normalize_namespace_slice listed_once)
normalize_namespace_slice_example =
    normalize_namespace_slice-canonical listed_twice listed_once
      (λ a. (λ h. ground arith, λ h. ground arith))
