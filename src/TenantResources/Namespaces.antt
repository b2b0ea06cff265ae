-- ===== src/TenantResources/Namespaces.antt =====
-- tenant_resource_manager.go: the namespaces that selectors select, as a list without repetitions.
use telemetry_controller.Prelude.{
  String, ◌≡◌, refl, sym, ap, ◌∙◌, inl, inr, List, [], ◌∷◌, map, contains, Bool-cases, string_eq,
  text_le, insert_by, sort_by, sort, In, ◌↔◌,
}
use telemetry_controller.Cluster.{Namespace}
use telemetry_controller.Utils.{normalize_string_slice, unique_from as unique_names}
use telemetry_controller.Utils.Canonical.{normalize_string_slice-canonical}
use telemetry_controller.TenantResources.{unique_from, normalize_namespace_slice}

abbrev pub names : List Namespace → List String
names ns = map (λ n. n.name) ns

names-unique_from :
    (seen : List String) (ns : List Namespace)
    → names (unique_from seen ns) ≡ unique_names seen (names ns)
unfolding unique_from unique_names
names-unique_from seen [] = refl
names-unique_from seen (n ∷ ns) = elim (Bool-cases (contains seen n.name)) [
  | inl old ↦ rw old (names-unique_from seen ns)
  | inr fresh ↦ rw fresh (ap (λ rest. n.name ∷ rest) (names-unique_from (n.name ∷ seen) ns))
]

names-insert_by :
    (n : Namespace) (ns : List Namespace)
    → names (insert_by (λ m. m.name) n ns) ≡ insert_by (λ s. s) n.name (names ns)
unfolding insert_by
names-insert_by n [] = refl
names-insert_by n (m ∷ ns) = elim (Bool-cases (text_le n.name m.name)) [
  | inl before ↦ rw before refl
  | inr behind ↦ rw behind (ap (λ rest. m.name ∷ rest) (names-insert_by n ns))
]

names-sort_by :
    (ns : List Namespace) → names (sort_by (λ m. m.name) ns) ≡ sort_by (λ s. s) (names ns)
unfolding sort_by
names-sort_by [] = refl
names-sort_by (n ∷ ns) =
    names-insert_by n (sort_by (λ m. m.name) ns)
    ∙ ap (λ rest. insert_by (λ s. s) n.name rest) (names-sort_by ns)

-- normalizeNamespaceSlice gives the namespaces whose names NormalizeStringSlice gives.
pub names-normalize_namespace_slice :
    (ns : List Namespace) → names (normalize_namespace_slice ns) ≡ normalize_string_slice (names ns)
unfolding normalize_namespace_slice normalize_string_slice sort
names-normalize_namespace_slice ns =
    names-sort_by (unique_from [] ns) ∙ ap (sort_by (λ s. s)) (names-unique_from [] ns)

-- The names that normalizeNamespaceSlice leaves depend only on which names were listed, however
-- often and in whatever order the selectors listed them.
pub normalize_namespace_slice-canonical :
    (ms ns : List Namespace)
    → ((a : String) → In a (names ms) ↔ In a (names ns))
    → names (normalize_namespace_slice ms) ≡ names (normalize_namespace_slice ns)
normalize_namespace_slice-canonical ms ns same =
    names-normalize_namespace_slice ms
    ∙ normalize_string_slice-canonical (names ms) (names ns) same
    ∙ sym (names-normalize_namespace_slice ns)
