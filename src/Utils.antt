-- ===== src/Utils.antt =====
-- pkg/sdk/utils/utils.go. A type assertion to `T` is a function that may have no result.
pub mod Canonical
pub mod Conversion
mod Tests
use telemetry_controller.Prelude.{
  ℕ, suc, String, Bool, not, Option, none, some, List, [], ◌∷◌, contains, string_eq, sort,
  if◌then◌else◌,
}
use telemetry_controller.Cluster.{Result, ok, err, conversion}

-- The loop of GetConcreteTypeFromList, at index `i`.
convert_from : {A T : Type 0} → (A → Option T) → ℕ → List A → Result (List T)
convert_from assert i [] = ok []
convert_from assert i (x ∷ xs) =
    let rest = convert_from assert (suc i) xs in
    elim (assert x) [
      | none ↦ err (conversion i)
      | some t ↦ elim rest [ ok ts ↦ ok (t ∷ ts) | err e ↦ err e ]
    ]

unfoldable pub get_concrete_type_from_list :
    {A T : Type 0} → (A → Option T) → List A → Result (List T)
unfolding convert_from
get_concrete_type_from_list assert xs = convert_from assert 0 xs

-- DerefOr
abbrev pub deref_or : {A : Type 0} → Option A → A → A
deref_or none d = d
deref_or (some a) d = a

unfoldable pub unique_from : List String → List String → List String
unique_from seen [] = []
unique_from seen (item ∷ rest) =
    let fresh = not (contains seen item) in
    let tail = unique_from (if fresh then item ∷ seen else seen) rest in
    if fresh then item ∷ tail else tail

-- NormalizeStringSlice
unfoldable pub normalize_string_slice : List String → List String
unfolding unique_from contains sort
normalize_string_slice list = sort (unique_from [] list)
