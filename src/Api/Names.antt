-- ===== src/Api/Names.antt =====
-- api/telemetry/v1alpha1/common.go and pkg/sdk/model/state/state.go.
use telemetry_controller.Prelude.{
  String, ◌≡◌, ap, ◌↔◌, Bool, true, ◌&&◌, arith, eq_iff, Eq, string_eq, ◌==◌, ◌⧺◌,
}

pub record NamespacedName : Type 0 where
  pub namespace : String
  pub name : String

-- NamespacedName.String
abbrev pub string : NamespacedName → String
string n = n.namespace ⧺ "/" ⧺ n.name

abbrev pub name_eq : NamespacedName → NamespacedName → Bool
name_eq a b = a.namespace == b.namespace && a.name == b.name

pub name_eq_iff : (a b : NamespacedName) → (name_eq a b ≡ true) ↔ (a ≡ b)
name_eq_iff a b = (
  λ h. ground (arith, eq_iff a.namespace b.namespace, eq_iff a.name b.name),
  λ e. ground (
    arith,
    eq_iff a.namespace b.namespace,
    eq_iff a.name b.name,
    ap (λ n. n.namespace) e,
    ap (λ n. n.name) e,
  ),
)

-- Go's == of two names.
instance abbrev pub name_instance : Eq NamespacedName
name_instance = record { beq = name_eq; beq_iff = name_eq_iff }

-- state.State is a string; a status that was never written has the empty one.
abbrev pub State : Type 0
State = String

abbrev pub state_ready : State
state_ready = "ready"

abbrev pub state_failed : State
state_failed = "failed"
