-- ===== src/Collector/Rbac.antt =====
-- collector_manager.go: the objects that give a collector its rights.
use telemetry_controller.Prelude.{String, List, [], ◌∷◌, ◌⧺◌}
use telemetry_controller.Collector.{Collector}

-- rbacv1.PolicyRule
pub record PolicyRule : Type 0 where
  pub verbs : List String
  pub api_groups : List String
  pub resources : List String

pub record ClusterRole : Type 0 where
  pub name : String
  pub rules : List PolicyRule

pub record ServiceAccount : Type 0 where
  pub name : String
  pub namespace : String

-- rbacv1.Subject and rbacv1.RoleRef
pub record Subject : Type 0 where
  pub kind : String
  pub name : String
  pub namespace : String

pub record RoleRef : Type 0 where
  pub kind : String
  pub name : String

pub record ClusterRoleBinding : Type 0 where
  pub name : String
  pub subjects : List Subject
  pub role_ref : RoleRef

abbrev readers : List String
readers = "get" ∷ "watch" ∷ "list" ∷ []

unfoldable pub cluster_role : Collector → ClusterRole
cluster_role c = record {
  name = c.name ⧺ "-pod-association-reader";
  rules =
      record {
        verbs = readers;
        api_groups = "" ∷ [];
        resources = "pods" ∷ "namespaces" ∷ "nodes" ∷ "events" ∷ [];
      }
      ∷ record { verbs = readers; api_groups = "apps" ∷ []; resources = "replicasets" ∷ [] }
      ∷ [];
}

unfoldable pub service_account : Collector → ServiceAccount
service_account c = record { name = c.name ⧺ "-sa"; namespace = c.control_namespace }

unfoldable pub cluster_role_binding : Collector → ClusterRoleBinding
cluster_role_binding c = record {
  name = c.name ⧺ "-crb";
  subjects =
      record { kind = "ServiceAccount"; name = c.name ⧺ "-sa"; namespace = c.control_namespace }
      ∷ [];
  role_ref = record { kind = "ClusterRole"; name = c.name ⧺ "-pod-association-reader" };
}
