-- ===== src/Components.antt =====
-- pkg/resources/otel_conf_gen/pipeline/components/common.go: the relations between the resources
-- of a collector, the exporter's name of an output, and the secret that an output refers to.
pub mod Relations
pub mod Tenants
pub mod Secrets
mod Tests
use telemetry_controller.Prelude.{
  String, ◌≡◌, Bool, true, false, ◌&&◌, Option, none, some, List, [], ◌∷◌, items, contains, lookup,
  string_eq, ◌==◌, ◌⧺◌, sort_by, if◌then◌else◌,
}
use telemetry_controller.Api.{
  NamespacedName, string, name_instance, Output, output_name, OutputAuth, SecretReference,
  Subscription, Tenant, Bridge,
}
use telemetry_controller.Cluster.{
  Error, message, wrap, Result, ok, err, Exec, pure, fail, wrapping, Client, ◌>>=◌, Secret,
}

-- The name that an exporter of the given type has for an output.
abbrev pub exporter_for : String → Output → String
exporter_for kind o = kind ⧺ "/" ⧺ o.namespace ⧺ "_" ⧺ o.name

-- GetExporterNameForOutput: the first exporter that is set.
unfoldable pub get_exporter_name_for_output : Output → String
get_exporter_name_for_output o = elim o.spec.otlp_grpc [
  | some _ ↦ exporter_for "otlp_grpc" o
  | none ↦ elim o.spec.otlp_http [
    | some _ ↦ exporter_for "otlp_http" o
    | none ↦ elim o.spec.fluentforward [
      | some _ ↦ exporter_for "fluentforwardexporter" o
      | none ↦ elim o.spec.file [
        | some _ ↦ exporter_for "file" o
        | none ↦ elim o.spec.elasticsearch [
          | some _ ↦ exporter_for "elasticsearch" o
          | none ↦ elim o.spec.aws_s3 [ some _ ↦ exporter_for "awss3" o | none ↦ "" ]
        ]
      ]
    ]
  ]
]

pub record OutputWithSecretData : Type 0 where
  pub output : Output
  pub secret : Secret

-- The maps are association lists, in the order in which the run goes through them. `allocated`
-- says whether one of the maps and slices is not nil, which an empty list leaves open.
pub record ResourceRelations : Type 0 where
  pub tenants : List Tenant
  pub subscriptions : List (NamespacedName × Subscription)
  pub bridges : List Bridge
  pub outputs_with_secret_data : List OutputWithSecretData
  pub tenant_subscription_map : List (String × Option (List NamespacedName))
  pub subscription_output_map : List (NamespacedName × Option (List NamespacedName))
  pub allocated : Bool

-- A missing key and a nil slice both read as no names.
abbrev names_of : Option (Option (List NamespacedName)) → List NamespacedName
names_of none = []
names_of (some names) = items names

unfoldable pub find_outputs_for_subscription :
    ResourceRelations → NamespacedName → List NamespacedName
unfolding lookup
find_outputs_for_subscription r s = names_of (lookup s r.subscription_output_map)

unfoldable pub is_output_in_subscription :
    ResourceRelations → NamespacedName → NamespacedName → Bool
unfolding find_outputs_for_subscription contains
is_output_in_subscription r s o = contains (find_outputs_for_subscription r s) o

get_tenant : List Tenant → String → Result Tenant
get_tenant [] n = err (message ("tenant " ⧺ n ⧺ " not found"))
get_tenant (t ∷ ts) n = if t.name == n then ok t else get_tenant ts n

unfoldable pub get_tenant_by_name : ResourceRelations → String → Result Tenant
unfolding get_tenant
get_tenant_by_name r n = get_tenant r.tenants n

-- The inner loop: does one of the tenant's subscriptions list the output?
any_subscription : ResourceRelations → NamespacedName → List NamespacedName → Bool
any_subscription r o [] = false
any_subscription r o (s ∷ ss) =
    let rest = any_subscription r o ss in if is_output_in_subscription r s o then true else rest

-- The outer loop, over the tenants in the order of the map.
find_tenant :
    ResourceRelations
    → NamespacedName
    → List (String × Option (List NamespacedName))
    → Result Tenant
find_tenant r o [] = err (message ("tenant for output " ⧺ string o ⧺ " not found"))
find_tenant r o ((n, ss) ∷ rest) =
    let later = find_tenant r o rest in
    if any_subscription r o (items ss) then get_tenant_by_name r n else later

unfoldable pub find_tenant_for_output : ResourceRelations → NamespacedName → Result Tenant
unfolding find_tenant any_subscription is_output_in_subscription get_tenant_by_name
find_tenant_for_output r o = find_tenant r o r.tenant_subscription_map

-- An authentication method that names a secret.
pub record AuthRef : Type 0 where
  pub secret_ref : SecretReference
  pub name : String

basic_matches : OutputAuth → List AuthRef
basic_matches a = elim a.basic_auth [
  | none ↦ []
  | some b ↦ elim b.secret_ref [
    | none ↦ []
    | some r ↦ record { secret_ref = r; name = "BasicAuth" } ∷ []
  ]
]

bearer_matches : OutputAuth → List AuthRef
bearer_matches a = elim a.bearer_auth [
  | none ↦ []
  | some b ↦ elim b.secret_ref [
    | none ↦ []
    | some r ↦ record { secret_ref = r; name = "BearerAuth" } ∷ []
  ]
]

-- The test on the number of matches: exactly one is accepted.
the_match : List AuthRef → List AuthRef → Result AuthRef
the_match [] [] = err (message "no valid authentication method configured")
the_match (r ∷ _) [] = ok r
the_match [] (r ∷ _) = ok r
the_match (_ ∷ _) (_ ∷ _) =
    err (message "multiple authentication methods configured; only one is allowed")

select_auth : OutputAuth → Result AuthRef
unfolding the_match basic_matches bearer_matches
select_auth a = the_match (basic_matches a) (bearer_matches a)

-- QueryOutputSecretWithData. The callers pass outputs whose authentication is set, and `a` is it.
unfoldable pub query_output_secret_with_data : {W : Type 0} → Client W → OutputAuth → Exec W Secret
unfolding select_auth
query_output_secret_with_data c a = elim (select_auth a) [
  | err e ↦ fail e
  | ok ref ↦
      wrapping
        ("failed to retrieve " ⧺ ref.name ⧺ " secret " ⧺ ref.secret_ref.namespace ⧺ "/"
          ⧺ ref.secret_ref.name)
        (c.get_secret ref.secret_ref)
]

unfoldable pub query_output_secret : {W : Type 0} → Client W → Output → OutputAuth → Exec W Secret
unfolding query_output_secret_with_data
query_output_secret c o a =
    wrapping ("failed to query secret for output " ⧺ o.namespace ⧺ "/" ⧺ o.name)
      (query_output_secret_with_data c a)

-- SortNamespacedNames
unfoldable pub sort_namespaced_names : List NamespacedName → List NamespacedName
unfolding sort_by
sort_namespaced_names names = sort_by string names
