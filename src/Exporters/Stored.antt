-- ===== src/Exporters/Stored.antt =====
-- Which exporters the loops over the outputs store.
use telemetry_controller.Prelude.{
  String, ◌≡◌, refl, ◌∙◌, subst, inl, inr, Bool, Option, none, some, List, [], ◌∷◌, In, IsKey,
  insert-IsKey, insert_keeps-IsKey, string_eq,
}
use telemetry_controller.Api.{
  Output, output_name, Tenant, OtlpGrpc, OtlpHttp, Fluentforward, File, Elasticsearch, AwsS3,
}
use telemetry_controller.Cluster.{ok}
use telemetry_controller.Components.{
  OutputWithSecretData, ResourceRelations, find_tenant_for_output, get_exporter_name_for_output,
  exporter_for,
}
use telemetry_controller.Values.{Value, config}
use telemetry_controller.Json.Exporters.{file_fields}
use telemetry_controller.Exporters.{Exporters, store, generate}
use telemetry_controller.Exporters.Entries.{
  Entry, each, for_tenant, otlp_grpc_body, otlp_http_body, fluentforward_body, elasticsearch_body,
  aws_s3_body, otlp_grpc_entry, otlp_http_entry, fluentforward_entry, file_entry,
  elasticsearch_entry, aws_s3_entry,
}

-- The output adds an exporter of that name.
abbrev pub Adds : (Output → Option Entry) → Output → String → Type 0
Adds entry o name = (v : Value) × (entry o ≡ some (name, v))

store_keeps : (k : String) (e : Option Entry) (m : Exporters) → IsKey k m → IsKey k (store e m)
unfolding store
store_keeps k none m h = h
store_keeps k (some (name, v)) m h = insert_keeps-IsKey name k v m h

module _ (entry : Output → Option Entry) where
  generate_keeps :
      (k : String) (os : List OutputWithSecretData) (m : Exporters)
      → IsKey k m
      → IsKey k (generate entry os m)
  unfolding generate
  generate_keeps k [] m h = h
  generate_keeps k (o ∷ os) m h = generate_keeps k os _ (store_keeps k (entry o.output) m h)

  store-IsKey :
      (o : Output) (name : String) (m : Exporters)
      → Adds entry o name
      → IsKey name (store (entry o) m)
  unfolding store
  store-IsKey o name m (v, e) = rw e (insert-IsKey name v m)

  pub generate-IsKey :
      (o : OutputWithSecretData) (name : String) (os : List OutputWithSecretData) (m : Exporters)
      → In o os
      → Adds entry o.output name
      → IsKey name (generate entry os m)
  unfolding generate
  generate-IsKey o name [] m h adds = elim h [ ]
  generate-IsKey o name (u ∷ os) m (inl e) adds =
      generate_keeps name os _
        (subst (λ x. IsKey name (store (entry x.output) m)) e (store-IsKey o.output name m adds))
  generate-IsKey o name (u ∷ os) m (inr h) adds = generate-IsKey o name os _ h adds

each-some :
    {A : Type 0} (x : Option A) (a : A) (body : A → Option Entry)
    → x ≡ some a
    → each x body ≡ body a
unfolding each
each-some x a body e = rw e

module _ (r : ResourceRelations) (o : Output) (t : Tenant)
    (found : find_tenant_for_output r (output_name o) ≡ ok t) where
  for_tenant_found : (entry : Tenant → Entry) → for_tenant r o entry ≡ some (entry t)
  unfolding for_tenant
  for_tenant_found entry = rw (found, for_tenant) refl

  -- The exporter of a kind that finds the tenant first.
  each-Adds :
      {A : Type 0} (x : Option A) (a : A) (body : A → Tenant → Entry)
      → x ≡ some a
      → each x (λ s. for_tenant r o (body s)) ≡ some (body a t)
  each-Adds x a body e = each-some x a (λ s. for_tenant r o (body s)) e ∙ for_tenant_found (body a)

  pub otlp_grpc-Adds :
      (a : OtlpGrpc)
      → o.spec.otlp_grpc ≡ some a
      → Adds (otlp_grpc_entry r) o (get_exporter_name_for_output o)
  unfolding otlp_grpc_entry
  otlp_grpc-Adds a e = ((otlp_grpc_body o a t).1, each-Adds o.spec.otlp_grpc a (otlp_grpc_body o) e)

  pub otlp_http-Adds :
      (opaque : String → String) (a : OtlpHttp)
      → o.spec.otlp_http ≡ some a
      → Adds (otlp_http_entry opaque r) o (get_exporter_name_for_output o)
  unfolding otlp_http_entry
  otlp_http-Adds opaque a e =
      ((otlp_http_body opaque o a t).1, each-Adds o.spec.otlp_http a (otlp_http_body opaque o) e)

  pub fluentforward-Adds :
      (is_axoflow_distribution : Bool) (a : Fluentforward)
      → o.spec.fluentforward ≡ some a
      → Adds
          (fluentforward_entry is_axoflow_distribution r)
          o
          (exporter_for "fluentforwardexporter" o)
  unfolding fluentforward_entry
  fluentforward-Adds axoflow a e = (
    (fluentforward_body axoflow o a t).1,
    each-Adds o.spec.fluentforward a (fluentforward_body axoflow o) e,
  )

  pub elasticsearch-Adds :
      (a : Elasticsearch)
      → o.spec.elasticsearch ≡ some a
      → Adds (elasticsearch_entry r) o (get_exporter_name_for_output o)
  unfolding elasticsearch_entry
  elasticsearch-Adds a e =
      ((elasticsearch_body o a t).1, each-Adds o.spec.elasticsearch a (elasticsearch_body o) e)

  pub aws_s3-Adds :
      (a : AwsS3)
      → o.spec.aws_s3 ≡ some a
      → Adds (aws_s3_entry r) o (get_exporter_name_for_output o)
  unfolding aws_s3_entry
  aws_s3-Adds a e = ((aws_s3_body o a t).1, each-Adds o.spec.aws_s3 a (aws_s3_body o) e)

pub file-Adds :
    (o : Output) (f : File) → o.spec.file ≡ some f → Adds file_entry o (exporter_for "file" o)
unfolding file_entry
file-Adds o f e =
    (_, each-some o.spec.file f (λ g. some (exporter_for "file" o, config (file_fields g))) e)

-- The name of an output's exporter, where the kinds before it are not set.
pub name_of_fluentforward :
    (o : Output) (a : Fluentforward)
    → o.spec.otlp_grpc ≡ none
    → o.spec.otlp_http ≡ none
    → o.spec.fluentforward ≡ some a
    → get_exporter_name_for_output o ≡ exporter_for "fluentforwardexporter" o
unfolding get_exporter_name_for_output
name_of_fluentforward o a e1 e2 e3 = rw (e1, e2, e3, get_exporter_name_for_output) refl

pub name_of_file :
    (o : Output) (f : File)
    → o.spec.otlp_grpc ≡ none
    → o.spec.otlp_http ≡ none
    → o.spec.fluentforward ≡ none
    → o.spec.file ≡ some f
    → get_exporter_name_for_output o ≡ exporter_for "file" o
unfolding get_exporter_name_for_output
name_of_file o f e1 e2 e3 e4 = rw (e1, e2, e3, e4, get_exporter_name_for_output) refl

pub name_of_none :
    (o : Output)
    → o.spec.otlp_grpc ≡ none
    → o.spec.otlp_http ≡ none
    → o.spec.fluentforward ≡ none
    → o.spec.file ≡ none
    → o.spec.elasticsearch ≡ none
    → o.spec.aws_s3 ≡ none
    → get_exporter_name_for_output o ≡ ""
unfolding get_exporter_name_for_output
name_of_none o e1 e2 e3 e4 e5 e6 = rw (e1, e2, e3, e4, e5, e6, get_exporter_name_for_output) refl
