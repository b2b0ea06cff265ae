-- ===== src/ConfGen/Service/Parts.antt =====
-- otel_conf_gen.go: the processors of a pipeline, as each of its parts adds them.
use telemetry_controller.Prelude.{
  String, ◌≡◌, refl, ap, inl, inr, Bool, true, false, not, ◌&&◌, none, some, List, [], ◌∷◌, ◌++◌,
  All, All-append, All-keep, All-insert, In, IsKey, insert, string_eq, ◌==◌, ◌⧺◌, arith,
  if◌then◌else◌,
}
use telemetry_controller.Api.{NamespacedName, name_instance, Output, output_name, Tenant}
use telemetry_controller.Components.{OutputWithSecretData}
use telemetry_controller.Pipelines.{
  Pipeline, filter_empty_pipelines, generate_pipeline, generate_root_pipeline,
  generate_metrics_pipelines, metrics_pipeline,
}
use telemetry_controller.Processors.{generate_transform_processor_for_tenant_pipeline}
use telemetry_controller.ConfGen.{OtelColConfigInput, Pipelines, generate_processors}
use telemetry_controller.ConfGen.Configured.{fixed-IsKey, transform-IsKey}
use telemetry_controller.ConfGen.Service.{find_output}

module _ (i : OtelColConfigInput) where
  abbrev pub Known : String → Type 0
  Known k = IsKey k (generate_processors i)

  -- The processors of a pipeline are in the configuration.
  abbrev pub IsDefined : Pipeline → Type 0
  IsDefined p = All Known p.processors

  abbrev pub AllDefined : Pipelines → Type 0
  AllDefined m = All (λ e. IsDefined e.1) m

  pub generate_pipeline-IsDefined :
      (receivers processors exporters : List String)
      → All Known processors
      → IsDefined (generate_pipeline receivers processors exporters)
  unfolding generate_pipeline filter_empty_pipelines
  generate_pipeline-IsDefined receivers processors exporters h = All-keep Known _ processors h

  filtered :
      (name : String)
      → Known ("attributes/tenant_" ⧺ name)
      → All Known ("k8s_attributes" ∷ ("attributes/tenant_" ⧺ name) ∷ "filter/exclude" ∷ [])
  filtered name h = ((fixed-IsKey i).0, (h, ((fixed-IsKey i).2, tt)))

  pub root-IsDefined :
      (name : String) (dry events : Bool)
      → Known ("attributes/tenant_" ⧺ name)
      → IsDefined (generate_root_pipeline i.relations.tenants name dry events)
  unfolding generate_root_pipeline
  root-IsDefined name true events h = generate_pipeline-IsDefined _ _ _ (filtered name h)
  root-IsDefined name false events h = generate_pipeline-IsDefined _ _ _ (filtered name h)

  with_processor-IsDefined :
      (b : Bool) (p : Pipeline) (k : String)
      → (b ≡ true → Known k)
      → IsDefined p
      → IsDefined (if b then record p { processors = p.processors ++ (k ∷ []) } else p)
  with_processor-IsDefined true p k known h = All-append Known p.processors _ h (known refl, tt)
  with_processor-IsDefined false p k known h = h

  pub transform-IsDefined :
      (name : String) (p : Pipeline) (ts : List Tenant)
      → All (λ t. In t i.relations.tenants) ts
      → IsDefined p
      → IsDefined (generate_transform_processor_for_tenant_pipeline name p ts)
  unfolding generate_transform_processor_for_tenant_pipeline
  transform-IsDefined name p [] known h = h
  transform-IsDefined name p (t ∷ ts) known h =
      let named = t.name == name && not (t.spec.transform.name == "") in
      transform-IsDefined name
        (if named
          then record p {
            processors = p.processors ++ (("transform/" ⧺ t.spec.transform.name) ∷ []);
          }
          else p)
        ts known.1
        (with_processor-IsDefined named p ("transform/" ⧺ t.spec.transform.name)
          (λ passes. transform-IsKey i t known.0 (ground arith)) h)

  counted : All Known ("deltatocumulative" ∷ "attributes/metricattributes" ∷ [])
  counted = ((fixed-IsKey i).3, ((fixed-IsKey i).4, tt))

  pub metrics-AllDefined : (bytes : Bool) → AllDefined (generate_metrics_pipelines bytes)
  unfolding generate_metrics_pipelines metrics_pipeline
  metrics-AllDefined true = (counted, (counted, (counted, tt)))
  metrics-AllDefined false = (counted, (counted, tt))

  pub entry-AllDefined :
      (k : String) (p : Pipeline) (m : Pipelines)
      → IsDefined p
      → AllDefined m
      → AllDefined (insert k p m)
  entry-AllDefined k p m d h = All-insert (λ e. IsDefined e.1) k p m d h

  -- The output that is found is there, under the name.
  pub find_output_named :
      (n : NamespacedName) (o : Output) (os : List OutputWithSecretData)
      → find_output n os ≡ some o
      → (x : OutputWithSecretData) × In x os × (x.output ≡ o) × (n ≡ output_name x.output)
  unfolding find_output
  find_output_named n o [] e = ground arith
  find_output_named n o (x ∷ os) e =
      first (n == output_name x.output) refl e (find_output_named n o os)
    where
      first :
          (b : Bool)
          → (n == output_name x.output) ≡ b
          → (if b then some x.output else find_output n os) ≡ some o
          → (find_output n os ≡ some o
              → (y : OutputWithSecretData) × In y os × (y.output ≡ o) × (n ≡ output_name y.output))
          → (y : OutputWithSecretData) × In y (x ∷ os) × (y.output ≡ o) × (n ≡ output_name y.output)
      first true same q later = (
        x,
        inl refl,
        ap (λ q. elim q [ none ↦ x.output | some a ↦ a ]) q,
        (name_instance.beq_iff n (output_name x.output)).0 same,
      )
      first false other q later = let (y, h, same, named) = later q in (y, inr h, same, named)

  pub find_output-In :
      (n : NamespacedName) (o : Output) (os : List OutputWithSecretData)
      → find_output n os ≡ some o
      → (x : OutputWithSecretData) × In x os × (x.output ≡ o)
  unfolding find_output
  find_output-In n o [] e = ground arith
  find_output-In n o (x ∷ os) e = first (n == output_name x.output) e (find_output-In n o os)
    where
      first :
          (b : Bool)
          → (if b then some x.output else find_output n os) ≡ some o
          → (find_output n os ≡ some o → (y : OutputWithSecretData) × In y os × (y.output ≡ o))
          → (y : OutputWithSecretData) × In y (x ∷ os) × (y.output ≡ o)
      first true e later = (x, inl refl, ap (λ q. elim q [ none ↦ x.output | some a ↦ a ]) e)
      first false e later = let (y, h, same) = later e in (y, inr h, same)
