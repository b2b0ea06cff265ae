-- ===== src/ConfGen/Service/Defined.antt =====
-- otel_conf_gen.go: the processors that the pipelines name are in the configuration.
use telemetry_controller.Prelude.{
  String, ◌≡◌, refl, sym, subst, inl, inr, Bool, true, false, Option, List, [], ◌∷◌, All, All-copy,
  In, Option-cases, lookup, string_eq, ◌⧺◌, if◌then◌else◌,
}
use telemetry_controller.Api.{NamespacedName, name_instance, Subscription, Tenant}
use telemetry_controller.Components.{OutputWithSecretData}
use telemetry_controller.Connectors.Bridging.{bridges_keep_processors}
use telemetry_controller.ConfGen.{OtelColConfigInput, Pipelines, generate_processors}
use telemetry_controller.ConfGen.Configured.{
  fixed-IsKey, tenant-IsKey, subscription-IsKey, output-IsKey, batch-IsKey,
}
use telemetry_controller.ConfGen.Service.{
  names_of_tenant, output_pipeline_processors, find_output, output_entry, output_entries,
  subscription_entries, events_on, root_pipeline, first_roots, tenant_entries,
  generate_named_pipelines, limit_memory, limited, assemble_pipelines,
}
use telemetry_controller.ConfGen.Service.Parts.{
  Known, IsDefined, AllDefined, generate_pipeline-IsDefined, root-IsDefined, transform-IsDefined,
  metrics-AllDefined, entry-AllDefined, find_output-In,
}

-- The relations name only tenants and subscriptions that they hold.
pub record IsConsistent (i : OtelColConfigInput) : Type 0 where
  pub tenants :
      All
        (λ e. (t : Tenant) × In t i.relations.tenants × (t.name ≡ e.0))
        i.relations.tenant_subscription_map
  pub subscriptions :
      (tenant : String)
      → All
          (λ n. (s : Subscription) × In (n, s) i.relations.subscriptions × (s.name ≡ n.name))
          (names_of_tenant i tenant)

module _ (i : OtelColConfigInput) where
  output_processors-IsDefined :
      (o : OutputWithSecretData)
      → In o i.relations.outputs_with_secret_data
      → All (Known i) (output_pipeline_processors o.output)
  unfolding output_pipeline_processors
  output_processors-IsDefined o h = elim (Option-cases o.output.spec.batch) [
    | inl e ↦ rw e (output-IsKey i o h, tt)
    | inr (b, e) ↦ rw e (output-IsKey i o h, (batch-IsKey i o b h e, tt))
  ]

  output_entry-AllDefined :
      (s n : NamespacedName) (m : Pipelines)
      → AllDefined i m
      → AllDefined i (output_entry i s n (find_output n i.relations.outputs_with_secret_data) m)
  unfolding output_entry
  output_entry-AllDefined s n m h =
      elim (Option-cases (find_output n i.relations.outputs_with_secret_data)) [
        | inl e ↦ rw e h
        | inr (o, e) ↦
            let (x, here, same) = find_output-In i n o i.relations.outputs_with_secret_data e in
            rw e (
              entry-AllDefined i _ _ m
                (generate_pipeline-IsDefined i _ _ _ (
                  subst (λ y. All (Known i) (output_pipeline_processors y)) same
                    (output_processors-IsDefined x here)))
                h)
      ]

  output_entries-AllDefined :
      (s : NamespacedName) (ns : List NamespacedName) (m : Pipelines)
      → AllDefined i m
      → AllDefined i (output_entries i s ns m)
  unfolding output_entries
  output_entries-AllDefined s [] m h = h
  output_entries-AllDefined s (n ∷ ns) m h =
      output_entries-AllDefined s ns _ (output_entry-AllDefined s n m h)

  subscription_entries-AllDefined :
      (tenant : String) (ss : List NamespacedName) (m : Pipelines)
      → All (λ n. (s : Subscription) × In (n, s) i.relations.subscriptions × (s.name ≡ n.name)) ss
      → AllDefined i m
      → AllDefined i (subscription_entries i tenant ss m)
  unfolding subscription_entries
  subscription_entries-AllDefined tenant [] m known h = h
  subscription_entries-AllDefined tenant (n ∷ ss) m known h =
      let (s, here, same) = known.0 in
      subscription_entries-AllDefined tenant ss _ known.1 (
        output_entries-AllDefined n _ _ (
          entry-AllDefined i _ _ m
            (generate_pipeline-IsDefined i _ (("attributes/subscription_" ⧺ n.name) ∷ []) _ (
              subst (λ x. Known i ("attributes/subscription_" ⧺ x)) same
                  (subscription-IsKey i n s here),
              tt,
            ))
            h))

  tenant-Known :
      (name : String)
      → ((t : Tenant) × In t i.relations.tenants × (t.name ≡ name))
      → Known i ("attributes/tenant_" ⧺ name)
  tenant-Known name (t, here, same) =
      subst (λ x. Known i ("attributes/tenant_" ⧺ x)) same (tenant-IsKey i t here)

  All-In : (ts us : List Tenant) → ((t : Tenant) → In t ts → In t us) → All (λ t. In t us) ts
  All-In [] us h = tt
  All-In (t ∷ ts) us h = (h t (inl refl), All-In ts us (λ u k. h u (inr k)))

  root_pipeline-IsDefined :
      (name : String) → Known i ("attributes/tenant_" ⧺ name) → IsDefined i (root_pipeline i name)
  unfolding root_pipeline
  root_pipeline-IsDefined name h =
      transform-IsDefined i name _ i.relations.tenants
        (All-In i.relations.tenants i.relations.tenants (λ t k. k))
        (subst (All (Known i)) (sym (bridges_keep_processors name _ i.relations.bridges))
          (root-IsDefined i name i.dry_run_mode (events_on i) h))

  first_roots-AllDefined :
      (rest : List (String × Option (List NamespacedName))) (m : Pipelines)
      → All (λ e. (t : Tenant) × In t i.relations.tenants × (t.name ≡ e.0)) rest
      → AllDefined i m
      → AllDefined i (first_roots i rest m)
  unfolding first_roots
  first_roots-AllDefined [] m known h = h
  first_roots-AllDefined ((name, subs) ∷ rest) m known h = first_roots-AllDefined rest _ known.1 (
      entry-AllDefined i _ _ m
        (root-IsDefined i name i.dry_run_mode (events_on i) (tenant-Known name known.0)) h)

  tenant_entries-AllDefined :
      IsConsistent i
      → (rest : List (String × Option (List NamespacedName))) (m : Pipelines)
      → All (λ e. (t : Tenant) × In t i.relations.tenants × (t.name ≡ e.0)) rest
      → AllDefined i m
      → AllDefined i (tenant_entries i rest m)
  unfolding tenant_entries
  tenant_entries-AllDefined c [] m known h = h
  tenant_entries-AllDefined c ((name, subs) ∷ rest) m known h =
      tenant_entries-AllDefined c rest _ known.1 (
        subscription_entries-AllDefined name (names_of_tenant i name) _ (c.subscriptions name)
          (entry-AllDefined i _ _ m (root_pipeline-IsDefined name (tenant-Known name known.0)) h))

  either :
      (b : Bool) (m n : Pipelines)
      → AllDefined i m
      → AllDefined i n
      → AllDefined i (if b then m else n)
  either true m n hm hn = hm
  either false m n hm hn = hn

  named-AllDefined : IsConsistent i → AllDefined i (generate_named_pipelines i)
  unfolding generate_named_pipelines
  named-AllDefined c =
      let roots = first_roots-AllDefined i.relations.tenant_subscription_map [] c.tenants tt in
      tenant_entries-AllDefined c i.relations.tenant_subscription_map _ c.tenants (
        either i.dry_run_mode _ _ roots (
          All-copy (λ e. IsDefined i e.1) _ _ roots
            (metrics-AllDefined i i.is_axoflow_distribution)))

  limit_memory-AllDefined : (ps : Pipelines) → AllDefined i ps → AllDefined i (limit_memory ps)
  unfolding limit_memory
  limit_memory-AllDefined [] h = tt
  limit_memory-AllDefined ((name, p) ∷ rest) h =
      (((fixed-IsKey i).1, h.0), limit_memory-AllDefined rest h.1)

  -- If the relations of a collector name only tenants and subscriptions that they hold, then every
  -- processor that a pipeline of the assembled configuration names is among the processors that are
  -- generated for it, those for tenants, subscriptions, outputs, batches, transformations, metrics
  -- and the memory limiter included.
  pub assemble_pipelines-IsDefined :
      IsConsistent i → All (λ e. IsDefined i e.1) (assemble_pipelines i)
  unfolding assemble_pipelines limited
  assemble_pipelines-IsDefined c =
      elim (Option-cases (lookup "memory_limiter" (generate_processors i))) [
        | inl e ↦ rw e (named-AllDefined c)
        | inr (p, e) ↦ rw e (limit_memory-AllDefined _ (named-AllDefined c))
      ]
