-- ===== src/ConfGen/Service/Every.antt =====
-- otel_conf_gen.go: what holds of every pipeline, from what holds of each kind.
use telemetry_controller.Prelude.{
  String, ◌≡◌, refl, inl, inr, Bool, true, false, Option, some, List, [], ◌∷◌, All, All-insert,
  All-copy, In, Option-cases, insert, copy, string_eq, ◌⧺◌, if◌then◌else◌,
}
use telemetry_controller.Api.{NamespacedName, name_instance, Output}
use telemetry_controller.Components.{find_outputs_for_subscription}
use telemetry_controller.Pipelines.{
  Pipeline, generate_pipeline, generate_root_pipeline, generate_metrics_pipelines,
}
use telemetry_controller.Connectors.{subscription_pipeline, output_pipeline}
use telemetry_controller.ConfGen.{OtelColConfigInput, Pipelines}
use telemetry_controller.ConfGen.Service.{
  names_of_tenant, routing_subscription, output_exporters, output_pipeline_processors, find_output,
  output_entry, output_entries, subscription_entries, events_on, root_pipeline, first_roots,
  tenant_entries, generate_named_pipelines,
}

-- The pipelines that the loops make satisfy `P`.
pub record Makes (i : OtelColConfigInput) (P : Pipeline → Type 0) : Type 0 where
  pub first :
      (name : String) (subs : Option (List NamespacedName))
      → In (name, subs) i.relations.tenant_subscription_map
      → P (generate_root_pipeline i.relations.tenants name i.dry_run_mode (events_on i))
  pub root :
      (name : String) (subs : Option (List NamespacedName))
      → In (name, subs) i.relations.tenant_subscription_map
      → P (root_pipeline i name)
  pub subscription :
      (name : String) (subs : Option (List NamespacedName)) (s : NamespacedName)
      → In (name, subs) i.relations.tenant_subscription_map
      → In s (names_of_tenant i name)
      → P (
          generate_pipeline
            (("routing/tenant_" ⧺ name ⧺ "_subscriptions") ∷ [])
            (("attributes/subscription_" ⧺ s.name) ∷ [])
            (routing_subscription s ∷ []))
  pub output :
      (name : String) (s n : NamespacedName) (o : Output)
      → In s (names_of_tenant i name)
      → In n (find_outputs_for_subscription i.relations s)
      → find_output n i.relations.outputs_with_secret_data ≡ some o
      → P (
          generate_pipeline
            (routing_subscription s ∷ [])
            (output_pipeline_processors o)
            (output_exporters i o))
  pub metrics :
      i.dry_run_mode ≡ false
      → All (λ e. P e.1) (generate_metrics_pipelines i.is_axoflow_distribution)

module _ (i : OtelColConfigInput) (P : Pipeline → Type 0) (makes : Makes i P) where
  abbrev Every : Pipelines → Type 0
  Every m = All (λ e. P e.1) m

  insert-Every : (k : String) (p : Pipeline) (m : Pipelines) → P p → Every m → Every (insert k p m)
  insert-Every k p m new h = All-insert (λ e. P e.1) k p m new h

  output_entries-Every :
      (name : String) (s : NamespacedName) (ns : List NamespacedName) (m : Pipelines)
      → In s (names_of_tenant i name)
      → ((n : NamespacedName) → In n ns → In n (find_outputs_for_subscription i.relations s))
      → Every m
      → Every (output_entries i s ns m)
  unfolding output_entries output_entry
  output_entries-Every name s [] m at inside h = h
  output_entries-Every name s (n ∷ ns) m at inside h =
      output_entries-Every name s ns _ at (λ k there. inside k (inr there))
        (elim (Option-cases (find_output n i.relations.outputs_with_secret_data)) [
          | inl e ↦ rw e h
          | inr (o, e) ↦ rw e (
              insert-Every (output_pipeline s n) _ m
                (makes.output name s n o at (inside n (inl refl)) e) h)
        ])

  subscription_entries-Every :
      (name : String) (subs : Option (List NamespacedName)) (ss : List NamespacedName)
      (m : Pipelines)
      → In (name, subs) i.relations.tenant_subscription_map
      → ((s : NamespacedName) → In s ss → In s (names_of_tenant i name))
      → Every m
      → Every (subscription_entries i name ss m)
  unfolding subscription_entries
  subscription_entries-Every name subs [] m here inside h = h
  subscription_entries-Every name subs (s ∷ ss) m here inside h =
      subscription_entries-Every name subs ss _ here (λ u there. inside u (inr there))
        (output_entries-Every name s (find_outputs_for_subscription i.relations s) _
          (inside s (inl refl)) (λ n there. there)
          (insert-Every (subscription_pipeline name s) _ m
            (makes.subscription name subs s here (inside s (inl refl))) h))

  first_roots-Every :
      (es : List (String × Option (List NamespacedName))) (m : Pipelines)
      → ((e : String × Option (List NamespacedName))
          → In e es
          → In e i.relations.tenant_subscription_map)
      → Every m
      → Every (first_roots i es m)
  unfolding first_roots
  first_roots-Every [] m inside h = h
  first_roots-Every ((name, subs) ∷ es) m inside h =
      first_roots-Every es _ (λ e there. inside e (inr there))
        (insert-Every ("logs/tenant_" ⧺ name) _ m
          (makes.first name subs (inside (name, subs) (inl refl))) h)

  tenant_entries-Every :
      (es : List (String × Option (List NamespacedName))) (m : Pipelines)
      → ((e : String × Option (List NamespacedName))
          → In e es
          → In e i.relations.tenant_subscription_map)
      → Every m
      → Every (tenant_entries i es m)
  unfolding tenant_entries
  tenant_entries-Every [] m inside h = h
  tenant_entries-Every ((name, subs) ∷ es) m inside h =
      let here = inside (name, subs) (inl refl) in
      tenant_entries-Every es _ (λ e there. inside e (inr there))
        (subscription_entries-Every name subs (names_of_tenant i name) _ here (λ s there. there)
          (insert-Every ("logs/tenant_" ⧺ name) _ m (makes.root name subs here) h))

  live :
      (dry : Bool) (m metrics : Pipelines)
      → (dry ≡ false → Every metrics)
      → Every m
      → Every (if dry then m else copy m metrics)
  live true m metrics hm h = h
  live false m metrics hm h = All-copy (λ e. P e.1) m metrics h (hm refl)

  pub named-Every : Every (generate_named_pipelines i)
  unfolding generate_named_pipelines
  named-Every =
      tenant_entries-Every i.relations.tenant_subscription_map _ (λ e there. there)
        (live i.dry_run_mode _ _ makes.metrics
          (first_roots-Every i.relations.tenant_subscription_map [] (λ e there. there) tt))
