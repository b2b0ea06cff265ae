-- ===== src/ConfGen/Service/Keys.antt =====
-- otel_conf_gen.go: under which names the pipelines stand.
use telemetry_controller.Prelude.{
  String, ◌≡◌, refl, subst, inl, inr, Option, none, some, List, [], ◌∷◌, items, lookup, lookup-In,
  In, IsKey, insert-IsKey, insert_keeps-IsKey, string_eq, ◌⧺◌,
}
use telemetry_controller.Api.{NamespacedName, Output}
use telemetry_controller.Components.{find_outputs_for_subscription}
use telemetry_controller.Connectors.{subscription_pipeline, output_pipeline}
use telemetry_controller.ConfGen.{OtelColConfigInput, Pipelines}
use telemetry_controller.ConfGen.Service.{
  names_of_tenant, find_output, output_entry, output_entries, subscription_entries, tenant_entries,
  generate_named_pipelines,
}

abbrev TenantMap : Type 0
TenantMap = List (String × Option (List NamespacedName))

module _ (i : OtelColConfigInput) where
  -- What a tenant lists is in the map.
  pub names_of_tenant-In :
      (name : String) (s : NamespacedName)
      → In s (names_of_tenant i name)
      → (subs : Option (List NamespacedName)) × In (name, subs) i.relations.tenant_subscription_map
        × In s (items subs)
  unfolding names_of_tenant
  names_of_tenant-In name s h = from (lookup name i.relations.tenant_subscription_map) refl h
    where
      from :
          (found : Option (Option (List NamespacedName)))
          → lookup name i.relations.tenant_subscription_map ≡ found
          → In s (elim found [ none ↦ [] | some names ↦ items names ])
          → (subs : Option (List NamespacedName)) × In
              (name, subs)
              i.relations.tenant_subscription_map
            × In s (items subs)
      from none e k = absurd k
      from (some subs) e k = (subs, lookup-In name subs i.relations.tenant_subscription_map e, k)

  output_entry_keeps :
      (k : String) (s n : NamespacedName) (o : Option Output) (m : Pipelines)
      → IsKey k m
      → IsKey k (output_entry i s n o m)
  unfolding output_entry
  output_entry_keeps k s n none m h = h
  output_entry_keeps k s n (some o) m h = insert_keeps-IsKey _ k _ m h

  output_entries_keeps :
      (k : String) (s : NamespacedName) (ns : List NamespacedName) (m : Pipelines)
      → IsKey k m
      → IsKey k (output_entries i s ns m)
  unfolding output_entries
  output_entries_keeps k s [] m h = h
  output_entries_keeps k s (n ∷ ns) m h =
      output_entries_keeps k s ns _ (output_entry_keeps k s n _ m h)

  subscription_entries_keeps :
      (k tenant : String) (ss : List NamespacedName) (m : Pipelines)
      → IsKey k m
      → IsKey k (subscription_entries i tenant ss m)
  unfolding subscription_entries
  subscription_entries_keeps k tenant [] m h = h
  subscription_entries_keeps k tenant (s ∷ ss) m h =
      subscription_entries_keeps k tenant ss _
        (output_entries_keeps k s _ _ (insert_keeps-IsKey _ k _ m h))

  tenant_entries_keeps :
      (k : String) (es : TenantMap) (m : Pipelines) → IsKey k m → IsKey k (tenant_entries i es m)
  unfolding tenant_entries
  tenant_entries_keeps k [] m h = h
  tenant_entries_keeps k ((tenant, subs) ∷ es) m h =
      tenant_entries_keeps k es _
        (subscription_entries_keeps k tenant _ _ (insert_keeps-IsKey _ k _ m h))

  output_entries-IsKey :
      (s n : NamespacedName) (o : Output) (ns : List NamespacedName) (m : Pipelines)
      → In n ns
      → find_output n i.relations.outputs_with_secret_data ≡ some o
      → IsKey (output_pipeline s n) (output_entries i s ns m)
  unfolding output_entries output_entry
  output_entries-IsKey s n o [] m at found = absurd at
  output_entries-IsKey s n o (k ∷ ns) m (inl e) found = output_entries_keeps _ s ns _ (
      subst
        (λ x.
          IsKey (output_pipeline s n)
            (output_entry i s x (find_output x i.relations.outputs_with_secret_data) m))
        e (rw found (insert-IsKey _ _ m)))
  output_entries-IsKey s n o (k ∷ ns) m (inr at) found = output_entries-IsKey s n o ns _ at found

  -- What a subscription puts into the pipelines.
  pub record Enters (tenant : String) (s : NamespacedName) (m : Pipelines) : Type 0 where
    pub own : IsKey (subscription_pipeline tenant s) m
    pub outputs :
        (n : NamespacedName) (o : Output)
        → In n (find_outputs_for_subscription i.relations s)
        → find_output n i.relations.outputs_with_secret_data ≡ some o
        → IsKey (output_pipeline s n) m

  subscription_entries-Enters :
      (tenant : String) (s : NamespacedName) (ss : List NamespacedName) (m : Pipelines)
      → In s ss
      → Enters tenant s (subscription_entries i tenant ss m)
  unfolding subscription_entries
  subscription_entries-Enters tenant s [] m at = absurd at
  subscription_entries-Enters tenant s (k ∷ ss) m (inl e) =
      subst (λ x. Enters tenant s (subscription_entries i tenant (x ∷ ss) m)) e
        (record {
          own =
              subscription_entries_keeps _ tenant ss _
                (output_entries_keeps _ s _ _ (insert-IsKey _ _ m));
          outputs = λ n o at found.
              subscription_entries_keeps _ tenant ss _ (
                output_entries-IsKey s n o (find_outputs_for_subscription i.relations s) _ at
                  found);
        })
  subscription_entries-Enters tenant s (k ∷ ss) m (inr at) =
      subscription_entries-Enters tenant s ss _ at

  -- What a tenant puts into the pipelines.
  pub record EntersAll (tenant : String) (m : Pipelines) : Type 0 where
    pub root : IsKey ("logs/tenant_" ⧺ tenant) m
    pub each : (s : NamespacedName) → In s (names_of_tenant i tenant) → Enters tenant s m

  tenant_entries-EntersAll :
      (tenant : String) (subs : Option (List NamespacedName)) (es : TenantMap) (m : Pipelines)
      → In (tenant, subs) es
      → EntersAll tenant (tenant_entries i es m)
  unfolding tenant_entries
  tenant_entries-EntersAll tenant subs [] m at = absurd at
  tenant_entries-EntersAll tenant subs ((name, old) ∷ es) m (inl e) =
      subst (λ x. EntersAll tenant (tenant_entries i (x ∷ es) m)) e
        (record {
          root =
              tenant_entries_keeps _ es _
                (subscription_entries_keeps _ tenant _ _ (insert-IsKey _ _ m));
          each = λ s at.
              let x = subscription_entries-Enters tenant s (names_of_tenant i tenant) _ at in
              record {
                own = tenant_entries_keeps _ es _ x.own;
                outputs =
                    λ n o there found. tenant_entries_keeps _ es _ (x.outputs n o there found);
              };
        })
  tenant_entries-EntersAll tenant subs ((name, old) ∷ es) m (inr at) =
      tenant_entries-EntersAll tenant subs es _ at

  pub named-EntersAll :
      (tenant : String) (subs : Option (List NamespacedName))
      → In (tenant, subs) i.relations.tenant_subscription_map
      → EntersAll tenant (generate_named_pipelines i)
  unfolding generate_named_pipelines
  named-EntersAll tenant subs at =
      tenant_entries-EntersAll tenant subs i.relations.tenant_subscription_map _ at
