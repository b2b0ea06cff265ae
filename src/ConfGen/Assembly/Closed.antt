-- ===== src/ConfGen/Assembly/Closed.antt =====
-- otel_conf_gen.go: the configuration that AssembleConfig returns names only what it holds.
use telemetry_controller.Prelude.{
  String, ◌≡◌, refl, sym, ap, subst, ◌⊎◌, inl, inr, List, [], ◌∷◌, map, items, All, All-In, All_of,
  In, IsKey, lookup, sort, sort_by, In-sort_by, Bool-cases, string_eq, ◌==◌, arith,
}
use telemetry_controller.Api.{NamespacedName, Subscription}
use telemetry_controller.Extensions.{Platform}
use telemetry_controller.Pipelines.{Pipeline}
use telemetry_controller.ConfGen.{OtelColConfigInput, Pipelines}
use telemetry_controller.ConfGen.Service.{
  names_of_tenant, generate_extensions, sorted_keys, generate_named_pipelines, assemble_pipelines,
}
use telemetry_controller.ConfGen.Service.Defined.{IsConsistent, assemble_pipelines-IsDefined}
use telemetry_controller.ConfGen.Service.Limiter.{with_limiter, assemble_pipelines-map}
use telemetry_controller.ConfGen.Assembly.{OtelConfig, otel_config_of, assemble_config}
use telemetry_controller.ConfGen.Assembly.Resolved.{IsResolved, Links}
use telemetry_controller.ConfGen.Assembly.Linked.{named-Links}

-- What a pipeline names is in the configuration.
abbrev pub IsConnected : OtelConfig → Pipeline → Type 0
IsConnected c p =
    All (λ k. IsKey k c.receivers ⊎ IsKey k c.connectors) p.receivers
    × All (λ k. IsKey k c.processors) p.processors
    × All (λ k. IsKey k c.exporters ⊎ IsKey k c.connectors) p.exporters

-- The pipelines and the service name only receivers, processors, exporters, connectors and
-- extensions that the configuration has.
pub record IsClosed (c : OtelConfig) : Type 0 where
  pub pipelines : All (λ e. IsConnected c e.1) c.pipelines
  pub extensions : All (λ k. IsKey k c.extensions) (items c.service_extensions)

-- A name in the list of the keys is a key.
keys-IsKey :
    {V : Type 0} → (k : String) (m : List (String × V)) → In k (map (λ e. e.0) m) → IsKey k m
unfolding lookup
keys-IsKey k [] h = elim h [ ]
keys-IsKey k ((j, v) ∷ m) h = elim (Bool-cases (j == k)) [
  | inl same ↦ (v, rw same refl)
  | inr other ↦ rw other (elim h [
    | inl e ↦ absurd (ground (arith, other, e, string_eq.beq_iff j k))
    | inr later ↦ keys-IsKey k m later
  ])
]

sorted_keys-In : (k : String) (ks : List String) → In k (items (sorted_keys ks)) → In k ks
unfolding sorted_keys sort_by sort
sorted_keys-In k [] h = h
sorted_keys-In k (j ∷ ks) h = In-sort_by (λ x. x) k (j ∷ ks) h

module _ (opaque : String → String) (p : Platform) (i : OtelColConfigInput) where
  resolved-IsConsistent : IsResolved i → IsConsistent i
  resolved-IsConsistent good = record {
    tenants = good.known;
    subscriptions = λ tenant.
        All_of (λ n. (s : Subscription) × In (n, s) i.relations.subscriptions × (s.name ≡ n.name))
          (names_of_tenant i tenant)
          (λ n here.
            let (s, there, same, fed) = All-In _ _ n (good.subscribed tenant) here in
            (s, there, ap (λ x. let y : NamespacedName = x in y.name) same));
  }

  limited-Links :
      (ps : Pipelines)
      → All (λ e. Links opaque i e.1) ps
      → All (λ e. Links opaque i e.1) (map with_limiter ps)
  unfolding with_limiter
  limited-Links [] h = tt
  limited-Links ((name, q) ∷ ps) h = (h.0, limited-Links ps h.1)

  joined :
      (ps : Pipelines)
      → All (λ e. Links opaque i e.1) ps
      → All (λ e. All (λ k. IsKey k (otel_config_of opaque p i).processors) e.1.processors) ps
      → All (λ e. IsConnected (otel_config_of opaque p i) e.1) ps
  unfolding otel_config_of
  joined [] h d = tt
  joined ((name, q) ∷ ps) h d = ((h.0.0, d.0, h.0.1), joined ps h.1 d.1)

  -- If the tenants have different names, the tenants and subscriptions that are named are there,
  -- each listed subscription has outputs, and a tenant whose status has subscriptions or namespaces
  -- has some, then the configuration that AssembleConfig returns is closed: every receiver,
  -- processor and exporter that a pipeline names is there, or is a connector that is there, and so
  -- is every extension that the service names. This holds in a dry run and when debugging, in both
  -- distributions, and for outputs of every kind.
  pub assemble_config-IsClosed : IsResolved i → IsClosed (assemble_config opaque p i).0
  unfolding assemble_config otel_config_of generate_extensions
  assemble_config-IsClosed good = record {
    pipelines =
        joined (assemble_pipelines i)
          (subst (All (λ e. Links opaque i e.1)) (sym (assemble_pipelines-map i))
            (limited-Links (generate_named_pipelines i) (named-Links opaque i good)))
          (assemble_pipelines-IsDefined i (resolved-IsConsistent good));
    extensions = All_of _ _ (λ k h. keys-IsKey k _ (sorted_keys-In k _ h));
  }
