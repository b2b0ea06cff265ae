-- ===== src/Connectors/Bridging.antt =====
-- routing_connector.go: what bridges change of a tenant's pipeline.
use telemetry_controller.Prelude.{
  String, ◌≡◌, refl, ◌∙◌, ◌⊎◌, inl, inr, Bool, List, [], ◌∷◌, In, In-append_left, In-append_right,
  In-append_cases, contains→In, Bool-cases, string_eq, ◌==◌, ◌⧺◌, eq_iff, arith, subst,
}
use telemetry_controller.Api.{Bridge}
use telemetry_controller.Pipelines.{Pipeline}
use telemetry_controller.Connectors.{
  has_pipeline_receiver_or_exporter, add_connector_to_pipeline, check_bridge_connector_for_tenant,
  generate_routing_connector_for_bridges_tenant_pipeline,
}

add_connector_processors :
    (p : Pipeline) (name : String) (r e : Bool)
    → (add_connector_to_pipeline p name r e).processors ≡ p.processors
unfolding add_connector_to_pipeline
add_connector_processors p name r e = elim (Bool-cases (has_pipeline_receiver_or_exporter p name)) [
  | inl has ↦ rw has refl
  | inr new ↦ rw new refl
]

-- Bridges leave the processors of a pipeline as they are.
pub bridges_keep_processors :
    (tenant : String) (p : Pipeline) (bs : List Bridge)
    → (generate_routing_connector_for_bridges_tenant_pipeline tenant p bs).processors ≡ p.processors
unfolding generate_routing_connector_for_bridges_tenant_pipeline check_bridge_connector_for_tenant
bridges_keep_processors tenant p [] = refl
bridges_keep_processors tenant p (b ∷ bs) =
    bridges_keep_processors tenant
      (add_connector_to_pipeline p ("routing/bridge_" ⧺ b.name) (b.spec.target_tenant == tenant)
        (b.spec.source_tenant == tenant))
      bs
    ∙ add_connector_processors p ("routing/bridge_" ⧺ b.name) (b.spec.target_tenant == tenant)
        (b.spec.source_tenant == tenant)

abbrev connector_of : Bridge → String
connector_of b = "routing/bridge_" ⧺ b.name

abbrev attached : String → Pipeline → Bridge → Pipeline
attached tenant p b =
    add_connector_to_pipeline p (connector_of b) (b.spec.target_tenant == tenant)
      (b.spec.source_tenant == tenant)

-- What one bridge adds.
attached_sound :
    (tenant : String) (p : Pipeline) (b : Bridge) (e : String)
    → (In e (attached tenant p b).exporters
        → In e p.exporters ⊎ ((b.spec.source_tenant ≡ tenant) × (e ≡ connector_of b)))
      × (In e (attached tenant p b).receivers
          → In e p.receivers ⊎ ((b.spec.target_tenant ≡ tenant) × (e ≡ connector_of b)))
unfolding add_connector_to_pipeline
attached_sound tenant p b e = (
  λ h. ground (
    arith,
    eq_iff b.spec.source_tenant tenant,
    In-append_cases e p.exporters (connector_of b ∷ []),
  ),
  λ h. ground (
    arith,
    eq_iff b.spec.target_tenant tenant,
    In-append_cases e p.receivers (connector_of b ∷ []),
  ),
)

attached_complete :
    (tenant : String) (p : Pipeline) (b : Bridge)
    → (b.spec.source_tenant ≡ tenant) ⊎ (b.spec.target_tenant ≡ tenant)
    → In (connector_of b) (attached tenant p b).receivers
      ⊎ In (connector_of b) (attached tenant p b).exporters
unfolding add_connector_to_pipeline has_pipeline_receiver_or_exporter
attached_complete tenant p b h = ground (
  arith,
  h,
  eq_iff b.spec.source_tenant tenant,
  eq_iff b.spec.target_tenant tenant,
  contains→In p.receivers (connector_of b),
  contains→In p.exporters (connector_of b),
  In-append_right (connector_of b) p.receivers (connector_of b ∷ []),
  In-append_right (connector_of b) p.exporters (connector_of b ∷ []),
)

attached_keeps :
    (tenant : String) (p : Pipeline) (b : Bridge) (e : String)
    → (In e p.receivers → In e (attached tenant p b).receivers)
      × (In e p.exporters → In e (attached tenant p b).exporters)
unfolding add_connector_to_pipeline
attached_keeps tenant p b e = (
  λ h. ground (arith, In-append_left e p.receivers (connector_of b ∷ []) h),
  λ h. ground (arith, In-append_left e p.exporters (connector_of b ∷ []) h),
)

-- The exporters that bridges add to a tenant's pipeline are the connectors of bridges that start at
-- the tenant, and the receivers those of bridges that end there.
pub bridges_sound :
    (tenant : String) (p : Pipeline) (bs : List Bridge) (e : String)
    → (In e (generate_routing_connector_for_bridges_tenant_pipeline tenant p bs).exporters
        → In e p.exporters
          ⊎ ((b : Bridge) × In b bs × (b.spec.source_tenant ≡ tenant) × (e ≡ connector_of b)))
      × (In e (generate_routing_connector_for_bridges_tenant_pipeline tenant p bs).receivers
          → In e p.receivers
            ⊎ ((b : Bridge) × In b bs × (b.spec.target_tenant ≡ tenant) × (e ≡ connector_of b)))
unfolding generate_routing_connector_for_bridges_tenant_pipeline check_bridge_connector_for_tenant
bridges_sound tenant p [] e = (λ h. inl h, λ h. inl h)
bridges_sound tenant p (b ∷ bs) e =
    let rest = bridges_sound tenant (attached tenant p b) bs e in
    let here = attached_sound tenant p b e in
    (
      λ h. elim (rest.0 h) [
        | inl k ↦ elim (here.0 k) [
          | inl old ↦ inl old
          | inr (at, same) ↦ inr (b, inl refl, at, same)
        ]
        | inr (d, k, at, same) ↦ inr (d, inr k, at, same)
      ],
      λ h. elim (rest.1 h) [
        | inl k ↦ elim (here.1 k) [
          | inl old ↦ inl old
          | inr (at, same) ↦ inr (b, inl refl, at, same)
        ]
        | inr (d, k, at, same) ↦ inr (d, inr k, at, same)
      ],
    )

bridges_keep :
    (tenant : String) (p : Pipeline) (bs : List Bridge) (e : String)
    → In e p.receivers ⊎ In e p.exporters
    → In e (generate_routing_connector_for_bridges_tenant_pipeline tenant p bs).receivers
      ⊎ In e (generate_routing_connector_for_bridges_tenant_pipeline tenant p bs).exporters
unfolding generate_routing_connector_for_bridges_tenant_pipeline check_bridge_connector_for_tenant
bridges_keep tenant p [] e h = h
bridges_keep tenant p (b ∷ bs) e (inl h) =
    bridges_keep tenant (attached tenant p b) bs e (inl ((attached_keeps tenant p b e).0 h))
bridges_keep tenant p (b ∷ bs) e (inr h) =
    bridges_keep tenant (attached tenant p b) bs e (inr ((attached_keeps tenant p b e).1 h))

-- The connector of every bridge that starts or ends at a tenant is a receiver or an exporter of the
-- tenant's pipeline.
pub bridges_complete :
    (tenant : String) (p : Pipeline) (bs : List Bridge) (b : Bridge)
    → In b bs
    → (b.spec.source_tenant ≡ tenant) ⊎ (b.spec.target_tenant ≡ tenant)
    → In
        (connector_of b)
        (generate_routing_connector_for_bridges_tenant_pipeline tenant p bs).receivers
      ⊎ In
          (connector_of b)
          (generate_routing_connector_for_bridges_tenant_pipeline tenant p bs).exporters
unfolding generate_routing_connector_for_bridges_tenant_pipeline check_bridge_connector_for_tenant
bridges_complete tenant p [] b h at = elim h [ ]
bridges_complete tenant p (d ∷ bs) b (inl same) at =
    bridges_keep tenant (attached tenant p d) bs (connector_of b) (
      subst
        (λ x.
          In (connector_of b) (attached tenant p x).receivers
          ⊎ In (connector_of b) (attached tenant p x).exporters)
        same (attached_complete tenant p b at))
bridges_complete tenant p (d ∷ bs) b (inr h) at =
    bridges_complete tenant (attached tenant p d) bs b h at
