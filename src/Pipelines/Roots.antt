-- ===== src/Pipelines/Roots.antt =====
-- pipeline.go: what the receivers and exporters of a tenant's root pipeline are.
use telemetry_controller.Prelude.{
  String, ◌≡◌, ◌≢◌, refl, ◌⊎◌, inl, inr, Bool, true, false, ◌||◌, Option, none, some, List, [], ◌∷◌,
  All, All-append, In, Bool-cases, Option-cases, string_eq, ◌==◌, eq_iff, ◌⧺◌, arith, if◌then◌else◌,
}
use telemetry_controller.Api.{Tenant}
use telemetry_controller.Pipelines.{
  filter_empty_pipelines, generate_pipeline, is_set, root_receivers, root_exporter, root_names,
  generate_root_pipeline,
}

-- What is not empty stays.
pub filter_empty-All :
    (E : String → Type 0) (xs : List String)
    → All (λ k. (k == "") ≡ false → E k) xs
    → All E (filter_empty_pipelines xs)
unfolding filter_empty_pipelines
filter_empty-All E [] h = tt
filter_empty-All E (x ∷ xs) h = elim (Bool-cases (x == "")) [
  | inl empty ↦ rw empty (filter_empty-All E xs h.1)
  | inr named ↦ rw named (h.0 named, filter_empty-All E xs h.1)
]

module _ (name : String) (events : Bool) (R E : String → Type 0) where
  -- What is known of the tenant of the name.
  pub record Feeds (t : Tenant) : Type 0 where
    pub receivers :
        (t.status.log_source_namespaces ≢ none) ⊎ (t.spec.select_from_all_namespaces ≡ true)
        → R ("file_log/" ⧺ name) × (events ≡ true → R ("k8s_events/" ⧺ name))
    pub exporter : t.status.subscriptions ≢ none → E ("routing/tenant_" ⧺ name ⧺ "_subscriptions")

  reads :
      (o : Option (List String)) (all : Bool) → (is_set o || all) ≡ true → (o ≢ none) ⊎ (all ≡ true)
  reads none all h = inr (ground arith)
  reads (some x) all h = inl (λ e. ground (arith, e))

  events_receivers :
      (b : Bool)
      → (b ≡ true → R ("k8s_events/" ⧺ name))
      → All R (if b then ("k8s_events/" ⧺ name) ∷ [] else [])
  events_receivers true h = (h refl, tt)
  events_receivers false h = tt

  root_receivers-All : (t : Tenant) → Feeds t → All R (root_receivers events name t)
  unfolding root_receivers
  root_receivers-All t feeds =
      elim (Bool-cases
        (is_set t.status.log_source_namespaces || t.spec.select_from_all_namespaces)) [
          | inl on ↦
              let (logs, more) = feeds.receivers (reads t.status.log_source_namespaces _ on) in
              rw on (logs, events_receivers events more)
          | inr off ↦ rw off tt
        ]

  root_exporter-All :
      (t : Tenant) (before : String)
      → Feeds t
      → ((before == "") ≡ false → E before)
      → (root_exporter name t before == "") ≡ false
      → E (root_exporter name t before)
  unfolding root_exporter
  root_exporter-All t before feeds h = elim (Option-cases t.status.subscriptions) [
    | inl missing ↦ rw missing h
    | inr (ss, e) ↦ rw e (λ _. feeds.exporter (λ missing. ground (arith, e, missing)))
  ]

  abbrev Fed : List String × String → Type 0
  Fed st = All R st.0 × ((st.1 == "") ≡ false → E st.1)

  root_names-Fed :
      (ts : List Tenant) (st : List String × String)
      → ((t : Tenant) → In t ts → t.name ≡ name → Feeds t)
      → Fed st
      → Fed (root_names events name ts st)
  unfolding root_names
  root_names-Fed [] st feeds h = h
  root_names-Fed (t ∷ ts) (receivers, exporter) feeds h =
      root_names-Fed ts _ (λ u there. feeds u (inr there))
        (elim (Bool-cases (t.name == name)) [
          | inl here ↦
              let fed = feeds t (inl refl) ((eq_iff t.name name).0 here) in
              rw here (
                All-append R receivers _ h.0 (root_receivers-All t fed),
                root_exporter-All t exporter fed h.1,
              )
          | inr other ↦ rw other h
        ])

  always : (xs : List String) → All R xs → All (λ k. (k == "") ≡ false → R k) xs
  always [] h = tt
  always (x ∷ xs) h = (λ _. h.0, always xs h.1)

  -- The receivers and exporters of the root pipeline are those of tenants of the name, and the
  -- counter of logs in a run that is not dry.
  pub root-All :
      (ts : List Tenant) (dry : Bool)
      → ((t : Tenant) → In t ts → t.name ≡ name → Feeds t)
      → (dry ≡ false → E "count/tenant_metrics")
      → All R (generate_root_pipeline ts name dry events).receivers
        × All E (generate_root_pipeline ts name dry events).exporters
  unfolding generate_root_pipeline generate_pipeline
  root-All ts true feeds counts =
      let st = root_names events name ts ([], "") in
      let fed = root_names-Fed ts ([], "") feeds (tt, λ h. ground (arith, h)) in
      (filter_empty-All R st.0 (always st.0 fed.0), filter_empty-All E (st.1 ∷ []) (fed.1, tt))
  root-All ts false feeds counts =
      let st = root_names events name ts ([], "") in
      let fed = root_names-Fed ts ([], "") feeds (tt, λ h. ground (arith, h)) in
      (
        filter_empty-All R st.0 (always st.0 fed.0),
        filter_empty-All E (st.1 ∷ "count/tenant_metrics" ∷ []) (fed.1, ((λ _. counts refl), tt)),
      )
