-- ===== src/ConfGen/Configured.antt =====
-- otel_conf_gen.go: which processors the configuration has.
use telemetry_controller.Prelude.{
  String, ◌≡◌, refl, sym, ap, subst, lookup, inl, inr, false, some, List, [], ◌∷◌, In, Bool-cases,
  Option-cases, IsKey, insert, insert-IsKey, insert_keeps-IsKey, copy, string_eq, ◌==◌, ◌⧺◌,
}
use telemetry_controller.Api.{NamespacedName, Batch, Output, Subscription, Tenant}
use telemetry_controller.Components.{OutputWithSecretData}
use telemetry_controller.Processors.{generate_metrics_processors}
use telemetry_controller.ConfGen.{
  OtelColConfigInput, Processors, tenant_processors, subscription_processors, with_batch,
  output_processors, base_processors, generate_processors,
}

-- A key stays through each loop.
tenant_processors_keeps :
    (k : String) (ts : List Tenant) (m : Processors) → IsKey k m → IsKey k (tenant_processors ts m)
unfolding tenant_processors
tenant_processors_keeps k [] m h = h
tenant_processors_keeps k (t ∷ ts) m h = elim (Bool-cases (t.spec.transform.name == "")) [
  | inl empty ↦ rw empty (tenant_processors_keeps k ts _ (insert_keeps-IsKey _ k _ m h))
  | inr named ↦
      rw named
        (tenant_processors_keeps k ts _ (insert_keeps-IsKey _ k _ _ (insert_keeps-IsKey _ k _ m h)))
]

subscription_processors_keeps :
    (k : String) (ss : List (NamespacedName × Subscription)) (m : Processors)
    → IsKey k m
    → IsKey k (subscription_processors ss m)
unfolding subscription_processors
subscription_processors_keeps k [] m h = h
subscription_processors_keeps k ((n, s) ∷ ss) m h =
    subscription_processors_keeps k ss _ (insert_keeps-IsKey _ k _ m h)

with_batch_keeps : (k : String) (o : Output) (m : Processors) → IsKey k m → IsKey k (with_batch o m)
unfolding with_batch
with_batch_keeps k o m h = elim (Option-cases o.spec.batch) [
  | inl e ↦ rw e h
  | inr (b, e) ↦ rw e (insert_keeps-IsKey _ k _ m h)
]

output_processors_keeps :
    (k : String) (os : List OutputWithSecretData) (m : Processors)
    → IsKey k m
    → IsKey k (output_processors os m)
unfolding output_processors
output_processors_keeps k [] m h = h
output_processors_keeps k (o ∷ os) m h =
    output_processors_keeps k os _ (with_batch_keeps k o.output _ (insert_keeps-IsKey _ k _ m h))

-- Each element of a list has its processor after its loop.
tenant_processors-tenant :
    (t : Tenant) (ts : List Tenant) (m : Processors)
    → In t ts
    → IsKey ("attributes/tenant_" ⧺ t.name) (tenant_processors ts m)
unfolding tenant_processors
tenant_processors-tenant t [] m h = elim h [ ]
tenant_processors-tenant t (u ∷ ts) m (inl e) =
    subst (λ x. IsKey ("attributes/tenant_" ⧺ x.name) (tenant_processors (u ∷ ts) m)) (sym e)
      (elim (Bool-cases (u.spec.transform.name == "")) [
        | inl empty ↦ rw empty (tenant_processors_keeps _ ts _ (insert-IsKey _ _ m))
        | inr named ↦
            rw named
              (tenant_processors_keeps _ ts _ (insert_keeps-IsKey _ _ _ _ (insert-IsKey _ _ m)))
      ])
tenant_processors-tenant t (u ∷ ts) m (inr h) = tenant_processors-tenant t ts _ h

tenant_processors-transform :
    (t : Tenant) (ts : List Tenant) (m : Processors)
    → In t ts
    → (t.spec.transform.name == "") ≡ false
    → IsKey ("transform/" ⧺ t.spec.transform.name) (tenant_processors ts m)
unfolding tenant_processors
tenant_processors-transform t [] m h named = elim h [ ]
tenant_processors-transform t (u ∷ ts) m (inl e) named =
    subst (λ x. IsKey ("transform/" ⧺ x) (tenant_processors (u ∷ ts) m))
      (ap (λ x. let y : Tenant = x in y.spec.transform.name) (sym e))
      (rw (subst (λ x. let y : Tenant = x in (y.spec.transform.name == "") ≡ false) e named)
        (tenant_processors_keeps _ ts _ (insert-IsKey _ _ _)))
tenant_processors-transform t (u ∷ ts) m (inr h) named = tenant_processors-transform t ts _ h named

subscription_processors-subscription :
    (n : NamespacedName) (s : Subscription) (ss : List (NamespacedName × Subscription))
    (m : Processors)
    → In (n, s) ss
    → IsKey ("attributes/subscription_" ⧺ s.name) (subscription_processors ss m)
unfolding subscription_processors
subscription_processors-subscription n s [] m h = elim h [ ]
subscription_processors-subscription n s ((k, u) ∷ ss) m (inl e) =
    subst (λ x. IsKey ("attributes/subscription_" ⧺ x) (subscription_processors ((k, u) ∷ ss) m))
      (ap (λ x. let y : Subscription = x.1 in y.name) (sym e))
      (subscription_processors_keeps _ ss _ (insert-IsKey _ _ m))
subscription_processors-subscription n s ((k, u) ∷ ss) m (inr h) =
    subscription_processors-subscription n s ss _ h

output_processors-output :
    (o : OutputWithSecretData) (os : List OutputWithSecretData) (m : Processors)
    → In o os
    → IsKey ("attributes/exporter_name_" ⧺ o.output.name) (output_processors os m)
unfolding output_processors
output_processors-output o [] m h = elim h [ ]
output_processors-output o (u ∷ os) m (inl e) =
    subst (λ x. IsKey ("attributes/exporter_name_" ⧺ x) (output_processors (u ∷ os) m))
      (ap (λ x. let y : OutputWithSecretData = x in y.output.name) (sym e))
      (output_processors_keeps _ os _ (with_batch_keeps _ u.output _ (insert-IsKey _ _ m)))
output_processors-output o (u ∷ os) m (inr h) = output_processors-output o os _ h

with_batch-batch :
    (o : Output) (m : Processors) (b : Batch)
    → o.spec.batch ≡ some b
    → IsKey ("batch/" ⧺ o.name) (with_batch o m)
unfolding with_batch
with_batch-batch o m b e = rw e (insert-IsKey _ _ m)

output_processors-batch :
    (o : OutputWithSecretData) (os : List OutputWithSecretData) (m : Processors) (b : Batch)
    → In o os
    → o.output.spec.batch ≡ some b
    → IsKey ("batch/" ⧺ o.output.name) (output_processors os m)
unfolding output_processors
output_processors-batch o [] m b h e = elim h [ ]
output_processors-batch o (u ∷ os) m b (inl same) e =
    subst (λ x. IsKey ("batch/" ⧺ x) (output_processors (u ∷ os) m))
      (ap (λ x. let y : OutputWithSecretData = x in y.output.name) (sym same))
      (output_processors_keeps _ os _ (
        with_batch-batch u.output _ b
          (subst (λ x. let y : OutputWithSecretData = x in y.output.spec.batch ≡ some b) same e)))
output_processors-batch o (u ∷ os) m b (inr h) e = output_processors-batch o os _ b h e

module _ (i : OtelColConfigInput) where
  base-IsKey :
      (k : String) → IsKey k (base_processors i.memory_limiter) → IsKey k (generate_processors i)
  unfolding generate_processors
  base-IsKey k h = output_processors_keeps k i.relations.outputs_with_secret_data _ (
      subscription_processors_keeps k i.relations.subscriptions _
        (tenant_processors_keeps k i.relations.tenants _ h))

  pub fixed-IsKey :
      (IsKey "k8s_attributes" (generate_processors i))
      × (IsKey "memory_limiter" (generate_processors i))
      × (IsKey "filter/exclude" (generate_processors i))
      × (IsKey "deltatocumulative" (generate_processors i))
      × IsKey "attributes/metricattributes" (generate_processors i)
  unfolding base_processors copy insert lookup generate_metrics_processors
  fixed-IsKey = (
    base-IsKey _ (_, refl),
    base-IsKey _ (_, refl),
    base-IsKey _ (_, refl),
    base-IsKey _ (_, refl),
    base-IsKey _ (_, refl),
  )

  pub tenant-IsKey :
      (t : Tenant)
      → In t i.relations.tenants
      → IsKey ("attributes/tenant_" ⧺ t.name) (generate_processors i)
  unfolding generate_processors
  tenant-IsKey t h = output_processors_keeps _ i.relations.outputs_with_secret_data _ (
      subscription_processors_keeps _ i.relations.subscriptions _
        (tenant_processors-tenant t i.relations.tenants _ h))

  pub transform-IsKey :
      (t : Tenant)
      → In t i.relations.tenants
      → (t.spec.transform.name == "") ≡ false
      → IsKey ("transform/" ⧺ t.spec.transform.name) (generate_processors i)
  unfolding generate_processors
  transform-IsKey t h named = output_processors_keeps _ i.relations.outputs_with_secret_data _ (
      subscription_processors_keeps _ i.relations.subscriptions _
        (tenant_processors-transform t i.relations.tenants _ h named))

  pub subscription-IsKey :
      (n : NamespacedName) (s : Subscription)
      → In (n, s) i.relations.subscriptions
      → IsKey ("attributes/subscription_" ⧺ s.name) (generate_processors i)
  unfolding generate_processors
  subscription-IsKey n s h =
      output_processors_keeps _ i.relations.outputs_with_secret_data _
        (subscription_processors-subscription n s i.relations.subscriptions _ h)

  pub output-IsKey :
      (o : OutputWithSecretData)
      → In o i.relations.outputs_with_secret_data
      → IsKey ("attributes/exporter_name_" ⧺ o.output.name) (generate_processors i)
  unfolding generate_processors
  output-IsKey o h = output_processors-output o i.relations.outputs_with_secret_data _ h

  pub batch-IsKey :
      (o : OutputWithSecretData) (b : Batch)
      → In o i.relations.outputs_with_secret_data
      → o.output.spec.batch ≡ some b
      → IsKey ("batch/" ⧺ o.output.name) (generate_processors i)
  unfolding generate_processors
  batch-IsKey o b h e = output_processors-batch o i.relations.outputs_with_secret_data _ b h e
