-- ===== src/ConfGen/Gates/Panics.antt =====
-- otel_conf_gen.go: when the type assertion of assembleAdditionalArgs fails.
use Prim.Native.String.append
use telemetry_controller.Prelude.{
  String, ◌≡◌, refl, sym, ap, subst, inl, inr, Bool, true, false, Option, none, some, List, [], ◌∷◌,
  All, In, Bool-cases, Option-cases, lookup, insert, lookup-insert, lookup-insert_self,
  lookup-cases, All-insert, copy, string_eq, nat_eq, ◌==◌, ◌⧺◌, arith, if◌then◌else◌, contains_text,
}
use telemetry_controller.Api.{NamespacedName, Batch, Output, Subscription, Tenant}
use telemetry_controller.Components.{OutputWithSecretData, get_exporter_name_for_output}
use telemetry_controller.Values.{Value, config}
use telemetry_controller.Processors.{
  Processor, settings, transform, generate_metrics_processors,
  generate_transform_processor_for_tenant, generate_output_exporter_name_processor,
  generate_tenant_attribute_processor, generate_batch_processor_for_output,
}
use telemetry_controller.ConfGen.{
  OtelColConfigInput, Processors, tenant_processors, subscription_processors, with_batch,
  output_processors, base_processors, generate_processors,
}
use telemetry_controller.ConfGen.Gates.{
  flattens, flatten_or, is_flatten_enabled, args_of, assemble_additional_args,
}

-- No transform processor flattens.
abbrev IsFlat : String × Processor → Type 0
IsFlat (k, settings v) = Unit
IsFlat (k, transform t) = t.flatten_data ≡ false

-- The key is bound to settings.
abbrev IsSetting : String → Processors → Type 0
IsSetting k m = (v : Value) × (lookup k m ≡ some (settings v))

-- A round of the loop whose processor is not the one under the key.
round-none :
    (b : Bool) (k j : String) (p : Processor) (later : Option Bool)
    → IsFlat (j, p)
    → later ≡ none
    → (if b then flatten_or (flattens p) later else later) ≡ none
unfolding flatten_or flattens
round-none b k j (settings u) later flat h = ground arith
round-none b k j (transform t) later flat h = ground arith

-- A loop that meets settings under a name with the word, and nothing that flattens, panics.
is_flatten_enabled-none :
    (k : String) (m : Processors)
    → contains_text k "transform" ≡ true
    → All IsFlat m
    → IsSetting k m
    → is_flatten_enabled m ≡ none
unfolding is_flatten_enabled lookup flatten_or flattens
is_flatten_enabled-none k [] word flat (v, h) = ground arith
is_flatten_enabled-none k ((j, p) ∷ m) word flat (v, h) =
    elim (lookup-cases k j p (settings v) m h) [
      | inl (same, setting) ↦ rw (same, setting, is_flatten_enabled, word) refl
      | inr behind ↦
          round-none (contains_text j "transform") k j p (is_flatten_enabled m) flat.0
            (is_flatten_enabled-none k m word flat.1 (v, behind))
    ]

insert-IsSetting :
    (k j : String) (v : Value) (m : Processors)
    → IsSetting k m
    → IsSetting k (insert j (settings v) m)
insert-IsSetting k j v m (u, h) = elim (Bool-cases (j == k)) [
  | inl same ↦ (v, rw (lookup-insert, same) refl)
  | inr other ↦ (u, rw (lookup-insert, other) h)
]

-- The word that a name has, it has in a longer one.
contains_text-append : (s t p : String) → contains_text t p ≡ true → contains_text (s ⧺ t) p ≡ true
unfolding contains_text
contains_text-append String.[] t p h = rw (append.nil t) h
contains_text-append (String.◌∷◌ c s) t p h =
    rw (append.cons c s t) (ground (arith, contains_text-append s t p h))

-- The loops after the one over the tenants set only settings.
subscription_processors-IsSetting :
    (k : String) (ss : List (NamespacedName × Subscription)) (m : Processors)
    → IsSetting k m
    → IsSetting k (subscription_processors ss m)
unfolding subscription_processors
subscription_processors-IsSetting k [] m h = h
subscription_processors-IsSetting k ((n, s) ∷ ss) m h =
    subscription_processors-IsSetting k ss _ (insert-IsSetting k _ _ m h)

subscription_processors-In :
    (n : NamespacedName) (s : Subscription) (ss : List (NamespacedName × Subscription))
    (m : Processors)
    → In (n, s) ss
    → IsSetting ("attributes/subscription_" ⧺ s.name) (subscription_processors ss m)
unfolding subscription_processors
subscription_processors-In n s [] m h = elim h [ ]
subscription_processors-In n s ((k, u) ∷ ss) m (inl e) =
    subst
      (λ x. IsSetting ("attributes/subscription_" ⧺ x) (subscription_processors ((k, u) ∷ ss) m))
      (ap (λ x. let y : Subscription = x.1 in y.name) (sym e))
      (subscription_processors-IsSetting _ ss _ (_, lookup-insert_self _ _ m))
subscription_processors-In n s ((k, u) ∷ ss) m (inr h) = subscription_processors-In n s ss _ h

output_processors-IsSetting :
    (k : String) (os : List OutputWithSecretData) (m : Processors)
    → IsSetting k m
    → IsSetting k (output_processors os m)
unfolding output_processors with_batch
output_processors-IsSetting k [] m h = h
output_processors-IsSetting k (o ∷ os) m h =
    output_processors-IsSetting k os _ (batch o.output.spec.batch)
  where
    named : Processors
    named =
        insert ("attributes/exporter_name_" ⧺ o.output.name)
          (settings
            (generate_output_exporter_name_processor (get_exporter_name_for_output o.output)))
          m

    batch :
        (b : Option Batch)
        → IsSetting k (elim b [
          | none ↦ named
          | some c ↦
              insert
                ("batch/" ⧺ o.output.name)
                (settings (config (generate_batch_processor_for_output c)))
                named
        ])
    batch none = insert-IsSetting k _ _ m h
    batch (some c) = insert-IsSetting k _ _ named (insert-IsSetting k _ _ m h)

-- Without a tenant that flattens, no transform processor does.
tenant_processors-IsFlat :
    (ts : List Tenant) (m : Processors)
    → All (λ t. t.spec.transform.flatten_data ≡ false) ts
    → All IsFlat m
    → All IsFlat (tenant_processors ts m)
unfolding tenant_processors generate_transform_processor_for_tenant
tenant_processors-IsFlat [] m flat h = h
tenant_processors-IsFlat (t ∷ ts) m flat h = tenant_processors-IsFlat ts _ flat.1 (
    choose (t.spec.transform.name == "") _ _
      (All-insert IsFlat ("transform/" ⧺ t.spec.transform.name)
        (transform (generate_transform_processor_for_tenant t)) attributed flat.0 labelled)
      labelled)
  where
    attributed : Processors
    attributed =
        insert ("attributes/tenant_" ⧺ t.name)
          (settings (generate_tenant_attribute_processor t.name)) m

    labelled : All IsFlat attributed
    labelled = All-insert IsFlat _ _ m tt h

    choose :
        (b : Bool) (x y : Processors)
        → All IsFlat y
        → All IsFlat x
        → All IsFlat (if b then x else y)
    choose true x y hy hx = hx
    choose false x y hy hx = hy

subscription_processors-IsFlat :
    (ss : List (NamespacedName × Subscription)) (m : Processors)
    → All IsFlat m
    → All IsFlat (subscription_processors ss m)
unfolding subscription_processors
subscription_processors-IsFlat [] m h = h
subscription_processors-IsFlat ((n, s) ∷ ss) m h =
    subscription_processors-IsFlat ss _ (All-insert IsFlat _ _ m tt h)

with_batch-IsFlat : (o : Output) (m : Processors) → All IsFlat m → All IsFlat (with_batch o m)
unfolding with_batch
with_batch-IsFlat o m h = elim (Option-cases o.spec.batch) [
  | inl e ↦ rw e h
  | inr (b, e) ↦ rw e (All-insert IsFlat _ _ m tt h)
]

output_processors-IsFlat :
    (os : List OutputWithSecretData) (m : Processors)
    → All IsFlat m
    → All IsFlat (output_processors os m)
unfolding output_processors
output_processors-IsFlat [] m h = h
output_processors-IsFlat (o ∷ os) m h =
    output_processors-IsFlat os _ (with_batch-IsFlat o.output _ (All-insert IsFlat _ _ m tt h))

-- If the name of a subscription contains the word "transform", and no tenant asks for flattened
-- data, then assembleAdditionalArgs panics on the processors generated for the collector.
pub assemble_additional_args-none :
    (i : OtelColConfigInput) (n : NamespacedName) (s : Subscription)
    → In (n, s) i.relations.subscriptions
    → contains_text s.name "transform" ≡ true
    → All (λ t. t.spec.transform.flatten_data ≡ false) i.relations.tenants
    → assemble_additional_args (generate_processors i) ≡ none
unfolding assemble_additional_args generate_processors base_processors copy insert
    generate_metrics_processors args_of
assemble_additional_args-none i n s here word flat = ap args_of (
    is_flatten_enabled-none ("attributes/subscription_" ⧺ s.name) _
      (contains_text-append "attributes/subscription_" s.name "transform" word)
      (output_processors-IsFlat i.relations.outputs_with_secret_data _ (
        subscription_processors-IsFlat i.relations.subscriptions _
          (tenant_processors-IsFlat i.relations.tenants _ flat (tt, (tt, (tt, (tt, (tt, tt))))))))
      (output_processors-IsSetting _ i.relations.outputs_with_secret_data _
        (subscription_processors-In n s i.relations.subscriptions _ here)))
