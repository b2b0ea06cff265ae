-- ===== src/ConfGen/Assembly/Received.antt =====
-- otel_conf_gen.go: which receivers the configuration has.
use telemetry_controller.Prelude.{
  String, ◌≡◌, refl, sym, ap, subst, inl, inr, true, Option, none, some, List, [], ◌∷◌, items, In,
  IsKey, insert-IsKey, insert_keeps-IsKey, Bool-cases, Option-cases, string_eq, ◌==◌, eq_iff, ◌⧺◌,
  arith,
}
use telemetry_controller.Api.{NamespacedName, Tenant}
use telemetry_controller.Receivers.{EventsToLogs}
use telemetry_controller.Values.{Config}
use telemetry_controller.ConfGen.{
  OtelColConfigInput, selects, tenant_receivers, find_tenant_named, receivers_of,
  generate_receivers,
}

-- Tenants are told apart by their names.
abbrev pub AreDistinct : List Tenant → Type 0
AreDistinct ts = (t u : Tenant) → In t ts → In u ts → t.name ≡ u.name → t ≡ u

find_tenant_named_first :
    (name : String) (ts : List Tenant) (t : Tenant)
    → In t ts
    → t.name ≡ name
    → ((u : Tenant) → In u ts → u.name ≡ name → t ≡ u)
    → find_tenant_named name ts ≡ some t
unfolding find_tenant_named
find_tenant_named_first name [] t h same only = elim h [ ]
find_tenant_named_first name (u ∷ ts) t h same only = elim (Bool-cases (name == u.name)) [
  | inl here ↦ rw here (ap some (sym (only u (inl refl) (sym ((eq_iff name u.name).0 here)))))
  | inr other ↦ rw other (elim h [
    | inl e ↦ absurd (
        ground
          (arith, other, (eq_iff name u.name).1, ap (λ x. let y : Tenant = x in y.name) e, same))
    | inr later ↦ find_tenant_named_first name ts t later same (λ v k. only v (inr k))
  ])
]

module _ (i : OtelColConfigInput) where
  abbrev Receivers : Type 0
  Receivers = List (String × Config)

  tenant_receivers_keeps :
      (k name : String) (found : Option Tenant) (m : Receivers)
      → IsKey k m
      → IsKey k (tenant_receivers i.dry_run_mode i.events_to_logs name found m)
  unfolding tenant_receivers
  tenant_receivers_keeps k name none m h = h
  tenant_receivers_keeps k name (some t) m h =
      elim (Bool-cases (selects (items t.status.log_source_namespaces) t)) [
        | inl on ↦ elim (Option-cases i.events_to_logs) [
          | inl quiet ↦ rw (on, quiet) (insert_keeps-IsKey _ k _ m h)
          | inr (e, events) ↦
              rw (on, events) (insert_keeps-IsKey _ k _ _ (insert_keeps-IsKey _ k _ m h))
        ]
        | inr off ↦ rw off h
      ]

  receivers_of_keeps :
      (k : String) (es : List (String × Option (List NamespacedName))) (m : Receivers)
      → IsKey k m
      → IsKey k (receivers_of i es m)
  unfolding receivers_of
  receivers_of_keeps k [] m h = h
  receivers_of_keeps k ((name, subs) ∷ es) m h =
      receivers_of_keeps k es _
        (tenant_receivers_keeps k name (find_tenant_named name i.relations.tenants) m h)

  module _ (t : Tenant) (here : In t i.relations.tenants)
      (distinct : AreDistinct i.relations.tenants)
      (on : selects (items t.status.log_source_namespaces) t ≡ true) where
    tenant_receivers-IsKey :
        (m : Receivers)
        → IsKey
            ("file_log/" ⧺ t.name)
            (tenant_receivers i.dry_run_mode i.events_to_logs t.name (some t) m)
          × ((e : EventsToLogs)
              → i.events_to_logs ≡ some e
              → IsKey
                  ("k8s_events/" ⧺ t.name)
                  (tenant_receivers i.dry_run_mode i.events_to_logs t.name (some t) m))
    unfolding tenant_receivers
    tenant_receivers-IsKey m = (
      elim (Option-cases i.events_to_logs) [
        | inl quiet ↦ rw (on, quiet) (insert-IsKey _ _ m)
        | inr (e, events) ↦ rw (on, events) (insert_keeps-IsKey _ _ _ _ (insert-IsKey _ _ m))
      ],
      λ e events. rw (on, events) (insert-IsKey _ _ _),
    )

    abbrev found : find_tenant_named t.name i.relations.tenants ≡ some t
    found =
        find_tenant_named_first t.name i.relations.tenants t here refl
          (λ u there same. distinct t u here there (sym same))

    receivers_of-IsKey :
        (subs : Option (List NamespacedName)) (es : List (String × Option (List NamespacedName)))
        (m : Receivers)
        → In (t.name, subs) es
        → IsKey ("file_log/" ⧺ t.name) (receivers_of i es m)
          × ((e : EventsToLogs)
              → i.events_to_logs ≡ some e
              → IsKey ("k8s_events/" ⧺ t.name) (receivers_of i es m))
    unfolding receivers_of
    receivers_of-IsKey subs [] m h = elim h [ ]
    receivers_of-IsKey subs ((name, ss) ∷ es) m (inl e) =
        subst
          (λ x.
            IsKey ("file_log/" ⧺ t.name) (receivers_of i ((x, ss) ∷ es) m)
            × ((e' : EventsToLogs)
                → i.events_to_logs ≡ some e'
                → IsKey ("k8s_events/" ⧺ t.name) (receivers_of i ((x, ss) ∷ es) m)))
          (ap (λ x. let y : String × Option (List NamespacedName) = x in y.0) e)
          (rw found (
            receivers_of_keeps _ es _ (tenant_receivers-IsKey m).0,
            λ e' events. receivers_of_keeps _ es _ ((tenant_receivers-IsKey m).1 e' events),
          ))
    receivers_of-IsKey subs ((name, ss) ∷ es) m (inr h) = receivers_of-IsKey subs es _ h

    -- The receivers of a tenant with a subscription entry that selects what it reads.
    pub tenant-IsKey :
        (subs : Option (List NamespacedName))
        → In (t.name, subs) i.relations.tenant_subscription_map
        → IsKey ("file_log/" ⧺ t.name) (generate_receivers i)
          × ((e : EventsToLogs)
              → i.events_to_logs ≡ some e
              → IsKey ("k8s_events/" ⧺ t.name) (generate_receivers i))
    unfolding generate_receivers
    tenant-IsKey subs h = receivers_of-IsKey subs i.relations.tenant_subscription_map [] h
