-- ===== src/Collector/Built.antt =====
-- collector_manager.go: what the loops of BuildConfigInputForCollector leave, from what is read.
use telemetry_controller.Prelude.{
  ◌≡◌, ◌≢◌, ◌⊎◌, inl, inr, Option, some, List, [], items, All, All-In, All_of, In, Bool-cases,
  string_eq,
}
use telemetry_controller.Api.{
  NamespacedName, name_instance, LabelSelector, Subscription, subscription_name, Tenant,
}
use telemetry_controller.Cluster.{
  Client, Result, ok, err, pure, fail, wrapping, ignore_not_found, ◌>>=◌,
}
use telemetry_controller.Cluster.Writes.{Post, Post-map, Returns, Returns-then, Returns-wrapping}
use telemetry_controller.ConfGen.{OtelColConfigInput}
use telemetry_controller.ConfGen.Assembly.Received.{AreDistinct}
use telemetry_controller.Collector.{
  Subscriptions, Collector, Gathered, Selected, gather_tenants, select_outputs, input_of,
  build_from, get_tenants_matching_selectors, build_config_input_for_collector,
}
use telemetry_controller.Collector.Gathering.{IsSound, gather_tenants-IsSound}
use telemetry_controller.Collector.Listed.{IsListed, gather_tenants-AllListed}
use telemetry_controller.Collector.Every.{gather_tenants-Every}
use telemetry_controller.Collector.Fed.{IsFed, AreFed, Selects, select_outputs-Selects}

-- A list of the status that is not nil is not empty.
abbrev pub IsOmitted : {A : Type 0} → Option (List A) → Type 0
IsOmitted xs = xs ≢ some []

-- The tenants that a list holds have different names, and omit the empty lists of their status.
pub record AreListable (tenants : List Tenant) : Type 0 where
  pub distinct : AreDistinct tenants
  pub subscriptions : (t : Tenant) → In t tenants → IsOmitted t.status.subscriptions
  pub namespaces : (t : Tenant) → In t tenants → IsOmitted t.status.log_source_namespaces

-- What is read of the cluster: a list of tenants that can be told apart, and, under the name of a
-- subscription, one that has that name, and outputs in its status.
pub record IsWellRead {W : Type 0} (c : Client W) : Type 0 where
  pub tenants : (s : LabelSelector) → Returns AreListable (c.list_tenants s)
  pub subscriptions :
      (n : NamespacedName) → Returns (λ s. subscription_name s ≡ n) (c.get_subscription n)
  pub outputs : (n : NamespacedName) → Returns IsFed (c.get_subscription n)

-- A tenant lists each subscription.
abbrev pub AreOwned : List Tenant → Subscriptions → Type 0
AreOwned tenants m =
    All (λ e. (t : Tenant) × In t tenants × In e.0 (items (let st = t.status in st.subscriptions)))
      m

-- What the loop over the tenants leaves, of which the loop over the subscriptions is a part.
pub record IsGathered (tenants : List Tenant) (g : Gathered) : Type 0 where
  pub sound : IsSound tenants g
  pub listed : (u : Tenant) → In u tenants → IsListed g.tenant_subscription_map u
  pub fed : AreFed g.subscriptions
  pub owned : AreOwned tenants g.subscriptions

abbrev pub nothing : Gathered
nothing = record { subscriptions = []; bridges = []; tenant_subscription_map = [] }

abbrev pub none_selected : Selected
none_selected = record { subscription_output_map = []; outputs = [] }

module _ {W : Type 0} (c : Client W) (reads : IsWellRead c) where
  ignored-AreListable :
      (r : Result (List Tenant)) (w : W)
      → Post AreListable r
      → Post AreListable (ignore_not_found c (λ _. (r, w)) w).0
  ignored-AreListable (ok ts) w h = h
  ignored-AreListable (err e) w h = elim (Bool-cases (c.is_not_found e)) [
    | inl missing ↦ rw missing (record {
      distinct = λ t u at. absurd at;
      subscriptions = λ t at. absurd at;
      namespaces = λ t at. absurd at;
    })
    | inr other ↦ rw other tt
  ]

  selected-AreListable :
      (selector : LabelSelector) → Returns AreListable (get_tenants_matching_selectors c selector)
  unfolding get_tenants_matching_selectors
  selected-AreListable selector = from (c.as_selector selector)
    where
      from :
          (parsed : Result _)
          → Returns AreListable
              (elim parsed [ err e ↦ fail e | ok s ↦ ignore_not_found c (c.list_tenants s) ])
      from (err e) = record { from = λ w. tt }
      from (ok s) = record {
        from = λ w.
            let read = c.list_tenants s w in
            ignored-AreListable read.0 read.1 ((reads.tenants s).from w);
      }

  -- What is read of a subscription for a tenant.
  abbrev IsRead : List Tenant → NamespacedName × Subscription → Type 0
  IsRead tenants e =
      IsFed e.1
      × ((t : Tenant) × In t tenants × In e.0 (items (let st = t.status in st.subscriptions)))

  subscription-IsRead :
      (tenants : List Tenant) (t : Tenant) (n : NamespacedName)
      → In t tenants
      → In n (items t.status.subscriptions)
      → Returns (λ s. IsRead tenants (n, s)) (c.get_subscription n)
  subscription-IsRead tenants t n here listed = record {
    from = λ w.
        Post-map IsFed (λ s. IsRead tenants (n, s)) (λ s fed. (fed, (t, here, listed)))
          (c.get_subscription n w).0 ((reads.outputs n).from w);
  }

  gather_tenants-IsGathered :
      (tenants : List Tenant)
      → AreListable tenants
      → Returns (IsGathered tenants) (gather_tenants c tenants nothing)
  gather_tenants-IsGathered tenants listable = record {
    from = λ w.
        joined (gather_tenants c tenants nothing w).0
          ((gather_tenants-IsSound c reads.subscriptions tenants tenants nothing (λ t there. there)
              (record { named = tt; known = tt; owners = tt })).from
            w)
          ((gather_tenants-AllListed c tenants listable.distinct tenants [] nothing
              (λ t there. there) (λ t there. absurd there) (λ t there. absurd there)).from
            w)
          ((gather_tenants-Every c (IsRead tenants) tenants (subscription-IsRead tenants) tenants
              nothing (λ t there. there) tt).from
            w);
  }
    where
      joined :
          (r : Result Gathered)
          → Post (IsSound tenants) r
          → Post
              (λ g. (u : Tenant) → In u [] ⊎ In u tenants → IsListed g.tenant_subscription_map u)
              r
          → Post (λ g. All (IsRead tenants) g.subscriptions) r
          → Post (IsGathered tenants) r
      joined (ok g) sound listed read = record {
        sound = sound;
        listed = λ u there. listed u (inr there);
        fed =
            All_of _ g.subscriptions
              (λ e at. let (fed, owner) = All-In (IsRead tenants) g.subscriptions e read at in fed);
        owned =
            All_of _ g.subscriptions (λ e at.
              let (fed, owner) = All-In (IsRead tenants) g.subscriptions e read at in owner);
      }
      joined (err e) sound listed read = tt

  -- What holds of every input that is made of what the two loops leave holds of what is built.
  -- `Q` is what else holds of what the second loop leaves.
  pub build-Returns :
      (collector : Collector) (Q : Selected → Type 0) (R : OtelColConfigInput → Type 0)
      → ((ss : Subscriptions) → Returns Q (select_outputs c ss none_selected))
      → ((tenants : List Tenant) (g : Gathered) (r : Selected)
          → AreListable tenants
          → IsGathered tenants g
          → Selects g.subscriptions none_selected r
          → Q r
          → R (input_of collector tenants g r))
      → Returns R (build_config_input_for_collector c collector)
  unfolding build_config_input_for_collector build_from
  build-Returns collector Q R kept makes =
      Returns-then AreListable R
        (wrapping "failed listing tenants"
          (get_tenants_matching_selectors c collector.tenant_selector))
        (build_from c collector)
        (Returns-wrapping AreListable "failed listing tenants"
          (get_tenants_matching_selectors c collector.tenant_selector)
          (selected-AreListable collector.tenant_selector))
        (λ tenants listable.
          Returns-then (IsGathered tenants) R (gather_tenants c tenants nothing)
            (λ g.
              select_outputs c g.subscriptions none_selected
              >>= (λ r. pure (input_of collector tenants g r)))
            (gather_tenants-IsGathered tenants listable)
            (λ g good. record {
              from = λ w.
                  let run = select_outputs c g.subscriptions none_selected w in
                  ended tenants listable g good run.0 run.1
                    ((select_outputs-Selects c g.subscriptions none_selected good.fed tt).from w)
                    ((kept g.subscriptions).from w);
            }))
    where
      ended :
          (tenants : List Tenant) (listable : AreListable tenants) (g : Gathered)
          (good : IsGathered tenants g) (result : Result Selected) (w : W)
          → Post (Selects g.subscriptions none_selected) result
          → Post Q result
          → Post R
              (((λ _. (result, w)) >>= (λ r. pure {W = W} (input_of collector tenants g r))) w).0
      ended tenants listable g good (ok r) w selects q = makes tenants g r listable good selects q
      ended tenants listable g good (err e) w selects q = tt
