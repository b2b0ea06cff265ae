-- ===== src/Collector/Fed.antt =====
-- collector_manager.go: the subscriptions that are gathered have outputs, which the map of the
-- outputs holds.
use telemetry_controller.Prelude.{
  ◌≢◌, List, [], ◌∷◌, ◌++◌, items, All, insert, IsKey, insert-IsKey, insert_keeps-IsKey, All-insert,
  string_eq,
}
use telemetry_controller.Api.{NamespacedName, name_instance, Subscription, subscription_name}
use telemetry_controller.Cluster.{Client, Result, ok, err}
use telemetry_controller.Cluster.Writes.{Post, Returns, Returns-bind}
use telemetry_controller.Components.{OutputWithSecretData}
use telemetry_controller.Collector.{Subscriptions, Selected, get_outputs, select_outputs}

-- The status of a subscription has outputs.
abbrev pub IsFed : Subscription → Type 0
IsFed s = items (let st = s.status in st.outputs) ≢ []

abbrev pub AreFed : Subscriptions → Type 0
AreFed m = All (λ e. IsFed e.1) m

-- What the loop over the subscriptions leaves.
pub record Selects (ss : Subscriptions) (before after : Selected) : Type 0 where
  pub kept :
      (n : NamespacedName)
      → IsKey n before.subscription_output_map
      → IsKey n after.subscription_output_map
  pub filled : All (λ e. items e.1 ≢ []) after.subscription_output_map
  pub found : All (λ e. IsKey (subscription_name e.1) after.subscription_output_map) ss

module _ {W : Type 0} (c : Client W) where
  pub select_outputs-Selects :
      (ss : Subscriptions) (r : Selected)
      → AreFed ss
      → All (λ e. items e.1 ≢ []) r.subscription_output_map
      → Returns (Selects ss r) (select_outputs c ss r)
  unfolding select_outputs
  select_outputs-Selects [] r fed filled = record {
    from = λ w. record { kept = λ n h. h; filled = filled; found = tt };
  }
  select_outputs-Selects ((n, s) ∷ ss) r fed filled =
      Returns-bind (Selects ((n, s) ∷ ss) r)
        (get_outputs c (subscription_name s) (items s.status.outputs))
        (λ outputs. select_outputs c ss (next outputs))
        (λ outputs. record {
          from = λ w. widen outputs (select_outputs c ss (next outputs) w).0 (
              (select_outputs-Selects ss (next outputs) fed.1 (
                  All-insert (λ e. items e.1 ≢ []) (subscription_name s) s.status.outputs
                    r.subscription_output_map fed.0 filled)).from
                w);
        })
    where
      next : List OutputWithSecretData → Selected
      next outputs = record {
        subscription_output_map =
            insert (subscription_name s) s.status.outputs r.subscription_output_map;
        outputs = r.outputs ++ outputs;
      }

      widen :
          (outputs : List OutputWithSecretData) (result : Result Selected)
          → Post (Selects ss (next outputs)) result
          → Post (Selects ((n, s) ∷ ss) r) result
      widen outputs (ok after) x = record {
        kept = λ k h. x.kept k (
            insert_keeps-IsKey (subscription_name s) k s.status.outputs r.subscription_output_map
              h);
        filled = x.filled;
        found = (
          x.kept (subscription_name s)
              (insert-IsKey (subscription_name s) s.status.outputs r.subscription_output_map),
          x.found,
        );
      }
      widen outputs (err e) x = tt
