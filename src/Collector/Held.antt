-- ===== src/Collector/Held.antt =====
-- collector_manager.go: the outputs that the map of the outputs names are read.
use telemetry_controller.Prelude.{
  ◌≡◌, refl, sym, inl, inr, Option, some, List, [], ◌∷◌, ◌++◌, items, All, All_of, All-In, insert,
  All-insert, Bool-cases, string_eq, ◌==◌, arith, ◌⧺◌,
}
use telemetry_controller.Api.{
  NamespacedName, name_instance, string, Output, output_name, subscription_name,
}
use telemetry_controller.Cluster.{Client, pure}
use telemetry_controller.Cluster.Writes.{Returns, Returns-bind, Returns-then, Returns-wrapping}
use telemetry_controller.Components.{OutputWithSecretData}
use telemetry_controller.ConfGen.Service.{find_output}
use telemetry_controller.Collector.{
  Subscriptions, Selected, secret_of_output, get_outputs, select_outputs,
}

-- An output is found under the name.
abbrev pub IsHeld : List OutputWithSecretData → NamespacedName → Type 0
IsHeld os n = (o : Output) × (find_output n os ≡ some o)

first-IsHeld :
    (n : NamespacedName) (x : OutputWithSecretData) (os : List OutputWithSecretData)
    → output_name x.output ≡ n
    → IsHeld (x ∷ os) n
unfolding find_output
first-IsHeld n x os e =
    (x.output, rw ((name_instance.beq_iff n (output_name x.output)).1 (sym e)) refl)

later-IsHeld :
    (n : NamespacedName) (x : OutputWithSecretData) (os : List OutputWithSecretData)
    → IsHeld os n
    → IsHeld (x ∷ os) n
unfolding find_output
later-IsHeld n x os (o, found) = elim (Bool-cases (n == output_name x.output)) [
  | inl same ↦ (x.output, rw same refl)
  | inr other ↦ (o, rw other found)
]

append_left-IsHeld :
    (n : NamespacedName) (xs ys : List OutputWithSecretData) → IsHeld xs n → IsHeld (xs ++ ys) n
unfolding find_output
append_left-IsHeld n [] ys (o, found) = absurd (ground (arith, found))
append_left-IsHeld n (x ∷ xs) ys (o, found) = elim (Bool-cases (n == output_name x.output)) [
  | inl same ↦ (x.output, rw same refl)
  | inr other ↦ later-IsHeld n x (xs ++ ys) (append_left-IsHeld n xs ys (o, rw other at found))
]

append_right-IsHeld :
    (n : NamespacedName) (xs ys : List OutputWithSecretData) → IsHeld ys n → IsHeld (xs ++ ys) n
append_right-IsHeld n [] ys h = h
append_right-IsHeld n (x ∷ xs) ys h = later-IsHeld n x (xs ++ ys) (append_right-IsHeld n xs ys h)

-- The outputs that the map names are all held.
abbrev pub AreHeld : Selected → Type 0
AreHeld r = All (λ e. All (IsHeld r.outputs) (items e.1)) r.subscription_output_map

module _ {W : Type 0} (c : Client W)
    (reads : (n : NamespacedName) → Returns (λ o. output_name o ≡ n) (c.get_output n)) where
  get_outputs-IsHeld :
      (s : NamespacedName) (ns : List NamespacedName)
      → Returns (λ os. All (IsHeld os) ns) (get_outputs c s ns)
  unfolding get_outputs
  get_outputs-IsHeld s [] = record { from = λ w. tt }
  get_outputs-IsHeld s (n ∷ ns) =
      Returns-then (λ o. output_name o ≡ n) (λ os. All (IsHeld os) (n ∷ ns)) _ _
        (Returns-wrapping (λ o. output_name o ≡ n)
          ("failed getting outputs for subscription " ⧺ string s) (c.get_output n) (reads n))
        (λ o same.
          Returns-bind (λ os. All (IsHeld os) (n ∷ ns))
            (secret_of_output c o (let spec = o.spec in spec.authentication)) _
            (λ secret.
              Returns-then (λ os. All (IsHeld os) ns) (λ os. All (IsHeld os) (n ∷ ns))
                (get_outputs c s ns) (λ rest. pure (record { output = o; secret = secret } ∷ rest))
                (get_outputs-IsHeld s ns)
                (λ rest h. record {
                  from = λ w. (
                    first-IsHeld n (record { output = o; secret = secret }) rest same,
                    All_of _ ns (λ k at.
                        later-IsHeld k (record { output = o; secret = secret }) rest
                          (All-In (IsHeld rest) ns k h at)),
                  );
                })))

  -- More outputs do no harm.
  grown-AreHeld :
      (m : List (NamespacedName × Option (List NamespacedName)))
      (os more : List OutputWithSecretData)
      → All (λ e. All (IsHeld os) (items e.1)) m
      → All (λ e. All (IsHeld (os ++ more)) (items e.1)) m
  grown-AreHeld m os more h = All_of _ m (λ e at. All_of _ (items e.1) (λ n inside.
      append_left-IsHeld n os more (
        All-In (IsHeld os) (items e.1) n (All-In (λ x. All (IsHeld os) (items x.1)) m e h at)
          inside)))

  pub select_outputs-AreHeld :
      (ss : Subscriptions) (r : Selected) → AreHeld r → Returns AreHeld (select_outputs c ss r)
  unfolding select_outputs
  select_outputs-AreHeld [] r h = record { from = λ w. h }
  select_outputs-AreHeld ((n, s) ∷ ss) r h =
      Returns-then (λ os. All (IsHeld os) (items s.status.outputs)) AreHeld
        (get_outputs c (subscription_name s) (items s.status.outputs))
        (λ outputs. select_outputs c ss (next outputs))
        (get_outputs-IsHeld (subscription_name s) (items s.status.outputs))
        (λ outputs new. select_outputs-AreHeld ss (next outputs) (
          All-insert (λ e. All (IsHeld (r.outputs ++ outputs)) (items e.1)) (subscription_name s)
            s.status.outputs r.subscription_output_map
            (All_of _ (items s.status.outputs) (λ k at.
              append_right-IsHeld k r.outputs outputs
                (All-In (IsHeld outputs) (items s.status.outputs) k new at)))
            (grown-AreHeld r.subscription_output_map r.outputs outputs h)))
    where
      next : List OutputWithSecretData → Selected
      next outputs = record {
        subscription_output_map =
            insert (subscription_name s) s.status.outputs r.subscription_output_map;
        outputs = r.outputs ++ outputs;
      }
