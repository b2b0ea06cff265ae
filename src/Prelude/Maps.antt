-- ===== src/Prelude/Maps.antt =====
-- Go's maps as association lists, one entry for a key.
use mathlib.Core.Path.{◌≡◌, refl, sym, ap, ◌∙◌, subst}
use mathlib.Core.Bool.{Bool, true, false}
use mathlib.Core.Option.{Option, none, some}
use mathlib.Core.List.{List, [], ◌∷◌, map}
use native.Mathlib.Omega.{arith}
use mathlib.Core.Logic.{◌≢◌, ◌⊎◌, inl, inr}
use telemetry_controller.Prelude.Tests.{if◌then◌else◌, Bool-cases, Eq, ◌==◌, beq_self}
use telemetry_controller.Prelude.Lists.{All, In}

module _ {ℓ κ} {K : Type ℓ} ⦃e : Eq K⦄ {V : Type κ} where
  -- v, ok := m[k]
  unfoldable pub lookup : K → List (K × V) → Option V
  lookup k [] = none
  lookup k ((j, v) ∷ m) = if j == k then some v else lookup k m

  -- m[k] = v
  unfoldable pub insert : K → V → List (K × V) → List (K × V)
  insert k v [] = (k, v) ∷ []
  insert k v ((first, old) ∷ rest) =
      let behind = insert k v rest in if first == k then (k, v) ∷ rest else (first, old) ∷ behind

  -- maps.Copy(m, src)
  unfoldable pub copy : List (K × V) → List (K × V) → List (K × V)
  copy m [] = m
  copy m ((k, v) ∷ src) = copy (insert k v m) src

  -- After m[k] = v the key k has v, and the others what they had.
  pub lookup-insert :
      (new asked : K) (v : V) (m : List (K × V))
      → lookup asked (insert new v m) ≡ (if new == asked then some v else lookup asked m)
  unfolding lookup insert
  lookup-insert new asked v [] = refl
  lookup-insert new asked v ((first, old) ∷ rest) = ground (
    arith,
    e.beq_iff new asked,
    e.beq_iff first new,
    e.beq_iff first asked,
    lookup-insert new asked v rest,
  )

  pub lookup-insert_self : (k : K) (v : V) (m : List (K × V)) → lookup k (insert k v m) ≡ some v
  lookup-insert_self k v m = rw (lookup-insert, beq_self k)

  -- The key is in the map.
  abbrev pub IsKey : K → List (K × V) → Type κ
  IsKey k m = (v : V) × (lookup k m ≡ some v)

  pub insert-IsKey : (k : K) (v : V) (m : List (K × V)) → IsKey k (insert k v m)
  insert-IsKey k v m = (v, lookup-insert_self k v m)

  pub insert_keeps-IsKey : (k j : K) (v : V) (m : List (K × V)) → IsKey j m → IsKey j (insert k v m)
  insert_keeps-IsKey k j v m (w, h) = elim (Bool-cases (k == j)) [
    | inl same ↦ (v, rw (lookup-insert, same) refl)
    | inr other ↦ (w, rw (lookup-insert, other) h)
  ]

  pub copy_keeps-IsKey : (j : K) (m src : List (K × V)) → IsKey j m → IsKey j (copy m src)
  unfolding copy
  copy_keeps-IsKey j m [] h = h
  copy_keeps-IsKey j m ((k, v) ∷ src) h =
      copy_keeps-IsKey j (insert k v m) src (insert_keeps-IsKey k j v m h)

  pub copy_adds-IsKey : (j : K) (m src : List (K × V)) → IsKey j src → IsKey j (copy m src)
  unfolding copy lookup
  copy_adds-IsKey j m [] (v, h) = absurd (ground arith)
  copy_adds-IsKey j m ((k, v) ∷ src) (w, h) = elim (Bool-cases (k == j)) [
    | inl same ↦
        copy_keeps-IsKey j (insert k v m) src
          (subst (λ x. IsKey x (insert k v m)) ((e.beq_iff k j).0 same) (insert-IsKey k v m))
    | inr other ↦ copy_adds-IsKey j (insert k v m) src (w, rw other at h)
  ]

  -- What holds of the entries of a map and of a new one.
  pub All-insert {μ} :
      (P : K × V → Type μ) (k : K) (v : V) (m : List (K × V))
      → P (k, v)
      → All P m
      → All P (insert k v m)
  unfolding insert
  All-insert P k v [] p ps = (p, tt)
  All-insert P k v ((j, w) ∷ m) p ps = elim (Bool-cases (j == k)) [
    | inl same ↦ rw same (p, ps.1)
    | inr other ↦ rw other (ps.0, All-insert P k v m p ps.1)
  ]

  pub All-copy {μ} :
      (P : K × V → Type μ) (m src : List (K × V)) → All P m → All P src → All P (copy m src)
  unfolding copy
  All-copy P m [] ps qs = ps
  All-copy P m ((k, v) ∷ src) ps qs =
      All-copy P (insert k v m) src (All-insert P k v m qs.0 ps) qs.1

  -- An entry that is found is the first, or found behind it.
  pub lookup-cases :
      (k j : K) (v a : V) (m : List (K × V))
      → lookup k ((j, v) ∷ m) ≡ some a
      → ((j ≡ k) × (v ≡ a)) ⊎ (lookup k m ≡ some a)
  unfolding lookup
  lookup-cases k j v a m h = split (j == k) refl h
    where
      split :
          (b : Bool)
          → (j == k) ≡ b
          → (if b then some v else lookup k m) ≡ some a
          → ((j ≡ k) × (v ≡ a)) ⊎ (lookup k m ≡ some a)
      split true same q =
          inl ((e.beq_iff j k).0 same, ap {A = Option V} (λ o. elim o [ none ↦ v | some x ↦ x ]) q)
      split false other q = inr q

  -- Nothing is found in an empty map.
  pub lookup-nil : (k : K) (a : V) → lookup k [] ≢ some a
  unfolding lookup
  lookup-nil k a h = ground arith

module _ {K V W : Type 0} ⦃e : Eq K⦄ where
  -- A map with other values has the same keys.
  pub map-IsKey :
      (f : V → W) (k : K) (m : List (K × V))
      → IsKey k m
      → IsKey k (map (λ x. let entry : K × V = x in (entry.0, f entry.1)) m)
  unfolding lookup
  map-IsKey f k [] (v, h) = absurd (ground arith)
  map-IsKey f k ((j, v) ∷ m) (w, h) = elim (Bool-cases (j == k)) [
    | inl same ↦ (f v, rw same)
    | inr other ↦ rw other (map-IsKey f k m (w, rw other at h))
  ]

module _ {K V : Type 0} ⦃keys : Eq K⦄ where
  -- What is found is an entry.
  pub lookup-In : (k : K) (a : V) (m : List (K × V)) → lookup k m ≡ some a → In (k, a) m
  lookup-In k a [] h = absurd (lookup-nil k a h)
  lookup-In k a ((j, v) ∷ m) h = elim (lookup-cases k j v a m h) [
    | inl (same, value) ↦ inl (cc (same, value))
    | inr behind ↦ inr (lookup-In k a m behind)
  ]

  -- The entries of a map after m[k] = v.
  pub insert-In : (k : K) (v : V) (m : List (K × V)) → In (k, v) (insert k v m)
  unfolding insert
  insert-In k v [] = inl refl
  insert-In k v ((j, w) ∷ m) = elim (Bool-cases (j == k)) [
    | inl same ↦ rw same (inl refl)
    | inr other ↦ rw other (inr (insert-In k v m))
  ]

  pub insert-In_cases :
      (k : K) (v : V) (e : K × V) (m : List (K × V)) → In e (insert k v m) → (e ≡ (k, v)) ⊎ In e m
  unfolding insert
  insert-In_cases k v e [] h = h
  insert-In_cases k v e ((j, w) ∷ m) h = ground (arith, h, insert-In_cases k v e m)

  -- An entry stays, but for the one that is found under the key.
  pub insert_keeps-In :
      (k j : K) (v w : V) (m : List (K × V))
      → In (j, w) m
      → In (j, w) (insert k v m) ⊎ ((j ≡ k) × (lookup k m ≡ some w))
  unfolding insert lookup
  insert_keeps-In k j v w [] h = absurd h
  insert_keeps-In k j v w ((i, u) ∷ m) (inl e) = elim (Bool-cases (i == k)) [
    | inl same ↦ rw same (
        inr (
          ap (λ x. let y : K × V = x in y.0) e ∙ (keys.beq_iff i k).0 same,
          ap (λ x. let y : K × V = x in some y.1) (sym e),
        ))
    | inr other ↦ rw other (inl (inl e))
  ]
  insert_keeps-In k j v w ((i, u) ∷ m) (inr h) = elim (Bool-cases (i == k)) [
    | inl same ↦ rw same (inl (inr h))
    | inr other ↦
        rw other (elim (insert_keeps-In k j v w m h) [
          | inl there ↦ inl (inr there)
          | inr found ↦ inr found
        ])
  ]
