-- ===== src/Cluster/Results.antt =====
-- Taking a successful run apart.
use telemetry_controller.Prelude.{String, ◌≡◌, refl, ap}
use telemetry_controller.Cluster.{Result, ok, err, Exec, ◌>>=◌, wrapping}

module _ {W A B : Type 0} where
  -- A sequence that succeeds is a first part that succeeds, and a second that does so after it.
  pub bind-eq-ok :
      (m : Exec W A) (f : A → Exec W B) (w : W) {b : B}
      → ((m >>= f) w).0 ≡ ok b
      → (a : A) × (w' : W) × (m w ≡ (ok a, w')) × ((f a w').0 ≡ ok b)
  bind-eq-ok m f w h = split (m w) refl h
    where
      split :
          {b : B} (r : Result A × W)
          → m w ≡ r
          → (((λ _. r) >>= f) w).0 ≡ ok b
          → (a : A) × (w' : W) × (m w ≡ (ok a, w')) × ((f a w').0 ≡ ok b)
      split (ok a, w') e h = (a, w', e, h)
      split (err e, w') _ h = cc

module _ {W A : Type 0} where
  -- errors.Wrapf changes no success.
  pub wrapping-eq-ok :
      (text : String) (m : Exec W A) (w w' : W) (a : A)
      → wrapping text m w ≡ (ok a, w')
      → m w ≡ (ok a, w')
  wrapping-eq-ok text m w w' a h = split (m w) h
    where
      split : (r : Result A × W) → wrapping text (λ _. r) w ≡ (ok a, w') → r ≡ (ok a, w')
      split (ok b, v) e = e
      split (err b, v) e = cc (ap (λ r. r.0) e)
