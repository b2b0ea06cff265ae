-- ===== src/Cluster/Succeeded.antt =====
-- What a run that returns a value has gone through.
use telemetry_controller.Prelude.{String, ◌≡◌, refl, subst, arith}
use telemetry_controller.Cluster.{Result, ok, err, Exec, wrapping, ◌>>=◌}
use telemetry_controller.Cluster.Writes.{Post}

-- A value that comes through `wrapping` was there before.
pub unwrapped :
    {W A : Type 0}
    → (text : String) (r : Result A) (a : A) (w : W) → (wrapping text (λ _. (r, w)) w).0 ≡ ok a
    → r ≡ ok a
unwrapped text (ok b) a w e = e
unwrapped text (err d) a w e = ground (arith, e)

-- A sequence that returns a value does so by the value of its first part.
bind-ok :
    {W A B : Type 0}
    → (r : Result A) (w : W) (f : A → Exec W B) (b : B) → (((λ _. (r, w)) >>= f) w).0 ≡ ok b
    → (a : A) × (r ≡ ok a) × ((f a w).0 ≡ ok b)
bind-ok (ok a) w f b e = (a, refl, e)
bind-ok (err d) w f b e = ground (arith, e)

-- What a run that ends in a value returns.
pub returned :
    {A : Type 0}
    → (R : A → Type 0) (result : Result A) (a : A) → Post R result
    → result ≡ ok a
    → R a
returned R (ok b) a h e = subst (Post R) e h
returned R (err d) a h e = subst (Post R) e h

pub wrapping-ok :
    {W A : Type 0}
    → (text : String) (m : Exec W A) (w : W) (a : A) → (wrapping text m w).0 ≡ ok a
    → (m w).0 ≡ ok a
wrapping-ok text m w a e = let r = m w in unwrapped text r.0 a r.1 e

pub then-ok :
    {W A B : Type 0}
    → (m : Exec W A) (f : A → Exec W B) (w : W) (b : B) → ((m >>= f) w).0 ≡ ok b
    → (a : A) × ((m w).0 ≡ ok a) × ((f a (m w).1).0 ≡ ok b)
then-ok m f w b e = let r = m w in bind-ok r.0 r.1 f b e
