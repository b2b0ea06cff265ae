-- ===== src/Components/Secrets.antt =====
-- Which outputs have one usable authentication method, decided apart from the client.
use telemetry_controller.Prelude.{
  String, ◌≡◌, refl, ◌⊎◌, inl, inr, Bool, true, false, Option, none, some, arith,
}
use telemetry_controller.Api.{OutputAuth, SecretReference, Output}
use telemetry_controller.Cluster.{Result, ok, err, Client, Error, Exec, wrapping}
use telemetry_controller.Cluster.Writes.{Keeps, Keeps-wrapping, Keeps-fail}
use telemetry_controller.Components.{
  select_auth, query_output_secret_with_data, query_output_secret, AuthRef,
}

abbrev pub is_ok : {A : Type 0} → Result A → Bool
is_ok (ok _) = true
is_ok (err _) = false

only : Option SecretReference → Option SecretReference → Option SecretReference
only (some r) none = some r
only none (some r) = some r
only _ _ = none

-- The secret of the one method that names a secret; none if no method does, or both do.
pub secret_of : OutputAuth → Option SecretReference
unfolding only
secret_of a =
    only (elim a.basic_auth [ none ↦ none | some b ↦ b.secret_ref ])
      (elim a.bearer_auth [ none ↦ none | some b ↦ b.secret_ref ])

-- Exactly one method names a secret, and that secret is there.
pub is_usable : (SecretReference → Bool) → OutputAuth → Bool
unfolding secret_of
is_usable there a = elim (secret_of a) [ none ↦ false | some r ↦ there r ]

abbrev secret_ref_of : Result AuthRef → Option SecretReference
secret_ref_of (ok ref) = some ref.secret_ref
secret_ref_of (err e) = none

select_auth-secret_of : (a : OutputAuth) → secret_of a ≡ secret_ref_of (select_auth a)
unfolding select_auth secret_of
select_auth-secret_of a = ground arith

pub Result-cases :
    {A : Type 0} (r : Result A) → ((a : A) × (r ≡ ok a)) ⊎ ((e : Error) × (r ≡ err e))
Result-cases (ok a) = inl (a, refl)
Result-cases (err e) = inr (e, refl)

is_ok-wrapping :
    {W A : Type 0} (text : String) (m : Exec W A) (w : W)
    → is_ok (wrapping text m w).0 ≡ is_ok (m w).0
is_ok-wrapping text m w = ground arith

-- While the secrets of the cluster stay as they are, a query succeeds exactly if the method is
-- usable.
pub query_output_secret_usable :
    {W : Type 0} (c : Client W) (there : SecretReference → Bool)
    → ((r : SecretReference) (w : W) → is_ok (c.get_secret r w).0 ≡ there r)
    → (o : Output) (a : OutputAuth) (w : W)
    → is_ok (query_output_secret c o a w).0 ≡ is_usable there a
unfolding query_output_secret is_usable
query_output_secret_usable c there stable o a w = elim (Result-cases (select_auth a)) [
  | inl (ref, e) ↦ ground (arith, e, select_auth-secret_of a, stable ref.secret_ref w)
  | inr (e, f) ↦ ground (arith, f, select_auth-secret_of a)
]

-- A query reads a secret, and writes nothing.
pub query_output_secret_with_data_keeps :
    {W : Type 0} (c : Client W) {P : W → Type 0}
    → ((r : SecretReference) → Keeps P (c.get_secret r))
    → (a : OutputAuth) → Keeps P (query_output_secret_with_data c a)
unfolding query_output_secret_with_data
query_output_secret_with_data_keeps c reads a = elim (Result-cases (select_auth a)) [
  | inl (ref, e) ↦ rw (e, query_output_secret_with_data) (Keeps-wrapping _ _ (reads ref.secret_ref))
  | inr (e, f) ↦ rw (f, query_output_secret_with_data) (Keeps-fail e)
]

pub query_output_secret_keeps :
    {W : Type 0} (c : Client W) {P : W → Type 0}
    → ((r : SecretReference) → Keeps P (c.get_secret r))
    → (o : Output) (a : OutputAuth) → Keeps P (query_output_secret c o a)
unfolding query_output_secret
query_output_secret_keeps c reads o a =
    Keeps-wrapping _ _ (query_output_secret_with_data_keeps c reads a)
