-- ===== src/ConfGen/Service/Extended.antt =====
-- otel_conf_gen.go: which extensions the configuration has.
use telemetry_controller.Prelude.{
  String, ◌≡◌, sym, subst, inl, inr, Bool, true, false, not, ◌&&◌, Option, none, some, List, [],
  ◌∷◌, In, IsKey, insert, insert-IsKey, insert_keeps-IsKey, Option-cases, string_eq, ◌⧺◌,
  if◌then◌else◌, arith,
}
use telemetry_controller.Api.{OutputAuth, BasicAuthConfig, BearerAuthConfig, Tenant}
use telemetry_controller.Components.{OutputWithSecretData}
use telemetry_controller.Values.{Value}
use telemetry_controller.Extensions.{Platform}
use telemetry_controller.ConfGen.{OtelColConfigInput}
use telemetry_controller.ConfGen.Service.{
  Extensions, basic_extension, bearer_extension, auth_extensions, output_extensions,
  tenant_extensions, generate_extensions,
}

abbrev pub basic_key : OutputWithSecretData → String
basic_key o = "basicauth/" ⧺ o.output.namespace ⧺ "_" ⧺ o.output.name

abbrev pub bearer_key : OutputWithSecretData → String
bearer_key o = "bearertokenauth/" ⧺ o.output.namespace ⧺ "_" ⧺ o.output.name

basic_extension_keeps :
    (k : String) (o : OutputWithSecretData) (a : OutputAuth) (m : Extensions)
    → IsKey k m
    → IsKey k (basic_extension o a m)
unfolding basic_extension
basic_extension_keeps k o a m h = elim (Option-cases a.basic_auth) [
  | inl e ↦ rw e h
  | inr (b, e) ↦ rw e (insert_keeps-IsKey _ k _ m h)
]

bearer_extension_keeps :
    (k : String) (o : OutputWithSecretData) (a : OutputAuth) (m : Extensions)
    → IsKey k m
    → IsKey k (bearer_extension o a m)
unfolding bearer_extension
bearer_extension_keeps k o a m h = elim (Option-cases a.bearer_auth) [
  | inl e ↦ rw e h
  | inr (b, e) ↦ rw e (insert_keeps-IsKey _ k _ m h)
]

auth_extensions_keeps :
    (k : String) (o : OutputWithSecretData) (a : Option OutputAuth) (m : Extensions)
    → IsKey k m
    → IsKey k (auth_extensions o a m)
unfolding auth_extensions
auth_extensions_keeps k o none m h = h
auth_extensions_keeps k o (some a) m h =
    bearer_extension_keeps k o a _ (basic_extension_keeps k o a m h)

output_extensions_keeps :
    (k : String) (os : List OutputWithSecretData) (m : Extensions)
    → IsKey k m
    → IsKey k (output_extensions os m)
unfolding output_extensions
output_extensions_keeps k [] m h = h
output_extensions_keeps k (o ∷ os) m h =
    output_extensions_keeps k os _ (auth_extensions_keeps k o o.output.spec.authentication m h)

-- What the extensions of an output have, those of all outputs have.
output_extensions-IsKey :
    (k : String) (o : OutputWithSecretData) (os : List OutputWithSecretData) (m : Extensions)
    → In o os
    → ((n : Extensions) → IsKey k (auth_extensions o o.output.spec.authentication n))
    → IsKey k (output_extensions os m)
unfolding output_extensions
output_extensions-IsKey k o [] m here adds = elim here [ ]
output_extensions-IsKey k o (x ∷ os) m (inl e) adds = output_extensions_keeps k os _ (
    subst
      (λ y.
        let z : OutputWithSecretData = y in
        IsKey k (auth_extensions z z.output.spec.authentication m))
      e (adds m))
output_extensions-IsKey k o (x ∷ os) m (inr later) adds =
    output_extensions-IsKey k o os _ later adds

module _ (p : Platform) (dry : Bool) where
  tenant_extensions_keeps :
      (k : String) (ts : List Tenant) (m : Extensions)
      → IsKey k m
      → IsKey k (tenant_extensions p dry ts m)
  unfolding tenant_extensions
  tenant_extensions_keeps k [] m h = h
  tenant_extensions_keeps k (t ∷ ts) m h = tenant_extensions_keeps k ts _ (either _ _ h)
    where
      either :
          (v : Value) (b : Bool)
          → IsKey k m
          → IsKey k (if b then insert ("file_storage/" ⧺ t.name) v m else m)
      either v true h = insert_keeps-IsKey _ k v m h
      either v false h = h

  tenant_extensions-IsKey :
      (t : Tenant) (ts : List Tenant) (m : Extensions)
      → In t ts
      → (not dry && t.spec.persistence_config.enable_file_storage) ≡ true
      → IsKey ("file_storage/" ⧺ t.name) (tenant_extensions p dry ts m)
  unfolding tenant_extensions
  tenant_extensions-IsKey t [] m here on = elim here [ ]
  tenant_extensions-IsKey t (u ∷ ts) m (inl e) on =
      subst (λ x. IsKey ("file_storage/" ⧺ t.name) (tenant_extensions p dry (x ∷ ts) m)) e
        (tenant_extensions_keeps _ ts _ (rw on (insert-IsKey _ _ m)))
  tenant_extensions-IsKey t (u ∷ ts) m (inr later) on = tenant_extensions-IsKey t ts _ later on

auth_extensions-basic :
    (o : OutputWithSecretData) (a : OutputAuth) (b : BasicAuthConfig) (m : Extensions)
    → o.output.spec.authentication ≡ some a
    → a.basic_auth ≡ some b
    → IsKey (basic_key o) (auth_extensions o o.output.spec.authentication m)
unfolding auth_extensions basic_extension
auth_extensions-basic o a b m e f =
    subst (λ x. IsKey (basic_key o) (auth_extensions o x m)) (sym e)
      (bearer_extension_keeps (basic_key o) o a (basic_extension o a m)
        (rw f (insert-IsKey (basic_key o) _ m)))

auth_extensions-bearer :
    (o : OutputWithSecretData) (a : OutputAuth) (b : BearerAuthConfig) (m : Extensions)
    → o.output.spec.authentication ≡ some a
    → a.bearer_auth ≡ some b
    → IsKey (bearer_key o) (auth_extensions o o.output.spec.authentication m)
unfolding auth_extensions bearer_extension basic_extension
auth_extensions-bearer o a b m e f =
    subst (λ x. IsKey (bearer_key o) (auth_extensions o x m)) (sym e)
      (rw f (insert-IsKey (bearer_key o) _ (basic_extension o a m)))

module _ (p : Platform) (i : OtelColConfigInput) where
  output-IsKey :
      (k : String) (o : OutputWithSecretData)
      → In o i.relations.outputs_with_secret_data
      → ((n : Extensions) → IsKey k (auth_extensions o o.output.spec.authentication n))
      → IsKey k (generate_extensions p i).0
  unfolding generate_extensions
  output-IsKey k o here adds =
      tenant_extensions_keeps p i.dry_run_mode k i.relations.tenants _
        (output_extensions-IsKey k o i.relations.outputs_with_secret_data _ here adds)

  -- The extensions of outputs with credentials, and of tenants whose files are persisted in a run
  -- that is not dry.
  pub basic-IsKey :
      (o : OutputWithSecretData) (a : OutputAuth) (b : BasicAuthConfig)
      → In o i.relations.outputs_with_secret_data
      → o.output.spec.authentication ≡ some a
      → a.basic_auth ≡ some b
      → IsKey (basic_key o) (generate_extensions p i).0
  basic-IsKey o a b here e f =
      output-IsKey (basic_key o) o here (λ n. auth_extensions-basic o a b n e f)

  pub bearer-IsKey :
      (o : OutputWithSecretData) (a : OutputAuth) (b : BearerAuthConfig)
      → In o i.relations.outputs_with_secret_data
      → o.output.spec.authentication ≡ some a
      → a.bearer_auth ≡ some b
      → IsKey (bearer_key o) (generate_extensions p i).0
  bearer-IsKey o a b here e f =
      output-IsKey (bearer_key o) o here (λ n. auth_extensions-bearer o a b n e f)

  pub storage-IsKey :
      (t : Tenant)
      → In t i.relations.tenants
      → t.spec.persistence_config.enable_file_storage ≡ true
      → i.dry_run_mode ≡ false
      → IsKey ("file_storage/" ⧺ t.name) (generate_extensions p i).0
  unfolding generate_extensions
  storage-IsKey t here on live =
      tenant_extensions-IsKey p i.dry_run_mode t i.relations.tenants _ here
        (ground (arith, on, live))
