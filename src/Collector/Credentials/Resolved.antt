-- ===== src/Collector/Credentials/Resolved.antt =====
-- collector_manager.go: the environment variables refer to what the secret has.
use telemetry_controller.Prelude.{
  ◌≡◌, refl, String, Option, none, some, List, [], ◌∷◌, All, All-append, insert, copy, IsKey,
  insert-IsKey, insert_keeps-IsKey, copy_keeps-IsKey, string_eq,
}
use telemetry_controller.Api.{output_name, OutputAuth, BasicAuthConfig, BearerAuthConfig}
use telemetry_controller.Components.{OutputWithSecretData}
use telemetry_controller.Extensions.{
  field_or, entry, basic_auth_secret_keys, basic_auth_secret_data, bearer_auth_secret_key,
  bearer_auth_secret_data,
}
use telemetry_controller.Collector.{Collector}
use telemetry_controller.Collector.Credentials.{
  SecretData, SecretEnvVar, authentication_of, auth_secret_name, add_basic, add_bearer,
  add_credentials, auth_data, auth_secret, basic_env, bearer_env, output_env, credential_env,
}

-- The secret of the output has what its methods of authentication name.
abbrev HasBasic : OutputWithSecretData → Option BasicAuthConfig → Type 0
HasBasic o none = Unit
HasBasic o (some a) =
    IsKey (field_or a.username_field "username") o.secret.entries
    × IsKey (field_or a.password_field "password") o.secret.entries

abbrev HasBearer : OutputWithSecretData → Option BearerAuthConfig → Type 0
HasBearer o none = Unit
HasBearer o (some a) = IsKey (field_or a.token_field "token") o.secret.entries

abbrev HasMethods : OutputWithSecretData → Option OutputAuth → Type 0
HasMethods o none = Unit
HasMethods o (some a) = HasBasic o a.basic_auth × HasBearer o a.bearer_auth

abbrev pub HasCredentials : OutputWithSecretData → Type 0
HasCredentials o = HasMethods o (authentication_of o)

-- The variable refers to a key of the data of the secret of that name.
abbrev RefersTo : String → SecretData → SecretEnvVar → Type 0
RefersTo secret entries v = (v.secret_name ≡ secret) × IsKey v.key entries

add_basic-keeps :
    (o : OutputWithSecretData) (a : Option BasicAuthConfig) (k : String) (m : SecretData)
    → IsKey k m
    → IsKey k (add_basic o a m)
unfolding add_basic
add_basic-keeps o none k m h = h
add_basic-keeps o (some a) k m h = copy_keeps-IsKey k m (basic_auth_secret_data o a) h

add_bearer-keeps :
    (o : OutputWithSecretData) (a : Option BearerAuthConfig) (k : String) (m : SecretData)
    → IsKey k m
    → IsKey k (add_bearer o a m)
unfolding add_bearer
add_bearer-keeps o none k m h = h
add_bearer-keeps o (some a) k m h = copy_keeps-IsKey k m (bearer_auth_secret_data o a) h

add_credentials-keeps :
    (o : OutputWithSecretData) (a : Option OutputAuth) (k : String) (m : SecretData)
    → IsKey k m
    → IsKey k (add_credentials o a m)
unfolding add_credentials
add_credentials-keeps o none k m h = h
add_credentials-keeps o (some a) k m h =
    add_bearer-keeps o a.bearer_auth k _ (add_basic-keeps o a.basic_auth k m h)

auth_data-keeps :
    (os : List OutputWithSecretData) (k : String) (m : SecretData)
    → IsKey k m
    → IsKey k (auth_data os m)
unfolding auth_data
auth_data-keeps [] k m h = h
auth_data-keeps (o ∷ os) k m h =
    auth_data-keeps os k _ (add_credentials-keeps o (authentication_of o) k m h)

basic_env-resolved :
    (secret : String) (o : OutputWithSecretData) (a : Option BasicAuthConfig) (m : SecretData)
    → HasBasic o a
    → All (RefersTo secret (add_basic o a m)) (basic_env secret o a)
unfolding add_basic basic_env basic_auth_secret_data entry copy
basic_env-resolved secret o none m h = tt
basic_env-resolved secret o (some a) m ((u, user), (p, password)) =
    let keys = basic_auth_secret_keys (output_name o.output) in
    rw (user, password)
      (
        (refl, insert_keeps-IsKey keys.1 keys.0 p (insert keys.0 u m) (insert-IsKey keys.0 u m)),
        ((refl, insert-IsKey keys.1 p (insert keys.0 u m)), tt),
      )

bearer_env-resolved :
    (secret : String) (o : OutputWithSecretData) (a : Option BearerAuthConfig) (m : SecretData)
    → HasBearer o a
    → All (RefersTo secret (add_bearer o a m)) (bearer_env secret o a)
unfolding add_bearer bearer_env bearer_auth_secret_data entry copy
bearer_env-resolved secret o none m h = tt
bearer_env-resolved secret o (some a) m (t, token) =
    rw token ((refl, insert-IsKey (bearer_auth_secret_key (output_name o.output)) t m), tt)

refers-kept :
    (secret : String) (before after : SecretData) (vs : List SecretEnvVar)
    → ((k : String) → IsKey k before → IsKey k after)
    → All (RefersTo secret before) vs
    → All (RefersTo secret after) vs
refers-kept secret before after [] f h = tt
refers-kept secret before after (v ∷ vs) f h =
    ((h.0.0, f v.key h.0.1), refers-kept secret before after vs f h.1)

output_env-resolved :
    (secret : String) (o : OutputWithSecretData) (a : Option OutputAuth) (m : SecretData)
    → HasMethods o a
    → All (RefersTo secret (add_credentials o a m)) (output_env secret o a)
unfolding add_credentials output_env
output_env-resolved secret o none m h = tt
output_env-resolved secret o (some a) m h =
    let m' = add_basic o a.basic_auth m in
    All-append (RefersTo secret (add_bearer o a.bearer_auth m')) (basic_env secret o a.basic_auth)
      (bearer_env secret o a.bearer_auth)
      (refers-kept secret m' (add_bearer o a.bearer_auth m') (basic_env secret o a.basic_auth)
        (λ k. add_bearer-keeps o a.bearer_auth k m')
        (basic_env-resolved secret o a.basic_auth m h.0))
      (bearer_env-resolved secret o a.bearer_auth m' h.1)

all_env-resolved :
    (collector : Collector) (os : List OutputWithSecretData) (m : SecretData)
    → All HasCredentials os
    → All
        (RefersTo (auth_secret_name collector.name) (auth_data os m))
        (credential_env collector os)
unfolding auth_data credential_env
all_env-resolved collector [] m h = tt
all_env-resolved collector (o ∷ os) m h =
    let secret = auth_secret_name collector.name in
    let env = output_env secret o (authentication_of o) in
    let m' = add_credentials o (authentication_of o) m in
    All-append (RefersTo secret (auth_data os m')) env (credential_env collector os)
      (refers-kept secret m' (auth_data os m') env (λ k. auth_data-keeps os k m')
        (output_env-resolved secret o (authentication_of o) m h.0))
      (all_env-resolved collector os m' h.1)

-- If the secret of every output has the fields that its methods of authentication name, then every
-- environment variable that a collector gets for the credentials of its outputs refers to the
-- secret that is made for the collector, by its name, and to a key that this secret has.
pub credential_env-resolved :
    (collector : Collector) (outputs : List OutputWithSecretData)
    → All HasCredentials outputs
    → All
        (λ v.
          (v.secret_name ≡ (auth_secret collector outputs).name)
          × IsKey v.key (auth_secret collector outputs).entries)
        (credential_env collector outputs)
unfolding auth_secret
credential_env-resolved collector outputs h = all_env-resolved collector outputs [] h
