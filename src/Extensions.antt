-- ===== src/Extensions.antt =====
-- pkg/resources/otel_conf_gen/pipeline/components/extension: credentials, health and storage.
-- strings.ToUpper followed by the replacement of what is no capital letter or digit is one
-- translation of characters, and likewise ToLower: of the characters outside ASCII, only the long s
-- and the dotless i have a capital letter in ASCII, and only the dotted capital I and the Kelvin
-- sign a small one. The operating system's name and directory are the platform's.
pub mod Keys
mod Tests
use Prim.Native.Char
use Prim.Native.Char.{Char, code}
use Prim.Native.String
use telemetry_controller.Prelude.{
  String, Bool, true, false, Option, none, some, List, [], ◌∷◌, ◌++◌, lookup, string_eq, nat_eq,
  ◌==◌, ◌⧺◌, if◌then◌else◌,
}
use telemetry_controller.Api.{NamespacedName, output_name, BasicAuthConfig, BearerAuthConfig}
use telemetry_controller.Components.{OutputWithSecretData}
use telemetry_controller.Values.{Value, text, flag, Config, config}

-- The character of `targets` at the place of `ch` in `sources`, and an underscore for one that is not there.
translate : String → String → Char → Char
translate (String.◌∷◌ c sources) (String.◌∷◌ d targets) ch =
    let later = translate sources targets ch in if code c == code ch then d else later
translate _ _ ch = Char.char 95 tt

translate_all : String → String → String → String
translate_all sources targets String.[] = String.[]
translate_all sources targets (String.◌∷◌ c s) =
    String.◌∷◌ (translate sources targets c) (translate_all sources targets s)

-- The characters that have a capital letter or digit in ASCII, and those; and with small letters.
abbrev env_sources : String
env_sources = "abcdefghijklmnopqrstuvwxyzABCDEFGHIJKLMNOPQRSTUVWXYZ0123456789ſı"

abbrev env_targets : String
env_targets = "ABCDEFGHIJKLMNOPQRSTUVWXYZABCDEFGHIJKLMNOPQRSTUVWXYZ0123456789SI"

abbrev key_sources : String
key_sources = "ABCDEFGHIJKLMNOPQRSTUVWXYZabcdefghijklmnopqrstuvwxyz0123456789İK"

abbrev key_targets : String
key_targets = "abcdefghijklmnopqrstuvwxyzabcdefghijklmnopqrstuvwxyz0123456789ik"

unfoldable pub sanitize_env_var_segment : String → String
unfolding translate_all translate
sanitize_env_var_segment s = translate_all env_sources env_targets s

unfoldable pub sanitize_secret_key_segment : String → String
unfolding translate_all translate
sanitize_secret_key_segment s = translate_all key_sources key_targets s

-- BasicAuthEnvVarNames
unfoldable pub basic_auth_env_var_names : NamespacedName → String × String
unfolding sanitize_env_var_segment
basic_auth_env_var_names n =
    let base =
      "TC_BASICAUTH_"
      ⧺ sanitize_env_var_segment n.namespace
      ⧺ "_"
      ⧺ sanitize_env_var_segment n.name in
    (base ⧺ "_USERNAME", base ⧺ "_PASSWORD")

-- BasicAuthSecretKeys
unfoldable pub basic_auth_secret_keys : NamespacedName → String × String
unfolding sanitize_secret_key_segment
basic_auth_secret_keys n =
    let base =
      "basicauth_"
      ⧺ sanitize_secret_key_segment n.namespace
      ⧺ "_"
      ⧺ sanitize_secret_key_segment n.name in
    (base ⧺ "_username", base ⧺ "_password")

unfoldable pub generate_basic_auth_extensions_for_output : OutputWithSecretData → Value
unfolding basic_auth_env_var_names
generate_basic_auth_extensions_for_output o =
    let (user, password) = basic_auth_env_var_names (output_name o.output) in
    config (
      (
        "client_auth",
        config (
            ("username", text ("${" ⧺ user ⧺ "}"))
            ∷ ("password", text ("${" ⧺ password ⧺ "}"))
            ∷ []),
      )
      ∷ [])

-- The entry of a secret's data under the first key, under the second.
unfoldable pub entry : Option String → String → List (String × String)
entry none key = []
entry (some v) key = (key, v) ∷ []

unfoldable pub field_or : String → String → String
field_or configured default = if configured == "" then default else configured

-- BasicAuthSecretData; `a` is the output's Authentication.BasicAuth.
unfoldable pub basic_auth_secret_data :
    OutputWithSecretData → BasicAuthConfig → List (String × String)
unfolding basic_auth_secret_keys entry field_or
basic_auth_secret_data o a =
    let (user, password) = basic_auth_secret_keys (output_name o.output) in
    entry (lookup (field_or a.username_field "username") o.secret.entries) user
    ++ entry (lookup (field_or a.password_field "password") o.secret.entries) password

-- BearerAuthEnvVarName
unfoldable pub bearer_auth_env_var_name : NamespacedName → String
unfolding sanitize_env_var_segment
bearer_auth_env_var_name n =
    ("TC_BEARERAUTH_"
      ⧺ sanitize_env_var_segment n.namespace
      ⧺ "_"
      ⧺ sanitize_env_var_segment n.name)
    ⧺ "_TOKEN"

-- BearerAuthSecretKey
unfoldable pub bearer_auth_secret_key : NamespacedName → String
unfolding sanitize_secret_key_segment
bearer_auth_secret_key n =
    ("bearerauth_"
      ⧺ sanitize_secret_key_segment n.namespace
      ⧺ "_"
      ⧺ sanitize_secret_key_segment n.name)
    ⧺ "_token"

unfoldable pub generate_bearer_auth_extensions_for_output : OutputWithSecretData → Value
unfolding bearer_auth_env_var_name
generate_bearer_auth_extensions_for_output o =
    config (("token", text ("${" ⧺ bearer_auth_env_var_name (output_name o.output) ⧺ "}")) ∷ [])

-- BearerAuthSecretData; `a` is the output's Authentication.BearerAuth.
unfoldable pub bearer_auth_secret_data :
    OutputWithSecretData → BearerAuthConfig → List (String × String)
unfolding bearer_auth_secret_key entry field_or
bearer_auth_secret_data o a =
    entry (lookup (field_or a.token_field "token") o.secret.entries)
      (bearer_auth_secret_key (output_name o.output))

unfoldable pub generate_health_check_extension : Config
generate_health_check_extension = ("endpoint", text "0.0.0.0:13133") ∷ []

-- runtime.GOOS, and the directory that filepath.Join makes on Windows.
pub record Platform : Type 0 where
  pub goos : String
  pub windows_directory : String

unfoldable pub determine_file_storage_directory : Platform → String → String → String
determine_file_storage_directory p directory tenant =
    if directory == ""
    then (if p.goos == "windows"
        then p.windows_directory ⧺ "/" ⧺ tenant
        else "/var/lib/otelcol/file_storage/" ⧺ tenant)
    else directory

unfoldable pub generate_file_storage_extension_for_tenant : Platform → String → String → Config
unfolding determine_file_storage_directory
generate_file_storage_extension_for_tenant p directory tenant =
    ("create_directory", flag true)
    ∷ ("directory", text (determine_file_storage_directory p directory tenant))
    ∷ []
