-- ===== src/Extensions/Keys.antt =====
-- The names under which the credentials of an output are stored and read.
use Prim.Native.String.append
use text.Mathlib.TextLemmas.{append_assoc}
use telemetry_controller.Prelude.{String, ◌≡◌, sym, ap, ◌∙◌, ◌⧺◌}
use telemetry_controller.Api.{NamespacedName}
use telemetry_controller.Extensions.{
  translate, translate_all, env_sources, env_targets, key_sources, key_targets,
  sanitize_env_var_segment, sanitize_secret_key_segment, basic_auth_env_var_names,
  basic_auth_secret_keys, bearer_auth_env_var_name, bearer_auth_secret_key,
}

translate_all-append :
    (sources targets s t : String)
    → translate_all sources targets (s ⧺ t)
      ≡ translate_all sources targets s ⧺ translate_all sources targets t
unfolding translate_all
translate_all-append sources targets String.[] t =
    ap (translate_all sources targets) (append.nil t) ∙ sym (append.nil _)
translate_all-append sources targets (String.◌∷◌ c s) t =
    ap (translate_all sources targets) (append.cons c s t)
    ∙ ap (λ rest. String.◌∷◌ (translate sources targets c) rest)
        (translate_all-append sources targets s t)
    ∙ sym (append.cons (translate sources targets c) _ _)

-- Texts around a dash are sanitized like texts around an underscore.
sanitize_env_var_segment-dash :
    (a b : String)
    → sanitize_env_var_segment (a ⧺ "-" ⧺ b)
      ≡ sanitize_env_var_segment a ⧺ "_" ⧺ sanitize_env_var_segment b
unfolding sanitize_env_var_segment translate_all translate
sanitize_env_var_segment-dash a b =
    translate_all-append env_sources env_targets a ("-" ⧺ b)
    ∙ ap (λ rest. sanitize_env_var_segment a ⧺ rest)
        (translate_all-append env_sources env_targets "-" b)

sanitize_secret_key_segment-dash :
    (a b : String)
    → sanitize_secret_key_segment (a ⧺ "-" ⧺ b)
      ≡ sanitize_secret_key_segment a ⧺ "_" ⧺ sanitize_secret_key_segment b
unfolding sanitize_secret_key_segment translate_all translate
sanitize_secret_key_segment-dash a b =
    translate_all-append key_sources key_targets a ("-" ⧺ b)
    ∙ ap (λ rest. sanitize_secret_key_segment a ⧺ rest)
        (translate_all-append key_sources key_targets "-" b)

-- The dash between two texts may stand on either side of the underscore.
moved :
    (f : String → String)
    → ((a b : String) → f (a ⧺ "-" ⧺ b) ≡ f a ⧺ "_" ⧺ f b)
    → (a b c : String) → f (a ⧺ "-" ⧺ b) ⧺ "_" ⧺ f c ≡ f a ⧺ "_" ⧺ f (b ⧺ "-" ⧺ c)
moved f dash a b c =
    ap (λ s. s ⧺ "_" ⧺ f c) (dash a b)
    ∙ append_assoc (f a) ("_" ⧺ f b) ("_" ⧺ f c)
    ∙ ap (λ s. f a ⧺ s) (append_assoc "_" (f b) ("_" ⧺ f c))
    ∙ ap (λ s. f a ⧺ "_" ⧺ s) (sym (dash b c))

-- A dash at the end of a namespace and one at the start of a name are not told apart: the outputs
-- `c` in namespace `a-b` and `b-c` in namespace `a` share the environment variables and the secret's
-- keys of their credentials, for basic authentication and for tokens.
pub credentials_shared :
    (a b c : String)
    → let m : NamespacedName = record { namespace = a ⧺ "-" ⧺ b; name = c } in
      let n : NamespacedName = record { namespace = a; name = b ⧺ "-" ⧺ c } in
      (basic_auth_env_var_names m ≡ basic_auth_env_var_names n)
      × (basic_auth_secret_keys m ≡ basic_auth_secret_keys n)
      × (bearer_auth_env_var_name m ≡ bearer_auth_env_var_name n)
      × (bearer_auth_secret_key m ≡ bearer_auth_secret_key n)
unfolding basic_auth_env_var_names basic_auth_secret_keys bearer_auth_env_var_name
    bearer_auth_secret_key
credentials_shared a b c = (
  ap (λ s. (("TC_BASICAUTH_" ⧺ s) ⧺ "_USERNAME", ("TC_BASICAUTH_" ⧺ s) ⧺ "_PASSWORD")) env,
  ap (λ s. (("basicauth_" ⧺ s) ⧺ "_username", ("basicauth_" ⧺ s) ⧺ "_password")) key,
  ap (λ s. ("TC_BEARERAUTH_" ⧺ s) ⧺ "_TOKEN") env,
  ap (λ s. ("bearerauth_" ⧺ s) ⧺ "_token") key,
)
  where
    env :
        sanitize_env_var_segment (a ⧺ "-" ⧺ b) ⧺ "_" ⧺ sanitize_env_var_segment c
        ≡ sanitize_env_var_segment a ⧺ "_" ⧺ sanitize_env_var_segment (b ⧺ "-" ⧺ c)
    env = moved sanitize_env_var_segment sanitize_env_var_segment-dash a b c

    key :
        sanitize_secret_key_segment (a ⧺ "-" ⧺ b) ⧺ "_" ⧺ sanitize_secret_key_segment c
        ≡ sanitize_secret_key_segment a ⧺ "_" ⧺ sanitize_secret_key_segment (b ⧺ "-" ⧺ c)
    key = moved sanitize_secret_key_segment sanitize_secret_key_segment-dash a b c
