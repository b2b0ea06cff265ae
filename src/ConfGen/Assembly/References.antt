-- ===== src/ConfGen/Assembly/References.antt =====
-- The extensions that the exporters refer to: for authentication and for the storage of a queue.
use telemetry_controller.Prelude.{
  String, ◌≡◌, ◌≢◌, refl, sym, subst, List, [], ◌∷◌, ◌++◌, In-append_right, In-append_left, arith,
  ◌⊎◌, inl, inr, false, Option, none, some, In, IsKey, Bool-cases, Option-cases, string_eq, ◌⧺◌,
}
use telemetry_controller.Api.{
  output_name, OutputAuth, Authentication, QueueSettings, Tenant, OtlpGrpc, OtlpHttp,
  GrpcClientConfig, HttpClientConfig, Elasticsearch,
}
use telemetry_controller.Cluster.{ok}
use telemetry_controller.Components.{OutputWithSecretData, find_tenant_for_output}
use telemetry_controller.Components.Relations.{find_tenant_for_output-ok}
use telemetry_controller.Extensions.{Platform}
use telemetry_controller.Exporters.Queue.{
  QueueWrapper, set_default_queue_settings, empty_queue, queue_value,
}
use telemetry_controller.Exporters.Wrappers.{
  map_to_otlp_grpc_wrapper, otlp_grpc_wrapper_fields, map_to_otlp_http_wrapper,
  otlp_http_wrapper_fields, map_to_elasticsearch_wrapper, elasticsearch_wrapper_fields,
}
use telemetry_controller.Json.Otlp.{
  grpc_client_fields, http_client_fields, authentication_value, timeout_fields, tls_client_value,
  keepalive_value, compression_params_value, cookies_value,
}
use telemetry_controller.Values.{Value, text, flag, config, Config}
use telemetry_controller.Values.Json.{optional, nullable, entries, int}
use telemetry_controller.Json.Exporters.{elasticsearch_fields as elasticsearch_settings}
use telemetry_controller.Exporters.Entries.{
  Entry, with_storage, with_auth, otlp_grpc_body, otlp_grpc_entry, otlp_http_body, otlp_http_entry,
  elasticsearch_body, elasticsearch_entry, for_tenant, each,
}
use telemetry_controller.ConfGen.{OtelColConfigInput}
use telemetry_controller.ConfGen.Service.{generate_extensions}
use telemetry_controller.ConfGen.Service.Extended.{
  basic_key, bearer_key, basic-IsKey, bearer-IsKey, storage-IsKey,
}

append_all : Config → List Config → Config
append_all done [] = done
append_all done (next ∷ more) = append_all (done ++ next) more

-- An entry stays when more are appended.
before-In :
    (x : String × Value) (xs : Config) (more : List Config) → In x xs → In x (append_all xs more)
unfolding append_all
before-In x xs [] at = at
before-In x xs (ys ∷ more) at = before-In x (xs ++ ys) more (In-append_left x xs ys at)

grpc-In :
    (x : String × Value) (c : GrpcClientConfig)
    → In x (optional authentication_value "auth" c.auth)
    → In x (grpc_client_fields c)
unfolding grpc_client_fields
grpc-In x c at =
    In-append_right x
      (nullable text "endpoint" c.endpoint
        ++ optional text "compression" c.compression
        ++ optional tls_client_value "tls" c.tls_setting
        ++ optional keepalive_value "keepalive" c.keepalive
        ++ optional int "read_buffer_size" c.read_buffer_size
        ++ optional int "write_buffer_size" c.write_buffer_size
        ++ optional flag "wait_for_ready" c.wait_for_ready
        ++ optional (entries text) "headers" c.headers
        ++ optional text "balancer_name" c.balancer_name
        ++ optional text "authority" c.authority)
      _ at

http-In :
    (x : String × Value) (opaque : String → String) (c : HttpClientConfig)
    → In x (optional authentication_value "auth" c.auth)
    → In x (http_client_fields opaque c)
unfolding http_client_fields append_all
http-In x opaque c at =
    let settings =
      optional text "endpoint" c.endpoint
      ++ optional text "proxy_url" c.proxy_url
      ++ optional tls_client_value "tls" c.tls_setting
      ++ optional int "read_buffer_size" c.read_buffer_size
      ++ optional int "write_buffer_size" c.write_buffer_size
      ++ optional text "timeout" c.timeout
      ++ optional (entries (λ s. text (opaque s))) "headers" c.headers in
    let auth = optional authentication_value "auth" c.auth in
    before-In x (settings ++ auth)
      (optional text "compression" c.compression
        ∷ optional compression_params_value "compression_params" c.compression_params
        ∷ optional int "max_idle_conns" c.max_idle_conns
        ∷ optional int "max_idle_conns_per_host" c.max_idle_conns_per_host
        ∷ optional int "max_conns_per_host" c.max_conns_per_host
        ∷ optional text "idle_conn_timeout" c.idle_conn_timeout
        ∷ optional flag "disable_keep_alives" c.disable_keep_alives
        ∷ optional text "http2_read_idle_timeout" c.http2_read_idle_timeout
        ∷ optional text "http2_ping_timeout" c.http2_ping_timeout
        ∷ optional cookies_value "cookies" c.cookies
        ∷ [])
      (In-append_right x settings auth at)

abbrev pub referring : String → Option Authentication
referring k = some (record { authenticator_id = some k })

module _ (p : Platform) (i : OtelColConfigInput) (o : OutputWithSecretData)
    (here : In o i.relations.outputs_with_secret_data) where
  abbrev pub IsExtension : String → Type 0
  IsExtension k = IsKey k (generate_extensions p i).0

  authenticator-IsKey :
      (a : OutputAuth) (before : Option Authentication)
      → o.output.spec.authentication ≡ some a
      → (a.basic_auth ≢ none) ⊎ (a.bearer_auth ≢ none)
      → (k : String) × (with_auth o.output before ≡ referring k) × IsExtension k
  unfolding with_auth
  authenticator-IsKey a before e h = elim (Option-cases a.basic_auth) [
    | inr (b, f) ↦ (basic_key o, rw (e, f) refl, basic-IsKey p i o a b here e f)
    | inl f ↦ elim (Option-cases a.bearer_auth) [
      | inr (b, g) ↦ (bearer_key o, rw (e, f, g) refl, bearer-IsKey p i o a b here e g)
      | inl g ↦ elim h [ inl x ↦ absurd (x f) | inr x ↦ absurd (x g) ]
    ]
  ]

  unset : (s : Option QueueSettings) → (set_default_queue_settings s empty_queue).storage ≡ none
  unfolding set_default_queue_settings
  unset none = refl
  unset (some x) = refl

  -- The queue of an exporter has no storage, or one that is configured.
  stored-IsKey :
      (s : Option QueueSettings) (t : Tenant)
      → find_tenant_for_output i.relations (output_name o.output) ≡ ok t
      → i.dry_run_mode ≡ false
      → let q = with_storage t (set_default_queue_settings s empty_queue) in
        (q.storage ≡ none) ⊎ ((k : String) × (q.storage ≡ some k) × IsExtension k)
  unfolding with_storage
  stored-IsKey s t found live = elim (Bool-cases t.spec.persistence_config.enable_file_storage) [
    | inl on ↦ inr (
      "file_storage/" ⧺ t.name,
      rw on refl,
      storage-IsKey p i t (find_tenant_for_output-ok i.relations _ t found).0 on live,
    )
    | inr off ↦ inl (rw off (unset s))
  ]

  -- The value of an exporter names an authenticator that is an extension, and stores its queue in
  -- memory or in an extension.
  pub record Refers (v : Value) : Type 0 where
    pub fields : Config
    pub value : v ≡ config fields
    pub key : String
    pub auth : In ("auth", config (("authenticator", text key) ∷ [])) fields
    pub authenticates : IsExtension key
    pub queue : QueueWrapper
    pub sends : In ("sending_queue", queue_value queue) fields
    pub stores : (queue.storage ≡ none) ⊎ ((k : String) × (queue.storage ≡ some k) × IsExtension k)

  -- The entries of the exporters that authenticate.
  abbrev pub authenticating : (String → String) → List (Option Entry)
  authenticating opaque =
      otlp_grpc_entry i.relations o.output
      ∷ otlp_http_entry opaque i.relations o.output
      ∷ elasticsearch_entry i.relations o.output
      ∷ []

  module _ (a : OutputAuth) (t : Tenant) (own : o.output.spec.authentication ≡ some a)
      (h : (a.basic_auth ≢ none) ⊎ (a.bearer_auth ≢ none))
      (found : find_tenant_for_output i.relations (output_name o.output) ≡ ok t)
      (live : i.dry_run_mode ≡ false) where
    -- The reference among the fields.
    written :
        (x : Option Authentication) (k : String)
        → x ≡ referring k
        → In
            ("auth", config (("authenticator", text k) ∷ []))
            (optional authentication_value "auth" x)
    unfolding authentication_value
    written x k e =
        subst
          (λ y.
            In ("auth", config (("authenticator", text k) ∷ []))
              (optional authentication_value "auth" y))
          (sym e) (inl refl)

    fields-Refers :
        (fields : Config) (before : Option Authentication) (settings : Option QueueSettings)
        → ((x : String × Value)
            → In x (optional authentication_value "auth" (with_auth o.output before))
            → In x fields)
        → In
            (
              "sending_queue",
              queue_value (with_storage t (set_default_queue_settings settings empty_queue)),
            )
            fields
        → Refers (config fields)
    fields-Refers fields before settings inside sends =
        let (k, e, ext) = authenticator-IsKey a before own h in
        record {
          fields = fields;
          value = refl;
          key = k;
          auth = inside _ (written (with_auth o.output before) k e);
          authenticates = ext;
          queue = with_storage t (set_default_queue_settings settings empty_queue);
          sends = sends;
          stores = stored-IsKey settings t found live;
        }

    abbrev grpc_fields : OtlpGrpc → Config
    grpc_fields g =
        let w = map_to_otlp_grpc_wrapper g in
        let c = w.grpc_client_config in
        otlp_grpc_wrapper_fields (record w {
          queue_config = with_storage t w.queue_config;
          grpc_client_config = record c { auth = with_auth o.output c.auth };
        })

    abbrev http_fields : (String → String) → OtlpHttp → Config
    http_fields opaque g =
        let w = map_to_otlp_http_wrapper g in
        let c = w.http_client_config in
        otlp_http_wrapper_fields opaque (record w {
          queue_config = with_storage t w.queue_config;
          http_client_config = record c { auth = with_auth o.output c.auth };
        })

    abbrev elasticsearch_fields : Elasticsearch → Config
    elasticsearch_fields g =
        let w = map_to_elasticsearch_wrapper g in
        elasticsearch_wrapper_fields (record w {
          queue_config = with_storage t w.queue_config;
          auth = with_auth o.output w.auth;
        })

    otlp_grpc-Refers : (g : OtlpGrpc) → Refers (otlp_grpc_body o.output g t).1
    unfolding otlp_grpc_body map_to_otlp_grpc_wrapper otlp_grpc_wrapper_fields grpc_client_fields
    otlp_grpc-Refers g =
        let w = map_to_otlp_grpc_wrapper g in
        let c = w.grpc_client_config in
        fields-Refers (grpc_fields g) c.auth g.queue_config
          (λ x at. inr (
            inr (
              In-append_right x (timeout_fields w.timeout_settings) _
                (grpc-In x (record c { auth = with_auth o.output c.auth }) at))))
          (inl refl)

    otlp_http-Refers :
        (opaque : String → String) (g : OtlpHttp) → Refers (otlp_http_body opaque o.output g t).1
    unfolding otlp_http_body map_to_otlp_http_wrapper otlp_http_wrapper_fields http_client_fields
    otlp_http-Refers opaque g =
        let w = map_to_otlp_http_wrapper g in
        let c = w.http_client_config in
        fields-Refers (http_fields opaque g) c.auth g.queue_config
          (λ x at. inr (inr (http-In x opaque (record c { auth = with_auth o.output c.auth }) at)))
          (inl refl)

    elasticsearch-Refers : (g : Elasticsearch) → Refers (elasticsearch_body o.output g t).1
    unfolding elasticsearch_body map_to_elasticsearch_wrapper elasticsearch_wrapper_fields
    elasticsearch-Refers g =
        let w = map_to_elasticsearch_wrapper g in
        fields-Refers (elasticsearch_fields g) none g.queue_config
          (λ x at. In-append_right x (elasticsearch_settings w.elasticsearch) _ (inr (inr at)))
          (In-append_right _ (elasticsearch_settings w.elasticsearch) _ (inl refl))

    -- The entry of an exporter is that of the tenant that is found.
    chosen-Refers :
        {A : Type 0}
        → (settings : Option A) (body : A → Tenant → Entry) (e : Entry)
        → ((x : A) → Refers (body x t).1)
        → each settings (λ x. for_tenant i.relations o.output (body x)) ≡ some e
        → Refers e.1
    unfolding each for_tenant
    chosen-Refers none body e refers made = ground (arith, made)
    chosen-Refers (some x) body e refers made =
        subst (λ y. elim y [ none ↦ Unit | some made ↦ Refers made.1 ])
          (rw (for_tenant, found) at made) (refers x)

    -- In a run that is not dry, if an output names credentials and a tenant is found for it, then
    -- the value of its exporter for OTLP, OTLP over HTTP and Elasticsearch, whatever its settings
    -- say, names an authenticator that is an extension which generateExtensions makes, and its
    -- queue is stored in such an extension or in memory.
    pub references-IsKey :
        (opaque : String → String) (e : Entry) → In (some e) (authenticating opaque) → Refers e.1
    unfolding otlp_grpc_entry otlp_http_entry elasticsearch_entry
    references-IsKey opaque e (inl same) =
        chosen-Refers _ (otlp_grpc_body o.output) e otlp_grpc-Refers (sym same)
    references-IsKey opaque e (inr (inl same)) =
        chosen-Refers _ (otlp_http_body opaque o.output) e (otlp_http-Refers opaque) (sym same)
    references-IsKey opaque e (inr (inr (inl same))) =
        chosen-Refers _ (elasticsearch_body o.output) e elasticsearch-Refers (sym same)
    references-IsKey opaque e (inr (inr (inr h))) = absurd h
