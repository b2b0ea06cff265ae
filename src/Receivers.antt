-- ===== src/Receivers.antt =====
-- pkg/resources/otel_conf_gen/pipeline/components/receiver: the receivers of a tenant.
pub mod Includes
mod Tests
use telemetry_controller.Prelude.{
  ℕ, String, Bool, true, false, not, ◌&&◌, Option, none, some, List, [], ◌∷◌, ◌++◌, map, keep,
  string_eq, ◌==◌, ◌⧺◌, if◌then◌else◌,
}
use telemetry_controller.Api.{Tenant}
use telemetry_controller.Values.{Value, text, number, flag, Config, config, list, texts}

-- createIncludeList
unfoldable pub create_include_list : List String → Bool → List String
create_include_list namespaces include_all =
    if include_all
    then "/var/log/pods/*/*/*.log" ∷ []
    else map (λ ns. "/var/log/pods/" ⧺ ns ⧺ "_*/*/*.log") (keep (λ ns. not (ns == "")) namespaces)

-- The timestamp of both parsers.
timestamp : Value
timestamp =
    config (("parse_from", text "attributes.time") ∷ ("layout", text "%Y-%m-%dT%H:%M:%S.%LZ") ∷ [])

move : String → String → Value
move source target =
    config (("type", text "move") ∷ ("from", text source) ∷ ("to", text target) ∷ [])

route : String → String → Value
route target expr = config (("output", text target) ∷ ("expr", text expr) ∷ [])

operators : List Value
operators =
    config (
      ("type", text "router")
      ∷ ("id", text "get-format")
      ∷ (
        "routes",
        list (
            route "parser-docker" "body matches \"^\\\\{\""
            ∷ route "parser-containerd" "body matches \"^[^ Z]+Z\""
            ∷ []),
      )
      ∷ [])
    ∷ config (
        ("type", text "regex_parser")
        ∷ ("id", text "parser-containerd")
        ∷ (
          "regex",
          text "^(?P<time>[^ ^Z]+Z) (?P<stream>stdout|stderr) (?P<logtag>[^ ]*) ?(?P<log>.*)$",
        )
        ∷ ("output", text "extract_metadata_from_filepath")
        ∷ ("timestamp", timestamp)
        ∷ [])
    ∷ config (
        ("type", text "json_parser")
        ∷ ("id", text "parser-docker")
        ∷ ("output", text "extract_metadata_from_filepath")
        ∷ ("timestamp", timestamp)
        ∷ [])
    ∷ config (
        ("type", text "regex_parser")
        ∷ ("id", text "extract_metadata_from_filepath")
        ∷ (
          "regex",
          text
              "^.*\\/(?P<namespace>[^_]+)_(?P<pod_name>[^_]+)_(?P<uid>[a-f0-9-]+)\\/(?P<container_name>[^\\/]+)\\/(?P<restart_count>\\d+)\\.log$",
        )
        ∷ ("parse_from", text "attributes[\"log.file.path\"]")
        ∷ ("cache", config (("size", number 128) ∷ []))
        ∷ [])
    ∷ move "attributes.log" "body"
    ∷ move "attributes.stream" "attributes[\"log.iostream\"]"
    ∷ move "attributes.container_name" "resource[\"k8s.container.name\"]"
    ∷ move "attributes.namespace" "resource[\"k8s.namespace.name\"]"
    ∷ move "attributes.pod_name" "resource[\"k8s.pod.name\"]"
    ∷ move "attributes.restart_count" "resource[\"k8s.container.restart_count\"]"
    ∷ move "attributes.uid" "resource[\"k8s.pod.uid\"]"
    ∷ []

-- The storage of a tenant whose files are persisted.
storage_of : Bool → Tenant → Config
storage_of dry_run_mode t =
    if not dry_run_mode && t.spec.persistence_config.enable_file_storage
    then ("storage", text ("file_storage/" ⧺ t.name)) ∷ []
    else []

unfoldable pub generate_default_kubernetes_receiver : List String → Bool → Tenant → Config
unfolding create_include_list operators move route timestamp storage_of
generate_default_kubernetes_receiver namespaces dry_run_mode t =
    (("include", texts (create_include_list namespaces t.spec.select_from_all_namespaces))
      ∷ ("exclude", texts ("/var/log/pods/*/otc-container/*.log" ∷ []))
      ∷ ("start_at", text "end")
      ∷ ("include_file_path", flag true)
      ∷ ("include_file_name", flag false)
      ∷ ("operators", list operators)
      ∷ ("retry_on_failure", config (("enabled", flag true) ∷ ("max_elapsed_time", text "0s") ∷ []))
      ∷ [])
    ++ storage_of dry_run_mode t

-- v1alpha1.EventsToLogs. Its two rates are signed, and only handed on.
pub record EventsToLogs : Type 0 where
  pub kube_api_qps : Option Value
  pub kube_api_burst : Option Value
  pub dedup_interval : Option String

optional : String → Option Value → Config
optional key none = []
optional key (some v) = (key, v) ∷ []

optional_text : String → Option String → Config
optional_text key none = []
optional_text key (some s) = (key, text s) ∷ []

-- The namespaces are left out when all are selected, or none is known.
event_namespaces : Bool → List String → Config
event_namespaces all [] = []
event_namespaces all (ns ∷ rest) = if all then [] else ("namespaces", texts (ns ∷ rest)) ∷ []

unfoldable pub generate_kubernetes_events_receiver :
    List String → Bool → Tenant → EventsToLogs → Config
unfolding event_namespaces optional optional_text storage_of
generate_kubernetes_events_receiver namespaces dry_run_mode t e =
    event_namespaces t.spec.select_from_all_namespaces namespaces
    ++ optional "kube_api_qps" e.kube_api_qps
    ++ optional "kube_api_burst" e.kube_api_burst
    ++ optional_text "dedup_interval" e.dedup_interval
    ++ storage_of dry_run_mode t
