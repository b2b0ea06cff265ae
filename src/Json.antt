-- ===== src/Json.antt =====
-- The json tags of api/telemetry/v1alpha1: how encoding/json marshals the settings of exporters. A
-- header of HTTP is a configopaque.String, whose MarshalText is `opaque`.
pub mod Otlp
pub mod Exporters
