-- ===== src/Api.antt =====
-- The resources of api/telemetry/v1alpha1, as the controllers read and write them: names, problems
-- and states, and one child for each kind.
mod Names
mod Otlp
mod Exporters
mod Outputs
mod Subscriptions
mod Tenants
mod Bridges
pub use Names.*
pub use Otlp.*
pub use Exporters.*
pub use Outputs.*
pub use Subscriptions.*
pub use Tenants.*
pub use Bridges.*
