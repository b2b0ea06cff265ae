-- ===== src/Collector/Volumes/Tests.antt =====
-- The volumes of a collector with two tenants.
use telemetry_controller.Prelude.{◌≡◌, refl, true, false, [], ◌∷◌, map}
use telemetry_controller.Api.{Tenant}
use telemetry_controller.Extensions.{Platform}
use telemetry_controller.Sample.{acme}
use telemetry_controller.Collector.Volumes.{
  CommonFields, volume_exists, add_volume, storage_volume, tenant_volumes, tenant_volume,
  append_additional_volumes_for_tenants_file_storage, default_volumes, default_volume,
  set_otel_common_fields_defaults,
}
use telemetry_controller.Collector.Volumes.Mounted.{IsMounted}
use telemetry_controller.Collector.Volumes.Prepared.{prepared, prepared-IsMounted}
use telemetry_controller.Collector.Volumes.Added.{Has, node_volumes_prepared}

-- A tenant that stores files, on Linux, and fields with a volume of the collector's own.
abbrev keeper : Tenant
keeper = record acme {
  spec = record acme.spec {
    persistence_config = record { enable_file_storage = true; directory = "" };
  };
}

abbrev linux : Platform
linux = record { goos = "linux"; windows_directory = "" }

abbrev fields : CommonFields
fields = record {
  image = "";
  service_account = "";
  args = [];
  volumes = record { name = "varlog"; path = "/logs"; or_create = false } ∷ [];
  volume_mounts = record { name = "varlog"; read_only = true; mount_path = "/logs" } ∷ [];
}

fields-IsMounted : IsMounted fields
unfolding volume_exists
fields-IsMounted = record { apart = (refl, tt); mounts = (refl, tt) }

prepared-IsMounted_example :
    IsMounted (prepared linux fields (acme ∷ keeper ∷ keeper ∷ []) (("a", "b") ∷ []) "agent-sa")
prepared-IsMounted_example =
    prepared-IsMounted linux fields (acme ∷ keeper ∷ keeper ∷ []) (("a", "b") ∷ []) "agent-sa"
      fields-IsMounted

-- Fields without volumes.
abbrev unmounted : CommonFields
unmounted = record fields { volumes = []; volume_mounts = [] }

node_volumes_prepared_example :
    Has
      (record { name = "varlog"; path = "/var/log"; or_create = false })
      true
      (prepared linux unmounted (keeper ∷ []) [] "agent-sa")
    × Has
        (record {
          name = "varlibdockercontainers";
          path = "/var/lib/docker/containers";
          or_create = false;
        })
        true
        (prepared linux unmounted (keeper ∷ []) [] "agent-sa")
unfolding volume_exists
node_volumes_prepared_example =
    node_volumes_prepared linux unmounted (keeper ∷ []) [] "agent-sa" refl refl

volumes_test :
    map
      (λ v. v.name)
      (prepared linux fields (acme ∷ keeper ∷ keeper ∷ []) (("a", "b") ∷ []) "agent-sa").volumes
    ≡ "varlog" ∷ "buffervolume-acme" ∷ "varlibdockercontainers" ∷ []
unfolding volume_exists add_volume storage_volume tenant_volumes tenant_volume
    append_additional_volumes_for_tenants_file_storage default_volumes default_volume
    set_otel_common_fields_defaults
volumes_test = refl
