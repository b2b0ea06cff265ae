-- ===== src/Collector/Volumes.antt =====
-- collector_manager.go: the volumes of a collector that hold the files of its tenants and the logs
-- of its node, and the defaults of its common fields.
pub mod Mounted
pub mod Prepared
pub mod Added
mod Tests
use telemetry_controller.Prelude.{
  String, Bool, true, false, not, List, [], ◌∷◌, ◌++◌, copy, string_eq, ◌==◌, ◌⧺◌, if◌then◌else◌,
}
use telemetry_controller.Api.{Tenant}
use telemetry_controller.Extensions.{Platform, determine_file_storage_directory}

-- corev1.Volume of a path of the node, created where it is missing if `or_create` is set.
pub record Volume : Type 0 where
  pub name : String
  pub path : String
  pub or_create : Bool

pub record VolumeMount : Type 0 where
  pub name : String
  pub read_only : Bool
  pub mount_path : String

-- What is set here of otelv1beta1.OpenTelemetryCommonFields.
pub record CommonFields : Type 0 where
  pub image : String
  pub service_account : String
  pub args : List (String × String)
  pub volumes : List Volume
  pub volume_mounts : List VolumeMount

-- What the container is to do that sets the permissions.
pub record Init : Type 0 where
  pub volume_mounts : List VolumeMount
  pub chmod_commands : List String

-- volumeExists
unfoldable pub volume_exists : List Volume → String → Bool
volume_exists [] name = false
volume_exists (v ∷ vs) name =
    let later = volume_exists vs name in if v.name == name then true else later

unfoldable pub add_volume : Volume → VolumeMount → CommonFields → CommonFields
add_volume v m f = record f {
  volumes = f.volumes ++ v ∷ [];
  volume_mounts = f.volume_mounts ++ m ∷ [];
}

unfoldable pub storage_volume : Platform → Tenant → Volume
storage_volume p t = record {
  name = "buffervolume-" ⧺ t.name;
  path =
      determine_file_storage_directory p
        (let spec = t.spec in let persistence = spec.persistence_config in persistence.directory)
        t.name;
  or_create = true;
}

abbrev mount_of : Bool → Volume → VolumeMount
mount_of read_only v = record { name = v.name; read_only = read_only; mount_path = v.path }

abbrev pub stores_files : Tenant → Bool
stores_files t =
    let spec = t.spec in
    let persistence = spec.persistence_config in persistence.enable_file_storage

-- A round of the loop over the tenants.
unfoldable pub tenant_volume : Platform → Tenant → CommonFields × Init → CommonFields × Init
tenant_volume p t (f, init) =
    let v = storage_volume p t in
    if not (stores_files t)
    then (f, init)
    else (if volume_exists f.volumes v.name then (f, init) else (
      add_volume v (mount_of false v) f,
      record {
        volume_mounts = init.volume_mounts ++ mount_of false v ∷ [];
        chmod_commands = init.chmod_commands ++ ("chmod -R 777 " ⧺ v.path) ∷ [];
      },
    ))

unfoldable pub tenant_volumes : Platform → List Tenant → CommonFields × Init → CommonFields × Init
tenant_volumes p [] st = st
tenant_volumes p (t ∷ ts) st = tenant_volumes p ts (tenant_volume p t st)

-- appendAdditionalVolumesForTenantsFileStorage
unfoldable pub append_additional_volumes_for_tenants_file_storage :
    Platform → CommonFields → List Tenant → CommonFields × Init
append_additional_volumes_for_tenants_file_storage p f tenants =
    tenant_volumes p tenants (f, record { volume_mounts = []; chmod_commands = [] })

abbrev volume_configs : List Volume
volume_configs =
    record { name = "varlog"; path = "/var/log"; or_create = false }
    ∷ record {
      name = "varlibdockercontainers";
      path = "/var/lib/docker/containers";
      or_create = false;
    }
    ∷ []

-- A round of the loop over the default volumes.
unfoldable pub default_volume : Volume → CommonFields → CommonFields
default_volume v f =
    if not (volume_exists f.volumes v.name) then add_volume v (mount_of true v) f else f

unfoldable pub default_volumes : List Volume → CommonFields → CommonFields
default_volumes [] f = f
default_volumes (v ∷ vs) f = default_volumes vs (default_volume v f)

abbrev image_ref : String
image_ref = "ghcr.io/axoflow/axoflow-otel-collector/axoflow-otel-collector:0.156.0-axoflow.5"

-- setOtelCommonFieldsDefaults, whose caller gives a pointer that is not nil.
unfoldable pub set_otel_common_fields_defaults :
    CommonFields → List (String × String) → String → CommonFields
set_otel_common_fields_defaults f additional_args sa_name =
    default_volumes volume_configs (record f {
      image = if f.image == "" then image_ref else f.image;
      service_account = sa_name;
      args = copy f.args additional_args;
    })
