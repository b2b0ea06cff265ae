-- ===== src/Collector/Volumes/Added.antt =====
-- collector_manager.go: which volumes a collector is given, and how they are mounted.
use telemetry_controller.Prelude.{
  ◌≡◌, ◌≢◌, refl, sym, ◌∙◌, subst, inl, inr, String, Bool, true, false, List, [], ◌∷◌, In,
  In-append_left, In-append_right, Bool-cases, string_eq, ◌==◌, ◌⧺◌, false≢true, copy,
  if◌then◌else◌,
}
use text.Mathlib.Text.{starts_with as has_prefix}
use text.Mathlib.TextPositions.{starts_with-append}
use telemetry_controller.Api.{Tenant}
use telemetry_controller.Extensions.{Platform, determine_file_storage_directory}
use telemetry_controller.Collector.Volumes.{
  Volume, VolumeMount, CommonFields, Init, volume_exists, add_volume, mount_of, storage_volume,
  stores_files, tenant_volume, tenant_volumes, append_additional_volumes_for_tenants_file_storage,
  image_ref, default_volume, default_volumes, set_otel_common_fields_defaults,
}
use telemetry_controller.Collector.Volumes.Mounted.{volume_exists-append}
use telemetry_controller.Collector.Volumes.Prepared.{prepared}

-- The volume is there, and mounted at its path.
pub record Has (v : Volume) (read_only : Bool) (f : CommonFields) : Type 0 where
  pub volume : In v f.volumes
  pub mount :
      In (record { name = v.name; read_only = read_only; mount_path = v.path }) f.volume_mounts

-- No volume and no mount is dropped.
record Grows (before after : CommonFields) : Type 0 where
  pub volumes : (v : Volume) → In v before.volumes → In v after.volumes
  pub mounts : (m : VolumeMount) → In m before.volume_mounts → In m after.volume_mounts

same-Grows : (f : CommonFields) → Grows f f
same-Grows f = record { volumes = λ v h. h; mounts = λ m h. h }

grown-Has :
    (v : Volume) (read_only : Bool) (f g : CommonFields)
    → Grows f g
    → Has v read_only f
    → Has v read_only g
grown-Has v read_only f g grows h = record {
  volume = grows.volumes v h.volume;
  mount = grows.mounts _ h.mount;
}

add_volume-Grows : (v : Volume) (m : VolumeMount) (f : CommonFields) → Grows f (add_volume v m f)
unfolding add_volume
add_volume-Grows v m f = record {
  volumes = λ u at. In-append_left u f.volumes (v ∷ []) at;
  mounts = λ n at. In-append_left n f.volume_mounts (m ∷ []) at;
}

add_volume-Has :
    (v : Volume) (read_only : Bool) (f : CommonFields)
    → Has v read_only (add_volume v (mount_of read_only v) f)
unfolding add_volume
add_volume-Has v read_only f = record {
  volume = In-append_right v f.volumes (v ∷ []) (inl refl);
  mount =
      In-append_right (mount_of read_only v) f.volume_mounts (mount_of read_only v ∷ []) (inl refl);
}

-- No volume has that name.
abbrev IsFresh : String → CommonFields → Type 0
IsFresh name f = volume_exists f.volumes name ≡ false

add_volume-IsFresh :
    (name : String) (v : Volume) (m : VolumeMount) (f : CommonFields)
    → v.name ≢ name
    → IsFresh name f
    → IsFresh name (add_volume v m f)
unfolding add_volume
add_volume-IsFresh name v m f other fresh = elim (Bool-cases (v.name == name)) [
  | inl same ↦ absurd (other ((string_eq.beq_iff v.name name).0 same))
  | inr differs ↦ rw (volume_exists-append f.volumes v name, fresh, differs) refl
]

module _ (p : Platform) where
  tenant_volume-IsFresh :
      (name : String) (t : Tenant) (f : CommonFields) (i : Init)
      → "buffervolume-" ⧺ t.name ≢ name
      → IsFresh name f
      → IsFresh name (tenant_volume p t (f, i)).0
  unfolding tenant_volume volume_exists storage_volume add_volume
  tenant_volume-IsFresh name t f i other fresh = elim (Bool-cases (stores_files t)) [
    | inr off ↦ rw off fresh
    | inl on ↦ elim (Bool-cases (volume_exists f.volumes ("buffervolume-" ⧺ t.name))) [
      | inl old ↦ rw (on, old) fresh
      | inr new ↦
          rw (on, new)
            (add_volume-IsFresh name (storage_volume p t) (mount_of false (storage_volume p t)) f
              other fresh)
    ]
  ]

  tenant_volumes-IsFresh :
      (name : String) (ts : List Tenant) (f : CommonFields) (i : Init)
      → ((t : Tenant) → "buffervolume-" ⧺ t.name ≢ name)
      → IsFresh name f
      → IsFresh name (tenant_volumes p ts (f, i)).0
  unfolding tenant_volumes
  tenant_volumes-IsFresh name [] f i other fresh = fresh
  tenant_volumes-IsFresh name (t ∷ ts) f i other fresh =
      tenant_volumes-IsFresh name ts _ _ other (tenant_volume-IsFresh name t f i (other t) fresh)

  -- The volume of a tenant, as it is to be.
  abbrev pub buffer : Tenant → Volume
  buffer t = record {
    name = "buffervolume-" ⧺ t.name;
    path =
        determine_file_storage_directory p
          (let spec = t.spec in let persistence = spec.persistence_config in persistence.directory)
          t.name;
    or_create = true;
  }

default_volume-Has :
    (v : Volume) (f : CommonFields) → IsFresh v.name f → Has v true (default_volume v f)
unfolding default_volume
default_volume-Has v f fresh = rw fresh (add_volume-Has v true f)

default_volume-Grows : (v : Volume) (f : CommonFields) → Grows f (default_volume v f)
unfolding default_volume
default_volume-Grows v f = elim (Bool-cases (volume_exists f.volumes v.name)) [
  | inl old ↦ rw old (same-Grows f)
  | inr new ↦ rw new (add_volume-Grows v _ f)
]

default_volume-IsFresh :
    (name : String) (v : Volume) (f : CommonFields)
    → v.name ≢ name
    → IsFresh name f
    → IsFresh name (default_volume v f)
unfolding default_volume
default_volume-IsFresh name v f other fresh = elim (Bool-cases (volume_exists f.volumes v.name)) [
  | inl old ↦ rw old fresh
  | inr new ↦ rw new (add_volume-IsFresh name v _ f other fresh)
]

-- No tenant's volume has a name that does not start like them.
not_buffer :
    (name x : String) → has_prefix name "buffervolume-" ≡ false → "buffervolume-" ⧺ x ≢ name
not_buffer name x other e = false≢true (
    sym other
    ∙ subst (λ y. has_prefix y "buffervolume-" ≡ true) e (starts_with-append "buffervolume-" x))

abbrev varlog : Volume
varlog = record { name = "varlog"; path = "/var/log"; or_create = false }

abbrev containers : Volume
containers = record {
  name = "varlibdockercontainers";
  path = "/var/lib/docker/containers";
  or_create = false;
}

module _ (p : Platform) (f : CommonFields) (tenants : List Tenant) (args : List (String × String))
    (sa_name : String) where
  -- The fields before the defaults.
  abbrev given : CommonFields
  given = (append_additional_volumes_for_tenants_file_storage p f tenants).0

  abbrev with_fields : CommonFields
  with_fields = record given {
    image = if given.image == "" then image_ref else given.image;
    service_account = sa_name;
    args = copy given.args args;
  }

  given-IsFresh :
      (name : String)
      → has_prefix name "buffervolume-" ≡ false
      → IsFresh name f
      → IsFresh name with_fields
  unfolding append_additional_volumes_for_tenants_file_storage
  given-IsFresh name other fresh =
      tenant_volumes-IsFresh p name tenants f _ (λ t. not_buffer name t.name other) fresh

  -- Whatever the tenants store, the logs of the node are mounted for reading at /var/log and
  -- /var/lib/docker/containers, as volumes of those paths, if the collector asks for no volume named
  -- varlog or varlibdockercontainers itself.
  pub node_volumes_prepared :
      volume_exists f.volumes "varlog" ≡ false
      → volume_exists f.volumes "varlibdockercontainers" ≡ false
      → Has
          (record { name = "varlog"; path = "/var/log"; or_create = false })
          true
          (prepared p f tenants args sa_name)
        × Has
            (record {
              name = "varlibdockercontainers";
              path = "/var/lib/docker/containers";
              or_create = false;
            })
            true
            (prepared p f tenants args sa_name)
  unfolding set_otel_common_fields_defaults default_volumes
  node_volumes_prepared logs docker = (
    grown-Has varlog true (default_volume varlog with_fields) _
        (default_volume-Grows containers (default_volume varlog with_fields))
        (default_volume-Has varlog with_fields (given-IsFresh "varlog" refl logs)),
    default_volume-Has containers (default_volume varlog with_fields) (
        default_volume-IsFresh "varlibdockercontainers" varlog with_fields
          (λ e. false≢true ((string_eq.beq_iff "varlog" "varlibdockercontainers").1 e))
          (given-IsFresh "varlibdockercontainers" refl docker)),
  )
