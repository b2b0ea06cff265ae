-- ===== src/Collector/Volumes/Prepared.antt =====
-- collector_manager.go: what the volumes of a collector are once all are added.
use telemetry_controller.Prelude.{
  inl, inr, String, true, false, List, [], ◌∷◌, Bool-cases, string_eq,
}
use telemetry_controller.Api.{Tenant}
use telemetry_controller.Extensions.{Platform}
use telemetry_controller.Collector.Volumes.{
  Volume, CommonFields, Init, volume_exists, add_volume, storage_volume, stores_files,
  tenant_volume, tenant_volumes, append_additional_volumes_for_tenants_file_storage, volume_configs,
  default_volume, default_volumes, set_otel_common_fields_defaults,
}
use telemetry_controller.Collector.Volumes.Mounted.{
  IsMounted, IsSafe, same-IsSafe, then-IsSafe, add_volume-IsSafe,
}

default_volume-IsSafe : (v : Volume) (f : CommonFields) → IsSafe f (default_volume v f)
unfolding default_volume
default_volume-IsSafe v f = elim (Bool-cases (volume_exists f.volumes v.name)) [
  | inl old ↦ rw old (same-IsSafe f)
  | inr new ↦ rw new (add_volume-IsSafe v true f new)
]

default_volumes-IsSafe : (vs : List Volume) (f : CommonFields) → IsSafe f (default_volumes vs f)
unfolding default_volumes
default_volumes-IsSafe [] f = same-IsSafe f
default_volumes-IsSafe (v ∷ vs) f =
    then-IsSafe f (default_volume v f) (default_volumes vs (default_volume v f))
      (default_volume-IsSafe v f) (default_volumes-IsSafe vs (default_volume v f))

tenant_volume-IsSafe :
    (p : Platform) (t : Tenant) (f : CommonFields) (i : Init)
    → IsSafe f (tenant_volume p t (f, i)).0
unfolding tenant_volume volume_exists storage_volume add_volume
tenant_volume-IsSafe p t f i = elim (Bool-cases (stores_files t)) [
  | inl stores ↦ elim (Bool-cases (volume_exists f.volumes (storage_volume p t).name)) [
    | inl old ↦ rw (stores, old) (same-IsSafe f)
    | inr new ↦ rw (stores, new) (add_volume-IsSafe (storage_volume p t) false f new)
  ]
  | inr not_stored ↦ rw not_stored (same-IsSafe f)
]

tenant_volumes-IsSafe :
    (p : Platform) (ts : List Tenant) (st : CommonFields × Init)
    → IsSafe st.0 (tenant_volumes p ts st).0
unfolding tenant_volumes
tenant_volumes-IsSafe p [] st = same-IsSafe st.0
tenant_volumes-IsSafe p (t ∷ ts) (f, i) =
    then-IsSafe f (tenant_volume p t (f, i)).0 (tenant_volumes p ts (tenant_volume p t (f, i))).0
      (tenant_volume-IsSafe p t f i) (tenant_volumes-IsSafe p ts (tenant_volume p t (f, i)))

module _ (p : Platform) (f : CommonFields) (tenants : List Tenant) (args : List (String × String))
    (sa_name : String) where
  -- The common fields of a collector: the volumes of its tenants, then the defaults.
  abbrev pub prepared : CommonFields
  prepared =
      set_otel_common_fields_defaults
        (append_additional_volumes_for_tenants_file_storage p f tenants).0 args sa_name

  prepared-IsSafe :
      IsSafe (append_additional_volumes_for_tenants_file_storage p f tenants).0 prepared
  unfolding set_otel_common_fields_defaults
  prepared-IsSafe =
      let g = (append_additional_volumes_for_tenants_file_storage p f tenants).0 in
      let safe = default_volumes-IsSafe volume_configs _ in
      record {
        mounted = λ h. safe.mounted (record { apart = h.apart; mounts = h.mounts });
        kept = λ name h. safe.kept name h;
      }

  -- If the volumes that a collector asks for have different names and each of its mounts is of one
  -- of them, then so it is after the volumes of its tenants and those of the defaults are added.
  pub prepared-IsMounted : IsMounted f → IsMounted prepared
  unfolding append_additional_volumes_for_tenants_file_storage
  prepared-IsMounted h =
      prepared-IsSafe.mounted ((tenant_volumes-IsSafe p tenants (f, _)).mounted h)
