-- ===== src/Collector/Volumes/Mounted.antt =====
-- collector_manager.go: the volumes of a collector stay apart, and what is mounted is there.
use telemetry_controller.Prelude.{
  ◌≡◌, refl, String, Bool, true, false, ◌||◌, List, [], ◌∷◌, ◌++◌, All, All-append, arith,
  string_eq, ◌==◌,
}
use telemetry_controller.Collector.Volumes.{
  Volume, VolumeMount, CommonFields, volume_exists, add_volume, mount_of,
}

-- No two volumes have the same name.
abbrev pub AreApart : List Volume → Type 0
AreApart [] = Unit
AreApart (v ∷ vs) = (volume_exists vs v.name ≡ false) × AreApart vs

abbrev pub Holds : List Volume → String → Type 0
Holds vs name = volume_exists vs name ≡ true

-- The volumes have different names, and each mount is of one of them.
pub record IsMounted (f : CommonFields) : Type 0 where
  pub apart : AreApart f.volumes
  pub mounts : All (λ m. Holds f.volumes m.name) f.volume_mounts

pub volume_exists-append :
    (vs : List Volume) (v : Volume) (name : String)
    → volume_exists (vs ++ v ∷ []) name ≡ (volume_exists vs name || v.name == name)
unfolding volume_exists
volume_exists-append [] v name = ground arith
volume_exists-append (u ∷ vs) v name = ground (arith, volume_exists-append vs v name)

append_keeps-Holds :
    (vs : List Volume) (v : Volume) (name : String) → Holds vs name → Holds (vs ++ v ∷ []) name
append_keeps-Holds vs v name h = ground (arith, volume_exists-append vs v name)

pub append-Holds : (vs : List Volume) (v : Volume) → Holds (vs ++ v ∷ []) v.name
append-Holds vs v =
    ground (arith, volume_exists-append vs v v.name, string_eq.beq_iff v.name v.name)

append-AreApart :
    (vs : List Volume) (v : Volume)
    → volume_exists vs v.name ≡ false
    → AreApart vs
    → AreApart (vs ++ v ∷ [])
unfolding volume_exists
append-AreApart [] v new h = (refl, tt)
append-AreApart (u ∷ vs) v new h = (
  ground (
    arith,
    volume_exists-append vs v u.name,
    string_eq.beq_iff u.name v.name,
    string_eq.beq_iff v.name u.name,
  ),
  append-AreApart vs v (ground arith) h.1,
)

mounts_kept :
    (vs : List Volume) (v : Volume) (ms : List VolumeMount)
    → All (λ m. Holds vs m.name) ms
    → All (λ m. Holds (vs ++ v ∷ []) m.name) ms
mounts_kept vs v [] h = tt
mounts_kept vs v (m ∷ ms) h = (append_keeps-Holds vs v m.name h.0, mounts_kept vs v ms h.1)

add_volume-IsMounted :
    (v : Volume) (read_only : Bool) (f : CommonFields)
    → volume_exists f.volumes v.name ≡ false
    → IsMounted f
    → IsMounted (add_volume v (mount_of read_only v) f)
unfolding add_volume
add_volume-IsMounted v read_only f new h = record {
  apart = append-AreApart f.volumes v new h.apart;
  mounts =
      All-append (λ m. Holds (f.volumes ++ v ∷ []) m.name) f.volume_mounts
        (mount_of read_only v ∷ []) (mounts_kept f.volumes v f.volume_mounts h.mounts)
        (append-Holds f.volumes v, tt);
}

-- What a step does to the volumes: it keeps them apart and mounted, and drops none.
pub record IsSafe (before after : CommonFields) : Type 0 where
  pub mounted : IsMounted before → IsMounted after
  pub kept : (name : String) → Holds before.volumes name → Holds after.volumes name

pub same-IsSafe : (f : CommonFields) → IsSafe f f
same-IsSafe f = record { mounted = λ h. h; kept = λ name h. h }

pub then-IsSafe : (f g h : CommonFields) → IsSafe f g → IsSafe g h → IsSafe f h
then-IsSafe f g h a b = record {
  mounted = λ m. b.mounted (a.mounted m);
  kept = λ name k. b.kept name (a.kept name k);
}

pub add_volume-IsSafe :
    (v : Volume) (read_only : Bool) (f : CommonFields)
    → volume_exists f.volumes v.name ≡ false
    → IsSafe f (add_volume v (mount_of read_only v) f)
unfolding add_volume
add_volume-IsSafe v read_only f new = record {
  mounted = add_volume-IsMounted v read_only f new;
  kept = λ name h. append_keeps-Holds f.volumes v name h;
}
