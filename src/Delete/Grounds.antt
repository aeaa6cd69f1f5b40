-- ===== src/Delete/Grounds.antt =====
-- What must have been read from the server before a call of a deletion may be made: the grounds
-- that volume_delete.go asks for, written without its functions.
use tns_csi.Common.{
  Str, str, str_eq, is_empty, has_suffix, trim_prefix, path_base, contains, Map, lookup, get, ℤ,
  is_positive, int_eq, Bool, true, false, not, ◌&&◌, ◌||◌, Option, none, some, List, ◌++◌, any,
  Result, ok, err, ◌≡◌, ◌≢◌, ◌⊎◌, if◌then◌else◌,
}
use tns_csi.Errors.{Err, is_not_found}
use tns_csi.Properties.{
  property_managed_by, managed_by_value, property_csi_volume_name, property_delete_strategy,
  delete_strategy_retain,
}
use tns_csi.Backend.{
  IscsiTarget, IscsiExtent, NvmeofNamespace, NvmeofSubsystem, Snapshot, Call, Event, did,
  get_dataset_properties, query_snapshots_with_properties, query_iscsi_targets, query_iscsi_extents,
  query_nvmeof_namespace_by_id, query_nvmeof_subsystems, delete_dataset, set_dataset_properties,
  promote_dataset, delete_snapshot, delete_iscsi_target_extent, delete_iscsi_target,
  delete_iscsi_extent, delete_nfs_share, delete_smb_share, remove_subsystem_from_port,
  delete_nvmeof_namespace, delete_nvmeof_subsystem,
}
use tns_csi.Backend.Guarded.{Happened}
use tns_csi.Volume.{VolumeMetadata}
use tns_csi.Delete.Datasets.{is_csi_snapshot, is_deferred, has_clones}
use tns_csi.Delete.Ownership.{ownership_names, get_device}

-- What identifies a volume and its objects; IDs that the server stores are no part of it.
-- `gone_suffices`: the handler goes on where the server says that the dataset is not there.
pub record Volume : Type 0 where
  pub gone_suffices : Bool
  pub name : Str
  pub dataset_id : Str
  pub iqn : Str
  pub nqn : Str

abbrev pub volume_of : Bool → VolumeMetadata → Volume
volume_of gone meta = record {
  gone_suffices = gone;
  name = meta.name;
  dataset_id = meta.dataset_id;
  iqn = meta.iscsi_iqn;
  nqn = meta.nvmeof_nqn;
}

-- The stored volume name, if there is one, is the volume ID, or the last part of its path.
abbrev pub SameVolume : Str → Option Str → Type 0
SameVolume name none = Unit
SameVolume name (some stored) =
    (stored ≡ name)
    ⊎ ((contains name (str "/") ≡ true) × (has_suffix name (str "/" ++ stored) ≡ true))

abbrev pub OwnManager : Option Str → Type 0
OwnManager none = Unit
OwnManager (some m) = m ≡ managed_by_value

-- The properties name no other manager than this driver, no other volume than this one, and do not
-- ask to keep it; a property that is not there names none. That the dataset is gone is enough only
-- where the handler goes on without it.
abbrev pub MayDelete : Bool → Str → Result Err (Map Str) → Type 0
MayDelete gone name (err e) = (gone ≡ true) × (is_not_found (some e) ≡ true)
MayDelete gone name (ok props) =
    OwnManager (lookup property_managed_by props)
    × SameVolume name (lookup property_csi_volume_name props)
    × (get property_delete_strategy props ≢ delete_strategy_retain)

abbrev pub Owned : Bool → Str → Str → List Event → Type 0
Owned gone name dataset_id log =
    (extra : List Str) × (r : Result Err (Map Str)) × Happened
      (did (get_dataset_properties dataset_id (ownership_names extra)) r) log
    × MayDelete gone name r

-- No snapshot that CreateSnapshot made is on the dataset, but for those already marked for
-- deferred destruction.
abbrev pub Unblocked : Str → List Event → Type 0
Unblocked dataset_id log =
    (snaps : List Snapshot) × Happened (did (query_snapshots_with_properties dataset_id) (ok snaps))
      log
    × (any (λ s. is_csi_snapshot s && not (is_deferred s)) snaps ≡ false)

abbrev pub matches_target : Volume → ℤ → IscsiTarget → Bool
matches_target vol id t =
    int_eq t.id id
    && (str_eq t.name (path_base vol.name)
        || (not (is_empty vol.iqn) && has_suffix vol.iqn (str ":" ++ t.name)))

abbrev pub matches_extent : Volume → ℤ → IscsiExtent → Bool
matches_extent vol id e = int_eq e.id id && str_eq e.disk (str "zvol/" ++ vol.dataset_id)

abbrev pub matches_namespace : Volume → NvmeofNamespace → Bool
matches_namespace vol ns =
    str_eq (trim_prefix (get_device ns) (str "/dev/")) (str "zvol/" ++ vol.dataset_id)

-- By its NQN where the volume has one, else by its name.
abbrev pub matches_subsystem : Volume → ℤ → NvmeofSubsystem → Bool
matches_subsystem vol id sub =
    int_eq sub.id id
    && (if is_empty vol.nqn
        then has_suffix sub.name (str ":" ++ path_base vol.name)
        else (str_eq sub.nqn vol.nqn || str_eq sub.name vol.nqn))

-- The server has shown the object with this ID as one of the volume.
abbrev pub TargetSeen : Volume → ℤ → List Event → Type 0
TargetSeen vol id log =
    (ts : List IscsiTarget) × Happened (did (query_iscsi_targets id) (ok ts)) log
    × (any (matches_target vol id) ts ≡ true)

abbrev pub ExtentSeen : Volume → ℤ → List Event → Type 0
ExtentSeen vol id log =
    (es : List IscsiExtent) × Happened (did (query_iscsi_extents id) (ok es)) log
    × (any (matches_extent vol id) es ≡ true)

abbrev pub NamespaceSeen : Volume → ℤ → List Event → Type 0
NamespaceSeen vol id log =
    (ns : NvmeofNamespace) × Happened (did (query_nvmeof_namespace_by_id id) (ok (some ns))) log
    × (matches_namespace vol ns ≡ true)

abbrev pub SubsystemSeen : Volume → ℤ → List Event → Type 0
SubsystemSeen vol id log =
    (subs : List NvmeofSubsystem) × Happened (did (query_nvmeof_subsystems id) (ok subs)) log
    × (any (matches_subsystem vol id) subs ≡ true)

-- A snapshot that is no CSI snapshot and has no clones.
abbrev pub disposable : Str → Snapshot → Bool
disposable id snap = str_eq snap.id id && (not (is_csi_snapshot snap) && not (has_clones snap))

abbrev pub SnapshotSeen : Volume → Str → List Event → Type 0
SnapshotSeen vol id log =
    (snaps : List Snapshot) × Happened
      (did (query_snapshots_with_properties vol.dataset_id) (ok snaps)) log
    × (any (disposable id) snaps ≡ true)

abbrev pub Cleared : Volume → List Event → Type 0
Cleared vol log = Owned vol.gone_suffices vol.name vol.dataset_id log × Unblocked vol.dataset_id log

-- What each call of the deletion of the volume needs; a call that only reads needs nothing.
abbrev pub Needs : Volume → Call → List Event → Type 0
Needs vol (delete_dataset id) log = (id ≡ vol.dataset_id) × Cleared vol log
Needs vol (set_dataset_properties id props) log =
    (id ≡ vol.dataset_id) × Owned vol.gone_suffices vol.name vol.dataset_id log
Needs vol (promote_dataset id) log = Cleared vol log
Needs vol (delete_snapshot id) log = Cleared vol log × SnapshotSeen vol id log
Needs vol (delete_nfs_share id) log =
    (is_positive id ≡ true) × Owned vol.gone_suffices vol.name vol.dataset_id log
Needs vol (delete_smb_share id) log =
    (is_positive id ≡ true) × Owned vol.gone_suffices vol.name vol.dataset_id log
Needs vol (delete_iscsi_target_extent id) log =
    Cleared vol log × ((target : ℤ) × TargetSeen vol target log)
Needs vol (delete_iscsi_target id) log = Cleared vol log × TargetSeen vol id log
Needs vol (delete_iscsi_extent id) log = Cleared vol log × ExtentSeen vol id log
Needs vol (remove_subsystem_from_port id) log =
    Cleared vol log × ((subsystem : ℤ) × SubsystemSeen vol subsystem log)
Needs vol (delete_nvmeof_namespace id) log = Cleared vol log × NamespaceSeen vol id log
Needs vol (delete_nvmeof_subsystem id) log = Cleared vol log × SubsystemSeen vol id log
Needs vol c log = Unit
