-- ===== src/Properties/Builders.antt =====
-- pkg/tnsapi/properties.go: the property maps of new volumes and snapshots (schema 1), and
-- GetSchemaVersion.
pub mod Laws
use tns_csi.Common.{
  Str, str, str_eq, is_empty, Map, lookup, insert, ℤ, Bool, true, false, not, ◌&&◌, Option, none,
  some, List, [], ◌∷◌, all, if◌then◌else◌,
}
use tns_csi.Properties.{
  int_to_string, property_schema_version, schema_version_v1, property_managed_by, managed_by_value,
  property_csi_volume_name, property_capacity_bytes, property_protocol, property_created_at,
  property_delete_strategy, property_nfs_share_id, property_nfs_share_path,
  property_nvme_subsystem_id, property_nvme_namespace_id, property_nvme_subsystem_nqn,
  property_iscsi_target_id, property_iscsi_extent_id, property_iscsi_iqn, property_smb_share_id,
  property_smb_share_name, property_pvc_name, property_pvc_namespace, property_storage_class,
  property_adoptable, property_value_true, property_cluster_id, property_snapshot_id,
  property_source_volume_id, property_detached_snapshot, property_source_dataset,
  delete_strategy_delete, protocol_nfs, protocol_nvmeof, protocol_iscsi, protocol_smb,
}

-- The fields that NFSVolumeParams, NVMeOFVolumeParams, ISCSIVolumeParams and SMBVolumeParams share.
pub record VolumeParams : Type 0 where
  pub volume_id : Str
  pub created_at : Str
  pub delete_strategy : Str
  pub pvc_name : Str
  pub pvc_namespace : Str
  pub storage_class : Str
  pub cluster_id : Str
  pub capacity_bytes : ℤ
  pub adoptable : Bool

abbrev insert_if : Bool → Str → Str → Map Str → Map Str
insert_if b k v m = if b then insert k v m else m

abbrev insert_text : Str → Str → Map Str → Map Str
insert_text k v m = insert_if (not (is_empty v)) k v m

-- "Add adoption properties if provided"
unfoldable pub with_adoption : VolumeParams → Map Str → Map Str
with_adoption p m = insert_text property_cluster_id p.cluster_id (
    insert_if p.adoptable property_adoptable property_value_true (
      insert_text property_storage_class p.storage_class (
        insert_text property_pvc_namespace p.pvc_namespace
          (insert_text property_pvc_name p.pvc_name m))))

abbrev pub adoption_keys : List Str
adoption_keys =
    property_cluster_id ∷ property_adoptable ∷ property_storage_class ∷ property_pvc_namespace
    ∷ property_pvc_name ∷ []

-- The properties that every protocol records, before its own ones.
abbrev pub recorded : VolumeParams → Str → Map Str → Map Str
recorded p protocol own =
    (property_schema_version, schema_version_v1)
    ∷ (property_managed_by, managed_by_value)
    ∷ (property_csi_volume_name, p.volume_id)
    ∷ (property_capacity_bytes, int_to_string p.capacity_bytes)
    ∷ (property_protocol, protocol)
    ∷ (property_created_at, p.created_at)
    ∷ (property_delete_strategy, p.delete_strategy)
    ∷ own

-- The properties that the creation of a dataset or a ZVOL carries itself. UserPropertyList gives the
-- same pairs as a list that is sorted by the key.
unfoldable pub ownership_properties_v1 : Str → Str → Str → Str → ℤ → Map Str
ownership_properties_v1 volume_id protocol delete_strategy cluster_id capacity_bytes =
    insert_text property_cluster_id cluster_id (
      (property_schema_version, schema_version_v1)
      ∷ (property_managed_by, managed_by_value)
      ∷ (property_csi_volume_name, volume_id)
      ∷ (property_protocol, protocol)
      ∷ (property_delete_strategy, delete_strategy)
      ∷ (property_capacity_bytes, int_to_string capacity_bytes)
      ∷ [])

unfoldable pub nfs_volume_properties_v1 : VolumeParams → ℤ → Str → Map Str
nfs_volume_properties_v1 p share_id share_path = with_adoption p (
    recorded p protocol_nfs (
      (property_nfs_share_id, int_to_string share_id) ∷ (property_nfs_share_path, share_path) ∷ []))

unfoldable pub nvmeof_volume_properties_v1 : VolumeParams → ℤ → ℤ → Str → Map Str
nvmeof_volume_properties_v1 p subsystem_id namespace_id nqn = with_adoption p (
    recorded p protocol_nvmeof (
      (property_nvme_subsystem_id, int_to_string subsystem_id)
      ∷ (property_nvme_namespace_id, int_to_string namespace_id)
      ∷ (property_nvme_subsystem_nqn, nqn)
      ∷ []))

unfoldable pub iscsi_volume_properties_v1 : VolumeParams → ℤ → ℤ → Str → Map Str
iscsi_volume_properties_v1 p target_id extent_id iqn = with_adoption p (
    recorded p protocol_iscsi (
      (property_iscsi_target_id, int_to_string target_id)
      ∷ (property_iscsi_extent_id, int_to_string extent_id)
      ∷ (property_iscsi_iqn, iqn)
      ∷ []))

unfoldable pub smb_volume_properties_v1 : VolumeParams → ℤ → Str → Map Str
smb_volume_properties_v1 p share_id share_name = with_adoption p (
    recorded p protocol_smb (
      (property_smb_share_id, int_to_string share_id) ∷ (property_smb_share_name, share_name) ∷ []))

pub record SnapshotParams : Type 0 where
  pub snapshot_id : Str
  pub source_volume_id : Str
  pub protocol : Str
  pub source_dataset : Str
  pub cluster_id : Str
  pub detached : Bool

unfoldable pub snapshot_properties_v1 : SnapshotParams → Map Str
snapshot_properties_v1 p = insert_text property_cluster_id p.cluster_id (
    insert_text property_source_dataset p.source_dataset (
      (property_schema_version, schema_version_v1)
      ∷ (property_managed_by, managed_by_value)
      ∷ (property_snapshot_id, p.snapshot_id)
      ∷ (property_source_volume_id, p.source_volume_id)
      ∷ (property_protocol, p.protocol)
      ∷ (property_detached_snapshot, if p.detached then str "true" else str "false")
      ∷ (property_delete_strategy, delete_strategy_delete)
      ∷ []))

abbrev version_or_zero : Option Str → Str
version_or_zero none = str "0"
version_or_zero (some []) = str "0"
version_or_zero (some (c ∷ s)) = c ∷ s

unfoldable pub get_schema_version : Map Str → Str
get_schema_version props = version_or_zero (lookup property_schema_version props)

unfoldable pub is_schema_v1 : Map Str → Bool
is_schema_v1 props = str_eq (get_schema_version props) schema_version_v1
