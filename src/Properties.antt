-- ===== src/Properties.antt =====
-- pkg/tnsapi/properties.go: the ZFS user properties in which the driver keeps what it knows of a
-- volume. Property maps are association lists.
pub mod RoundTrip
pub mod Builders
use tns_csi.Common.{Str, str, ℤ, pos, atoi, itoa, some, none}

abbrev pub property_schema_version : Str
property_schema_version = str "tns-csi:schema_version"

abbrev pub schema_version_v1 : Str
schema_version_v1 = str "1"

abbrev pub property_prefix : Str
property_prefix = str "tns-csi:"

abbrev pub property_managed_by : Str
property_managed_by = str "tns-csi:managed_by"

abbrev pub property_csi_volume_name : Str
property_csi_volume_name = str "tns-csi:csi_volume_name"

abbrev pub property_capacity_bytes : Str
property_capacity_bytes = str "tns-csi:capacity_bytes"

abbrev pub property_protocol : Str
property_protocol = str "tns-csi:protocol"

abbrev pub property_delete_strategy : Str
property_delete_strategy = str "tns-csi:delete_strategy"

abbrev pub property_created_at : Str
property_created_at = str "tns-csi:created_at"

abbrev pub property_adoptable : Str
property_adoptable = str "tns-csi:adoptable"

abbrev pub property_pvc_name : Str
property_pvc_name = str "tns-csi:pvc_name"

abbrev pub property_pvc_namespace : Str
property_pvc_namespace = str "tns-csi:pvc_namespace"

abbrev pub property_storage_class : Str
property_storage_class = str "tns-csi:storage_class"

abbrev pub property_nfs_share_id : Str
property_nfs_share_id = str "tns-csi:nfs_share_id"

abbrev pub property_nfs_share_path : Str
property_nfs_share_path = str "tns-csi:nfs_share_path"

abbrev pub property_nvme_subsystem_id : Str
property_nvme_subsystem_id = str "tns-csi:nvmeof_subsystem_id"

abbrev pub property_nvme_namespace_id : Str
property_nvme_namespace_id = str "tns-csi:nvmeof_namespace_id"

abbrev pub property_nvme_subsystem_nqn : Str
property_nvme_subsystem_nqn = str "tns-csi:nvmeof_subsystem_nqn"

abbrev pub property_iscsi_iqn : Str
property_iscsi_iqn = str "tns-csi:iscsi_iqn"

abbrev pub property_iscsi_target_id : Str
property_iscsi_target_id = str "tns-csi:iscsi_target_id"

abbrev pub property_iscsi_extent_id : Str
property_iscsi_extent_id = str "tns-csi:iscsi_extent_id"

abbrev pub property_cluster_id : Str
property_cluster_id = str "tns-csi:cluster_id"

abbrev pub property_smb_share_id : Str
property_smb_share_id = str "tns-csi:smb_share_id"

abbrev pub property_smb_share_name : Str
property_smb_share_name = str "tns-csi:smb_share_name"

abbrev pub property_snapshot_id : Str
property_snapshot_id = str "tns-csi:snapshot_id"

abbrev pub property_source_volume_id : Str
property_source_volume_id = str "tns-csi:source_volume_id"

abbrev pub property_detached_snapshot : Str
property_detached_snapshot = str "tns-csi:detached_snapshot"

abbrev pub property_source_dataset : Str
property_source_dataset = str "tns-csi:source_dataset"

abbrev pub property_snapshot_source_volume : Str
property_snapshot_source_volume = str "tns-csi:snapshot_source_volume"

abbrev pub property_snapshot_csi_name : Str
property_snapshot_csi_name = str "tns-csi:snapshot_csi_name"

abbrev pub property_content_source_type : Str
property_content_source_type = str "tns-csi:content_source_type"

abbrev pub property_content_source_id : Str
property_content_source_id = str "tns-csi:content_source_id"

abbrev pub property_clone_mode : Str
property_clone_mode = str "tns-csi:clone_mode"

abbrev pub property_origin_snapshot : Str
property_origin_snapshot = str "tns-csi:origin_snapshot"

abbrev pub clone_mode_cow : Str
clone_mode_cow = str "cow"

abbrev pub clone_mode_promoted : Str
clone_mode_promoted = str "promoted"

abbrev pub clone_mode_detached : Str
clone_mode_detached = str "detached"

abbrev pub property_provisioned_at : Str
property_provisioned_at = str "tns-csi:provisioned_at"

abbrev pub managed_by_value : Str
managed_by_value = str "tns-csi"

abbrev pub protocol_nfs : Str
protocol_nfs = str "nfs"

abbrev pub protocol_nvmeof : Str
protocol_nvmeof = str "nvmeof"

abbrev pub protocol_iscsi : Str
protocol_iscsi = str "iscsi"

abbrev pub protocol_smb : Str
protocol_smb = str "smb"

abbrev pub content_source_snapshot : Str
content_source_snapshot = str "snapshot"

abbrev pub content_source_volume : Str
content_source_volume = str "volume"

abbrev pub delete_strategy_delete : Str
delete_strategy_delete = str "delete"

abbrev pub delete_strategy_retain : Str
delete_strategy_retain = str "retain"

abbrev pub property_value_true : Str
property_value_true = str "true"

-- StringToInt(s)
unfoldable pub string_to_int : Str → ℤ
string_to_int s = elim (atoi s) [ some i ↦ i | none ↦ pos 0 ]

-- intToString(i), int64ToString(i)
unfoldable pub int_to_string : ℤ → Str
int_to_string i = itoa i
