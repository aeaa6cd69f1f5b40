-- ===== src/Volume.antt =====
-- pkg/driver/controller.go: the metadata of a volume, its lookup on the server, and the map of
-- strings in which it travels through CSI.
pub mod Context
pub mod Adoption
pub mod Request
use tns_csi.Common.{
  Str, str, str_eq, contains, [], Map, lookup, ℤ, pos, Option, none, some, Bool, true, false,
  Result, ok, err, if◌then◌else◌,
}
use tns_csi.Errors.{Err}
use tns_csi.Properties.{
  string_to_int, property_managed_by, managed_by_value, property_protocol, property_nfs_share_id,
  property_nvme_subsystem_id, property_nvme_namespace_id, property_nvme_subsystem_nqn,
  property_iscsi_target_id, property_iscsi_extent_id, property_iscsi_iqn,
}
use tns_csi.Backend.{
  Dataset, Backend, M, pure, ◌>>=◌, call, get_dataset_with_properties,
  find_dataset_by_csi_volume_name,
}

pub record VolumeMetadata : Type 0 where
  pub name : Str
  pub protocol : Str
  pub dataset_id : Str
  pub dataset_name : Str
  pub server : Str
  pub nvmeof_nqn : Str
  pub iscsi_iqn : Str
  pub nfs_share_id : ℤ
  pub nvmeof_subsystem_id : ℤ
  pub nvmeof_namespace_id : ℤ
  pub iscsi_target_id : ℤ
  pub iscsi_extent_id : ℤ
  pub smb_share_id : ℤ

-- strings.Contains(volumeID, "/")
unfoldable pub is_dataset_path_volume_id : Str → Bool
is_dataset_path_volume_id id = contains id (str "/")

-- `if v, ok := props[k]; ok { field = v.Value }` over the zero value, and the same through
-- StringToInt.
abbrev text_or_zero : Option Str → Str
text_or_zero none = []
text_or_zero (some v) = v

abbrev int_or_zero : Option Str → ℤ
int_or_zero none = pos 0
int_or_zero (some v) = string_to_int v

unfoldable pub is_managed : Option Str → Bool
is_managed none = false
is_managed (some v) = str_eq v managed_by_value

unfoldable pub metadata_of : Str → Dataset → Map Str → VolumeMetadata
metadata_of volume_id d props = record {
  name = volume_id;
  protocol = text_or_zero (lookup property_protocol props);
  dataset_id = d.id;
  dataset_name = d.name;
  server = [];
  nvmeof_nqn = text_or_zero (lookup property_nvme_subsystem_nqn props);
  iscsi_iqn = text_or_zero (lookup property_iscsi_iqn props);
  nfs_share_id = int_or_zero (lookup property_nfs_share_id props);
  nvmeof_subsystem_id = int_or_zero (lookup property_nvme_subsystem_id props);
  nvmeof_namespace_id = int_or_zero (lookup property_nvme_namespace_id props);
  iscsi_target_id = int_or_zero (lookup property_iscsi_target_id props);
  iscsi_extent_id = int_or_zero (lookup property_iscsi_extent_id props);
  smb_share_id = pos 0;
}

-- `none` where the dataset is not managed by the driver.
unfoldable pub extract_from : Str → Dataset → Option (Map Str) → Option VolumeMetadata
unfolding is_managed metadata_of
extract_from volume_id d none = none
extract_from volume_id d (some props) =
    if is_managed (lookup property_managed_by props)
    then some (metadata_of volume_id d props)
    else none

unfoldable pub extract_volume_metadata : Str → Dataset → Option VolumeMetadata
unfolding extract_from
extract_volume_metadata volume_id d = extract_from volume_id d d.user_properties

abbrev found : Str → Result Err (Option Dataset) → Result Err (Option VolumeMetadata)
found volume_id (err e) = err e
found volume_id (ok none) = ok none
found volume_id (ok (some d)) = ok (extract_volume_metadata volume_id d)

-- The lookups. An API failure is returned; its text is wrapped, which no caller looks at.
module _ {B : Backend} where
  unfoldable pub lookup_volume_by_dataset_path : Str → M B (Result Err (Option VolumeMetadata))
  lookup_volume_by_dataset_path path =
      call (get_dataset_with_properties path) >>= λ r. pure (found path r)

  unfoldable pub lookup_volume_by_property_scan :
      Str → Str → M B (Result Err (Option VolumeMetadata))
  lookup_volume_by_property_scan prefix name =
      call (find_dataset_by_csi_volume_name prefix name) >>= λ r. pure (found name r)

  unfoldable pub lookup_volume_by_csi_name : Str → Str → M B (Result Err (Option VolumeMetadata))
  unfolding lookup_volume_by_dataset_path lookup_volume_by_property_scan
  lookup_volume_by_csi_name prefix name =
      if is_dataset_path_volume_id name
      then lookup_volume_by_dataset_path name
      else lookup_volume_by_property_scan prefix name
