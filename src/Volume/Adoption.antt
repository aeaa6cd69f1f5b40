-- ===== src/Volume/Adoption.antt =====
-- pkg/driver/controller.go: IsVolumeAdoptable.
pub mod Laws
use tns_csi.Common.{
  Str, str_eq, is_empty, Map, lookup, Bool, true, false, not, ◌&&◌, Option, none, some,
  if◌then◌else◌,
}
use tns_csi.Properties.{
  property_managed_by, managed_by_value, property_schema_version, schema_version_v1,
  property_protocol, property_nfs_share_path, property_nvme_subsystem_nqn, property_iscsi_iqn,
  property_smb_share_name, protocol_nfs, protocol_nvmeof, protocol_iscsi, protocol_smb,
}

abbrev pub has : Str → Map Str → Bool
has k props = elim (lookup k props) [ none ↦ false | some v ↦ true ]

-- `v, ok := props[k]; !ok || v.Value != s` is false.
is_value : Str → Option Str → Bool
is_value s none = false
is_value s (some v) = str_eq v s

-- A schema version other than 1 is unknown; none at all is accepted.
known_schema : Option Str → Bool
known_schema none = true
known_schema (some v) = str_eq v schema_version_v1

-- The property that the protocol requires.
unfoldable pub has_protocol_property : Str → Map Str → Bool
has_protocol_property protocol props =
    if str_eq protocol protocol_nfs
    then has property_nfs_share_path props
    else if str_eq protocol protocol_nvmeof
    then has property_nvme_subsystem_nqn props
    else if str_eq protocol protocol_iscsi
    then has property_iscsi_iqn props
    else if str_eq protocol protocol_smb
    then has property_smb_share_name props
    else false

unfoldable pub adoptable_protocol : Map Str → Option Str → Bool
unfolding has_protocol_property
adoptable_protocol props none = false
adoptable_protocol props (some protocol) =
    if is_empty protocol then false else has_protocol_property protocol props

unfoldable pub is_volume_adoptable : Map Str → Bool
unfolding is_value known_schema adoptable_protocol
is_volume_adoptable props =
    if not (is_value managed_by_value (lookup property_managed_by props))
    then false
    else if not (known_schema (lookup property_schema_version props))
    then false
    else adoptable_protocol props (lookup property_protocol props)
