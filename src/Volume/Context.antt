-- ===== src/Volume/Context.antt =====
-- pkg/driver/controller.go: buildVolumeContext and getProtocolFromVolumeContext, the map of strings
-- in which the node service gets a volume's metadata.
pub mod Node
pub mod Laws
use tns_csi.Common.{
  Str, str, str_eq, is_empty, Map, get, insert, ℤ, is_zero, itoa, not, ◌||◌, [], ◌∷◌, if◌then◌else◌,
  Bool,
}
use tns_csi.Properties.{protocol_nfs, protocol_nvmeof, protocol_iscsi, protocol_smb}
use tns_csi.Volume.{VolumeMetadata}

abbrev pub key_protocol : Str
key_protocol = str "protocol"

abbrev pub key_server : Str
key_server = str "server"

abbrev pub key_share : Str
key_share = str "share"

abbrev pub key_dataset_id : Str
key_dataset_id = str "datasetID"

abbrev pub key_dataset_name : Str
key_dataset_name = str "datasetName"

abbrev pub key_nfs_share_id : Str
key_nfs_share_id = str "nfsShareID"

abbrev pub key_nqn : Str
key_nqn = str "nqn"

abbrev pub key_nvmeof_subsystem_id : Str
key_nvmeof_subsystem_id = str "nvmeofSubsystemID"

abbrev pub key_nvmeof_namespace_id : Str
key_nvmeof_namespace_id = str "nvmeofNamespaceID"

abbrev pub key_iscsi_iqn : Str
key_iscsi_iqn = str "iscsiIQN"

abbrev pub key_iscsi_target_id : Str
key_iscsi_target_id = str "iscsiTargetID"

abbrev pub key_iscsi_extent_id : Str
key_iscsi_extent_id = str "iscsiExtentID"

abbrev pub key_smb_share_id : Str
key_smb_share_id = str "smbShareID"

-- `if v != "" { ctx[k] = v }`, and the same for an ID.
abbrev pub put_text : Str → Str → Map Str → Map Str
put_text k v m = if not (is_empty v) then insert k v m else m

abbrev pub put_id : Str → ℤ → Map Str → Map Str
put_id k i m = if not (is_zero i) then insert k (itoa i) m else m

unfoldable pub common_context : VolumeMetadata → Map Str
common_context meta = put_text key_dataset_name meta.dataset_name (
    put_text key_dataset_id meta.dataset_id
      (put_text key_server meta.server ((key_protocol, meta.protocol) ∷ [])))

-- The fields of the protocol.
unfoldable pub protocol_context : VolumeMetadata → Map Str → Map Str
protocol_context meta ctx =
    if str_eq meta.protocol protocol_nfs
    then put_id key_nfs_share_id meta.nfs_share_id ctx
    else if str_eq meta.protocol protocol_nvmeof
    then put_id key_nvmeof_namespace_id meta.nvmeof_namespace_id (
        put_id key_nvmeof_subsystem_id meta.nvmeof_subsystem_id
          (put_text key_nqn meta.nvmeof_nqn ctx))
    else if str_eq meta.protocol protocol_iscsi
    then put_id key_iscsi_extent_id meta.iscsi_extent_id (
        put_id key_iscsi_target_id meta.iscsi_target_id (put_text key_iscsi_iqn meta.iscsi_iqn ctx))
    else if str_eq meta.protocol protocol_smb
    then put_id key_smb_share_id meta.smb_share_id ctx
    else ctx

unfoldable pub build_volume_context : VolumeMetadata → Map Str
build_volume_context meta = protocol_context meta (common_context meta)

abbrev present : Str → Map Str → Bool
present k ctx = not (is_empty (get k ctx))

unfoldable pub get_protocol_from_volume_context : Map Str → Str
get_protocol_from_volume_context ctx =
    if present key_protocol ctx
    then get key_protocol ctx
    else if present key_nqn ctx
    then protocol_nvmeof
    else if present key_iscsi_iqn ctx || present key_iscsi_target_id ctx
    then protocol_iscsi
    else if present key_smb_share_id ctx
    then protocol_smb
    else if present key_share ctx || present key_nfs_share_id ctx
    then protocol_nfs
    else protocol_nfs
