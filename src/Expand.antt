-- ===== src/Expand.antt =====
-- ControllerExpandVolume (pkg/driver/controller.go) with expandNFSVolume, expandSMBVolume,
-- expandISCSIVolume and expandNVMeOFVolume.
pub mod Laws
use tns_csi.Common.{
  Str, str_eq, is_empty, ℤ, Bool, true, false, Option, none, some, [], Result, ok, err, ◌||◌,
  if◌then◌else◌,
}
use tns_csi.Codes.{Code, invalid_argument, internal, not_found}
use tns_csi.Errors.{Err}
use tns_csi.Properties.{protocol_nfs, protocol_nvmeof, protocol_iscsi, protocol_smb}
use tns_csi.Backend
use tns_csi.Backend.{DatasetUpdateParams, Backend, M, pure, ◌>>=◌, call}
use tns_csi.Volume.{VolumeMetadata, lookup_volume_by_csi_name}
use tns_csi.Volume.Request.{too_small}
use tns_csi.Create.Adopt.{no_update}

-- ControllerExpandVolumeResponse
pub record Expanded : Type 0 where
  pub capacity_bytes : ℤ
  pub node_expansion_required : Bool

abbrev expansion_code : Expanded → Option Err → Result Code Expanded
expansion_code x (some e) = err internal
expansion_code x none = ok x

module _ {B : Backend} where
  -- The part that the four functions share.
  unfoldable pub update_size :
      VolumeMetadata → DatasetUpdateParams → Expanded → M B (Result Code Expanded)
  update_size meta update x =
      if is_empty meta.dataset_id
      then pure (err invalid_argument)
      else call (Backend.update_dataset meta.dataset_id update) >>= λ e. pure (expansion_code x e)

  -- NFS and SMB: the reference quota, and nothing is left to the node.
  unfoldable pub expand_file_volume : VolumeMetadata → ℤ → M B (Result Code Expanded)
  expand_file_volume meta bytes =
      update_size meta (record no_update { ref_quota = some bytes })
        (record { capacity_bytes = bytes; node_expansion_required = false })

  -- NVMe-oF and iSCSI: the size of the ZVOL, and the node grows the file system.
  unfoldable pub expand_block_volume : VolumeMetadata → ℤ → M B (Result Code Expanded)
  expand_block_volume meta bytes =
      update_size meta (record no_update { volsize = some bytes })
        (record { capacity_bytes = bytes; node_expansion_required = true })

  unfoldable pub expand_by_protocol : VolumeMetadata → ℤ → M B (Result Code Expanded)
  expand_by_protocol meta bytes =
      if str_eq meta.protocol protocol_nfs
      then expand_file_volume meta bytes
      else if str_eq meta.protocol protocol_nvmeof
      then expand_block_volume meta bytes
      else if str_eq meta.protocol protocol_iscsi
      then expand_block_volume meta bytes
      else if str_eq meta.protocol protocol_smb
      then expand_file_volume meta bytes
      else pure (err internal)

  abbrev pub expand_found : ℤ → Result Err (Option VolumeMetadata) → M B (Result Code Expanded)
  expand_found bytes (err e) = pure (err internal)
  expand_found bytes (ok none) = pure (err not_found)
  expand_found bytes (ok (some meta)) = expand_by_protocol meta bytes

  abbrev pub expand_in_range : Str → Option ℤ → M B (Result Code Expanded)
  expand_in_range volume_id none = pure (err invalid_argument)
  expand_in_range volume_id (some bytes) =
      if too_small (some bytes)
      then pure (err invalid_argument)
      else lookup_volume_by_csi_name [] volume_id >>= expand_found bytes

  -- The volume ID, and the required bytes if there is a capacity range.
  unfoldable pub controller_expand_volume : Str → Option ℤ → M B (Result Code Expanded)
  controller_expand_volume volume_id range =
      if is_empty volume_id then pure (err invalid_argument) else expand_in_range volume_id range
