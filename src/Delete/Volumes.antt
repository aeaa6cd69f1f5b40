-- ===== src/Delete/Volumes.antt =====
-- pkg/driver/controller.go: DeleteVolume. A handler's result is `none` for success.
use tns_csi.Common.{Str, str_eq, is_empty, [], Option, none, some, Result, ok, err, if◌then◌else◌}
use tns_csi.Codes.{Code, invalid_argument, internal}
use tns_csi.Errors.{Err}
use tns_csi.Properties.{protocol_nfs, protocol_nvmeof, protocol_iscsi, protocol_smb}
use tns_csi.Backend.{Backend, M, pure, ◌>>=◌}
use tns_csi.Volume.{VolumeMetadata, lookup_volume_by_csi_name}
use tns_csi.Delete.Ownership.{check_unmanaged_dataset_at_volume_id}
use tns_csi.Delete.Files.{delete_nfs_volume, delete_smb_volume}
use tns_csi.Delete.Iscsi.{delete_iscsi_volume}
use tns_csi.Delete.Nvmeof.{delete_nvmeof_volume}

module _ {B : Backend} where
  unfoldable pub delete_by_protocol : VolumeMetadata → M B (Option Code)
  delete_by_protocol meta =
      if str_eq meta.protocol protocol_nfs
      then delete_nfs_volume meta
      else if str_eq meta.protocol protocol_nvmeof
      then delete_nvmeof_volume meta
      else if str_eq meta.protocol protocol_iscsi
      then delete_iscsi_volume meta
      else if str_eq meta.protocol protocol_smb
      then delete_smb_volume meta
      else pure (some internal)

  unfoldable pub looked_up : Str → Result Err (Option VolumeMetadata) → M B (Option Code)
  unfolding delete_by_protocol
  looked_up volume_id (err e) = pure (some internal)
  looked_up volume_id (ok none) = check_unmanaged_dataset_at_volume_id volume_id
  looked_up volume_id (ok (some meta)) = delete_by_protocol meta

  unfoldable pub delete_volume : Str → M B (Option Code)
  unfolding looked_up
  delete_volume volume_id =
      if is_empty volume_id
      then pure (some invalid_argument)
      else lookup_volume_by_csi_name [] volume_id >>= looked_up volume_id
