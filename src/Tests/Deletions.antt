-- ===== src/Tests/Deletions.antt =====
-- The theorems on deletions, for the volume of Tests.Server.
use tns_csi.Common.{
  parse_digits, cut_last, path_base, atoi, pos, lookup, str_eq, get, str, All, ◌≡◌, refl, none,
  some, ◌⊎◌, true, false,
}
use tns_csi.Delete.Ownership.{
  zvol_device, owns_extent, presentation_volume_name, owns_target, owned_iscsi_extent,
  owned_iscsi_target, read_volume_ownership, judge_ownership, owned_nvmeof_namespace,
  owned_nvmeof_subsystem, owns_namespace, owns_subsystem, forget_presentation_ids,
}
use tns_csi.Properties.{string_to_int, protocol_nfs, protocol_smb, protocol_iscsi, protocol_nvmeof}
use tns_csi.Delete.Iscsi.{delete_iscsi_presentation, delete_iscsi_volume}
use tns_csi.Delete.Datasets.{
  snapshot_guard, dataset_has_csi_managed_snapshots, blocks_deletion, delete_dataset_with_fallback,
  fatal,
}
use tns_csi.Delete.Nvmeof.{
  delete_nvmeof_namespace, delete_nvmeof_subsystem, delete_nvmeof_zvol, delete_zvol, zvol_error,
  delete_nvmeof_volume,
}
use tns_csi.Backend.{◌>>=◌, call}
use tns_csi.Backend.Keeps.{OnCall}
use tns_csi.Backend.Guarded.{Justified}
use tns_csi.Volume.{VolumeMetadata, extract_volume_metadata}
use tns_csi.Delete.Grounds.{Needs, volume_of}
use tns_csi.Delete.Files.{delete_nfs_volume, delete_smb_volume}
use tns_csi.Delete.Authorized.Files.{delete_nfs_volume-Justified, delete_smb_volume-Justified}
use tns_csi.Delete.Authorized.Iscsi.{delete_iscsi_volume-Justified}
use tns_csi.Delete.Authorized.Nvmeof.{delete_nvmeof_volume-Justified}
use tns_csi.Delete.Success.Nvmeof.{delete_nvmeof_volume-Meant}
use tns_csi.Delete.Success.Datasets.{Gone}
use tns_csi.Delete.Success.Ownership.{Spared}
use tns_csi.Delete.Success.Volumes.{
  delete_nfs_volume-Meant, delete_smb_volume-Meant, delete_iscsi_volume-Meant,
}
use tns_csi.Delete.Shares.{LeavesSmbShares, delete_smb_volume-LeavesSmbShares}
use tns_csi.Tests.Server.{start, volume, dataset}

delete_nfs_volume-Justified_example :
    Justified
      (Needs (volume_of false (volume protocol_nfs)))
      (delete_nfs_volume (volume protocol_nfs) start).1.log
delete_nfs_volume-Justified_example =
    delete_nfs_volume-Justified (volume protocol_nfs) start refl refl

delete_smb_volume-Justified_example :
    Justified
      (Needs (volume_of false (volume protocol_smb)))
      (delete_smb_volume (volume protocol_smb) start).1.log
delete_smb_volume-Justified_example =
    delete_smb_volume-Justified (volume protocol_smb) start refl refl

delete_iscsi_volume-Justified_example :
    Justified
      (Needs (volume_of false (volume protocol_iscsi)))
      (delete_iscsi_volume (volume protocol_iscsi) start).1.log
delete_iscsi_volume-Justified_example =
    delete_iscsi_volume-Justified (volume protocol_iscsi) start refl refl

delete_nvmeof_volume-Justified_example :
    Justified
      (Needs (volume_of true (volume protocol_nvmeof)))
      (delete_nvmeof_volume (volume protocol_nvmeof) start).1.log
delete_nvmeof_volume-Justified_example =
    delete_nvmeof_volume-Justified (volume protocol_nvmeof) start refl refl

-- The handlers run to success.
nfs_run : (delete_nfs_volume (volume protocol_nfs) start).0 ≡ none
unfolding delete_nfs_volume ◌>>=◌ read_volume_ownership judge_ownership call lookup str_eq get
    snapshot_guard dataset_has_csi_managed_snapshots blocks_deletion delete_dataset_with_fallback
    fatal
nfs_run = refl

smb_run : (delete_smb_volume (volume protocol_smb) start).0 ≡ none
unfolding delete_smb_volume ◌>>=◌ read_volume_ownership judge_ownership call lookup str_eq get
    snapshot_guard dataset_has_csi_managed_snapshots blocks_deletion delete_dataset_with_fallback
    fatal
smb_run = refl

iscsi_run : (delete_iscsi_volume (volume protocol_iscsi) start).0 ≡ none
unfolding delete_iscsi_volume ◌>>=◌ read_volume_ownership judge_ownership call lookup str_eq get
    snapshot_guard dataset_has_csi_managed_snapshots blocks_deletion delete_dataset_with_fallback
    fatal delete_iscsi_presentation owned_iscsi_target string_to_int atoi owned_iscsi_extent
    owns_target presentation_volume_name path_base cut_last owns_extent zvol_device
iscsi_run = refl

delete_nfs_volume-Meant_example :
    Gone (str "tank/pvc-1") (delete_nfs_volume (volume protocol_nfs) start).1.log
    ⊎ Spared (str "tank/pvc-1") (delete_nfs_volume (volume protocol_nfs) start).1.log
delete_nfs_volume-Meant_example = delete_nfs_volume-Meant (volume protocol_nfs) start refl nfs_run

delete_smb_volume-Meant_example :
    Gone (str "tank/pvc-1") (delete_smb_volume (volume protocol_smb) start).1.log
    ⊎ Spared (str "tank/pvc-1") (delete_smb_volume (volume protocol_smb) start).1.log
delete_smb_volume-Meant_example = delete_smb_volume-Meant (volume protocol_smb) start refl smb_run

delete_iscsi_volume-Meant_example :
    Gone (str "tank/pvc-1") (delete_iscsi_volume (volume protocol_iscsi) start).1.log
    ⊎ Spared (str "tank/pvc-1") (delete_iscsi_volume (volume protocol_iscsi) start).1.log
delete_iscsi_volume-Meant_example =
    delete_iscsi_volume-Meant (volume protocol_iscsi) start refl iscsi_run

abbrev smb_metadata : VolumeMetadata
smb_metadata = record (volume protocol_smb) {
  nfs_share_id = pos 7;
  nvmeof_subsystem_id = pos 0;
  nvmeof_namespace_id = pos 0;
  iscsi_target_id = pos 0;
  iscsi_extent_id = pos 0;
}

smb_extracted : extract_volume_metadata (str "pvc-1") dataset ≡ some smb_metadata
unfolding extract_volume_metadata lookup str_eq string_to_int atoi parse_digits
smb_extracted = refl

delete_smb_volume-LeavesSmbShares_example :
    All (OnCall LeavesSmbShares) (delete_smb_volume smb_metadata start).1.log
delete_smb_volume-LeavesSmbShares_example =
    delete_smb_volume-LeavesSmbShares (str "pvc-1") dataset smb_metadata start smb_extracted refl

nvmeof_run : (delete_nvmeof_volume (volume protocol_nvmeof) start).0 ≡ none
unfolding delete_nvmeof_volume ◌>>=◌ read_volume_ownership judge_ownership call lookup str_eq get
    snapshot_guard dataset_has_csi_managed_snapshots blocks_deletion delete_dataset_with_fallback
    fatal owned_iscsi_target string_to_int atoi owned_iscsi_extent owns_target
    presentation_volume_name path_base cut_last owns_extent zvol_device delete_nvmeof_namespace
    delete_nvmeof_subsystem owned_nvmeof_namespace owned_nvmeof_subsystem owns_namespace
    owns_subsystem delete_nvmeof_zvol delete_zvol forget_presentation_ids zvol_error
nvmeof_run = refl

delete_nvmeof_volume-Meant_example :
    Gone (str "tank/pvc-1") (delete_nvmeof_volume (volume protocol_nvmeof) start).1.log
    ⊎ Spared (str "tank/pvc-1") (delete_nvmeof_volume (volume protocol_nvmeof) start).1.log
delete_nvmeof_volume-Meant_example =
    delete_nvmeof_volume-Meant (volume protocol_nvmeof) start refl nvmeof_run
