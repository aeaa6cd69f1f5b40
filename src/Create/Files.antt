-- ===== src/Create/Files.antt =====
-- What createNFSVolume and createSMBVolume share: the dataset (pkg/driver/controller_nfs.go).
use tns_csi.Common.{Str, str, str_eq, pos, Option, none, some, [], Result, ok, err, if◌then◌else◌}
use tns_csi.Codes.{Code}
use tns_csi.Errors.{Err}
use tns_csi.Properties.{protocol_nfs, protocol_smb}
use tns_csi.Properties.Builders.{ownership_properties_v1}
use tns_csi.Backend
use tns_csi.Backend.{
  DatasetInfo, DatasetOptions, DatasetCreateParams, NfsShare, SmbShare, Backend, M, pure, ◌>>=◌,
  ◌>>◌, call,
}
use tns_csi.Volume.{VolumeMetadata}
use tns_csi.Create.Settings.{dataset_options, is_encrypted, inherited, encryption_options}
use tns_csi.Create.Request.{Setup, VolumeSettings, create_volume_error}

abbrev no_ids : VolumeMetadata
no_ids = record {
  name = [];
  protocol = [];
  dataset_id = [];
  dataset_name = [];
  server = [];
  nvmeof_nqn = [];
  iscsi_iqn = [];
  nfs_share_id = pos 0;
  nvmeof_subsystem_id = pos 0;
  nvmeof_namespace_id = pos 0;
  iscsi_target_id = pos 0;
  iscsi_extent_id = pos 0;
  smb_share_id = pos 0;
}

-- The metadata of a new volume without its IDs.
abbrev pub metadata_for : Str → Str → Str → DatasetInfo → VolumeMetadata
metadata_for name protocol server d = record no_ids {
  name = name;
  protocol = protocol;
  dataset_id = d.id;
  dataset_name = d.name;
  server = server;
}

-- A pre-existing dataset, or a new one.
pub data MadeDataset : Type 0 where
  existing new : DatasetInfo → MadeDataset

abbrev pub info : MadeDataset → DatasetInfo
info (existing d) = d
info (new d) = d

abbrev pub made : Result Err DatasetInfo → Result Code MadeDataset
made (err e) = err (create_volume_error e)
made (ok d) = ok (new d)

module _ (env : Setup) where
  -- The parameters of the new dataset; `share_type` is "SMB" or "".
  unfoldable pub dataset_create_params :
      VolumeSettings → Option DatasetOptions → Str → DatasetCreateParams
  dataset_create_params s zfs_props share_type = record {
    name = s.dataset_name;
    kind = str "FILESYSTEM";
    share_type = share_type;
    ref_quota = s.requested_capacity;
    comments = s.comment;
    options = dataset_options zfs_props;
    encryption = is_encrypted s.encryption;
    inherit_encryption = inherited (is_encrypted s.encryption);
    encryption_options = encryption_options s.encryption;
    user_properties =
        ownership_properties_v1 s.volume_name
          (if str_eq share_type (str "SMB") then protocol_smb else protocol_nfs) s.delete_strategy
          env.cluster_id s.requested_capacity;
  }

module _ {B : Backend} (env : Setup) where
  unfoldable pub get_or_create_dataset :
      VolumeSettings
      → Option DatasetOptions
      → Str
      → Option DatasetInfo
      → M B (Result Code MadeDataset)
  get_or_create_dataset s zfs_props share_type (some d) = pure (ok (existing d))
  get_or_create_dataset s zfs_props share_type none =
      call (Backend.create_dataset (dataset_create_params env s zfs_props share_type)) >>= λ r.
      pure (made r)

module _ {B : Backend} where
  -- "if datasetIsNew"
  unfoldable pub cleanup_dataset : MadeDataset → M B (Unit {0})
  cleanup_dataset (existing d) = pure tt
  cleanup_dataset (new d) = call (Backend.delete_dataset d.id) >>= λ e. pure tt
