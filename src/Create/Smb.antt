-- ===== src/Create/Smb.antt =====
-- createSMBVolume (pkg/driver/controller_smb.go).
use tns_csi.Common.{
  Str, str, str_eq, is_empty, insert, Map, ℤ, Option, none, some, true, List, [], ◌∷◌, Result, ok,
  err, if◌then◌else◌,
}
use tns_csi.Codes.{Code, internal}
use tns_csi.Errors.{Err}
use tns_csi.Properties.{property_smb_share_id, protocol_smb}
use tns_csi.Properties.Builders.{smb_volume_properties_v1}
use tns_csi.Backend
use tns_csi.Backend.{
  DatasetInfo, DatasetOptions, DatasetCreateParams, NfsShare, SmbShare, Backend, M, pure, ◌>>=◌,
  ◌>>◌, call,
}
use tns_csi.Volume.Context.{build_volume_context, key_share}
use tns_csi.Create.Settings.{parse_zfs_dataset_properties}
use tns_csi.Create.Request.{
  CreateVolumeRequest, Setup, VolumeSettings, CreatedVolume, file_settings, recorded_params,
  query_exact_dataset, ensure_properties, record_properties,
}
use tns_csi.Create.Comment.{share_comment}
use tns_csi.Create.Files.{MadeDataset, info, metadata_for, get_or_create_dataset, cleanup_dataset}

pub record SmbVolumeParams : Type 0 where
  pub settings : VolumeSettings
  pub zfs_props : Option DatasetOptions

unfoldable pub build_smb_volume_response :
    VolumeSettings → DatasetInfo → SmbShare → ℤ → CreatedVolume
build_smb_volume_response s d share capacity = record {
  volume_id = d.id;
  capacity_bytes = capacity;
  volume_context = insert key_share share.name (
      build_volume_context
        (record (metadata_for s.volume_name protocol_smb s.server d) { smb_share_id = share.id }));
}

abbrev find_smb_share : Str → List SmbShare → Option SmbShare
find_smb_share path [] = none
find_smb_share path (share ∷ shares) =
    if str_eq share.path path then some share else find_smb_share path shares

module _ (env : Setup) where
  unfoldable pub validate_smb_params : CreateVolumeRequest → Result Code SmbVolumeParams
  validate_smb_params req = elim (file_settings env req) [
    | err c ↦ err c
    | ok s ↦ ok (record { settings = s; zfs_props = parse_zfs_dataset_properties req.parameters })
  ]

  abbrev pub smb_properties : SmbVolumeParams → SmbShare → Str → Map Str
  smb_properties p share now =
      smb_volume_properties_v1 (recorded_params env p.settings now) share.id share.name

module _ {B : Backend} (env : Setup) where
  unfoldable pub ensure_smb_properties : Str → SmbVolumeParams → SmbShare → M B (Unit {0})
  ensure_smb_properties id p share =
      ensure_properties id (property_smb_share_id ∷ [])
        (record_properties id (smb_properties env p share))

  -- The capacity of an existing volume is not compared.
  unfoldable pub existing_smb_share :
      SmbVolumeParams → DatasetInfo → Option SmbShare → M B (Result Code (Option CreatedVolume))
  existing_smb_share p d none = pure (ok none)
  existing_smb_share p d (some share) =
      ensure_smb_properties d.id p share
      >> pure
          (ok (some (build_smb_volume_response p.settings d share p.settings.requested_capacity)))

  abbrev pub smb_shares_found :
      SmbVolumeParams
      → DatasetInfo
      → Result Err (List SmbShare)
      → M B (Result Code (Option CreatedVolume))
  smb_shares_found p d (err e) = pure (err internal)
  smb_shares_found p d (ok shares) = existing_smb_share p d (find_smb_share d.mountpoint shares)

  unfoldable pub handle_existing_smb_volume :
      SmbVolumeParams → DatasetInfo → M B (Result Code (Option CreatedVolume))
  handle_existing_smb_volume p d =
      call (Backend.query_smb_share d.mountpoint) >>= smb_shares_found p d

  -- The ACL is set after the share was created (createSMBVolume); a failure is only logged.
  unfoldable pub smb_share_created :
      SmbVolumeParams → MadeDataset → Result Err SmbShare → M B (Result Code CreatedVolume)
  smb_share_created p m (err e) = cleanup_dataset m >> pure (err internal)
  smb_share_created p m (ok share) =
      record_properties (info m).id (smb_properties env p share)
      >> ((if is_empty (info m).mountpoint
            then pure tt
            else (call (Backend.set_filesystem_acl (info m).mountpoint) >>= λ e. pure tt))
          >> pure (
              ok (
                build_smb_volume_response p.settings (info m) share p.settings.requested_capacity)))

  unfoldable pub create_smb_share_for_dataset :
      SmbVolumeParams → MadeDataset → M B (Result Code CreatedVolume)
  create_smb_share_for_dataset p m =
      call (
        Backend.create_smb_share (record {
          name = p.settings.volume_name;
          path = (info m).mountpoint;
          comment = share_comment p.settings.volume_name p.settings.requested_capacity;
          enabled = true;
        }))
      >>= smb_share_created p m

  abbrev with_smb_dataset :
      SmbVolumeParams → Result Code MadeDataset → M B (Result Code CreatedVolume)
  with_smb_dataset p (err c) = pure (err c)
  with_smb_dataset p (ok m) = create_smb_share_for_dataset p m

  unfoldable pub make_smb_volume :
      SmbVolumeParams → Option DatasetInfo → M B (Result Code CreatedVolume)
  make_smb_volume p old =
      get_or_create_dataset env p.settings p.zfs_props (str "SMB") old >>= with_smb_dataset p

  abbrev after_existing_smb :
      SmbVolumeParams
      → DatasetInfo
      → Result Code (Option CreatedVolume)
      → M B (Result Code CreatedVolume)
  after_existing_smb p d (err c) = pure (err c)
  after_existing_smb p d (ok (some v)) = pure (ok v)
  after_existing_smb p d (ok none) = make_smb_volume p (some d)

  unfoldable pub smb_dataset_queried :
      SmbVolumeParams → Result Err (Option DatasetInfo) → M B (Result Code CreatedVolume)
  smb_dataset_queried p (err e) = pure (err internal)
  smb_dataset_queried p (ok none) = make_smb_volume p none
  smb_dataset_queried p (ok (some d)) = handle_existing_smb_volume p d >>= after_existing_smb p d

  abbrev pub smb_validated : Result Code SmbVolumeParams → M B (Result Code CreatedVolume)
  smb_validated (err c) = pure (err c)
  smb_validated (ok p) = query_exact_dataset p.settings.dataset_name >>= smb_dataset_queried p

  unfoldable pub create_smb_volume : CreateVolumeRequest → M B (Result Code CreatedVolume)
  create_smb_volume req = smb_validated (validate_smb_params env req)
