-- ===== src/Create/Nfs.antt =====
-- createNFSVolume (pkg/driver/controller_nfs.go).
use tns_csi.Common.{
  Str, str, str_eq, insert, Map, ℤ, is_positive, int_eq, Option, none, some, true, not, ◌&&◌, List,
  [], ◌∷◌, Result, ok, err, if◌then◌else◌,
}
use tns_csi.Codes.{Code, internal, already_exists}
use tns_csi.Errors.{Err}
use tns_csi.Properties.{property_nfs_share_id, protocol_nfs}
use tns_csi.Properties.Builders.{nfs_volume_properties_v1}
use tns_csi.Backend
use tns_csi.Backend.{
  DatasetInfo, DatasetOptions, DatasetCreateParams, NfsShare, SmbShare, Backend, M, pure, ◌>>=◌,
  ◌>>◌, call,
}
use tns_csi.Volume.Context.{build_volume_context, key_share}
use tns_csi.Create.Settings.{parse_zfs_dataset_properties}
use tns_csi.Create.Request.{
  CreateVolumeRequest, Setup, VolumeSettings, CreatedVolume, file_settings, recorded_params,
  query_exact_dataset, ensure_properties, record_properties,
}
use tns_csi.Create.Comment.{share_comment, parse_capacity_from_comment}
use tns_csi.Create.Access.{NfsShareAccess, parse_nfs_share_access, check_existing_nfs_share_access}
use tns_csi.Create.Files.{MadeDataset, info, metadata_for, get_or_create_dataset, cleanup_dataset}

pub record NfsVolumeParams : Type 0 where
  pub settings : VolumeSettings
  pub zfs_props : Option DatasetOptions
  pub share_access : NfsShareAccess

unfoldable pub build_nfs_volume_response :
    VolumeSettings → DatasetInfo → NfsShare → ℤ → CreatedVolume
build_nfs_volume_response s d share capacity = record {
  volume_id = d.id;
  capacity_bytes = capacity;
  volume_context = insert key_share d.mountpoint (
      build_volume_context
        (record (metadata_for s.volume_name protocol_nfs s.server d) { nfs_share_id = share.id }));
}

abbrev find_nfs_share : Str → List NfsShare → Option NfsShare
find_nfs_share path [] = none
find_nfs_share path (share ∷ shares) =
    if str_eq share.path path then some share else find_nfs_share path shares

module _ (env : Setup) where
  unfoldable pub validate_nfs_params : CreateVolumeRequest → Result Code NfsVolumeParams
  validate_nfs_params req = elim (parse_nfs_share_access env req.parameters) [
    | err c ↦ err c
    | ok access ↦ elim (file_settings env req) [
      | err c ↦ err c
      | ok s ↦ ok (record {
        settings = s;
        zfs_props = parse_zfs_dataset_properties req.parameters;
        share_access = access;
      })
    ]
  ]

  abbrev pub nfs_properties : NfsVolumeParams → NfsShare → Str → Map Str
  nfs_properties p share now =
      nfs_volume_properties_v1 (recorded_params env p.settings now) share.id share.path

module _ {B : Backend} (env : Setup) where
  unfoldable pub ensure_nfs_properties : Str → NfsVolumeParams → NfsShare → M B (Unit {0})
  ensure_nfs_properties id p share =
      ensure_properties id (property_nfs_share_id ∷ [])
        (record_properties id (nfs_properties env p share))

  abbrev pub nfs_access_checked :
      NfsVolumeParams
      → DatasetInfo
      → NfsShare
      → Option Code
      → M B (Result Code (Option CreatedVolume))
  nfs_access_checked p d share (some c) = pure (err c)
  nfs_access_checked p d share none =
      let capacity = parse_capacity_from_comment share.comment in
      if is_positive capacity && not (int_eq capacity p.settings.requested_capacity)
      then pure (err already_exists)
      else (ensure_nfs_properties d.id p share
          >> pure (
              ok (
                some (
                  build_nfs_volume_response p.settings d share
                    (if is_positive capacity then capacity else p.settings.requested_capacity)))))

  -- An existing share with the path; `none` if there is none, and the creation goes on.
  unfoldable pub existing_nfs_share :
      NfsVolumeParams → DatasetInfo → Option NfsShare → M B (Result Code (Option CreatedVolume))
  existing_nfs_share p d none = pure (ok none)
  existing_nfs_share p d (some share) =
      nfs_access_checked p d share (check_existing_nfs_share_access p.share_access share)

  abbrev pub nfs_shares_found :
      NfsVolumeParams
      → DatasetInfo
      → Result Err (List NfsShare)
      → M B (Result Code (Option CreatedVolume))
  nfs_shares_found p d (err e) = pure (err internal)
  nfs_shares_found p d (ok shares) = existing_nfs_share p d (find_nfs_share d.mountpoint shares)

  unfoldable pub handle_existing_nfs_volume :
      NfsVolumeParams → DatasetInfo → M B (Result Code (Option CreatedVolume))
  handle_existing_nfs_volume p d =
      call (Backend.query_nfs_shares d.mountpoint) >>= nfs_shares_found p d

  unfoldable pub nfs_share_created :
      NfsVolumeParams → MadeDataset → Result Err NfsShare → M B (Result Code CreatedVolume)
  nfs_share_created p m (err e) = cleanup_dataset m >> pure (err internal)
  nfs_share_created p m (ok share) =
      record_properties (info m).id (nfs_properties env p share)
      >> pure
          (ok (build_nfs_volume_response p.settings (info m) share p.settings.requested_capacity))

  unfoldable pub create_nfs_share_for_dataset :
      NfsVolumeParams → MadeDataset → M B (Result Code CreatedVolume)
  create_nfs_share_for_dataset p m =
      call (
        Backend.create_nfs_share (record {
          path = (info m).mountpoint;
          comment = share_comment p.settings.volume_name p.settings.requested_capacity;
          maproot_user = str "root";
          maproot_group = str "wheel";
          hosts = p.share_access.hosts;
          networks = p.share_access.networks;
          enabled = true;
        }))
      >>= nfs_share_created p m

  abbrev with_nfs_dataset :
      NfsVolumeParams → Result Code MadeDataset → M B (Result Code CreatedVolume)
  with_nfs_dataset p (err c) = pure (err c)
  with_nfs_dataset p (ok m) = create_nfs_share_for_dataset p m

  unfoldable pub make_nfs_volume :
      NfsVolumeParams → Option DatasetInfo → M B (Result Code CreatedVolume)
  make_nfs_volume p old =
      get_or_create_dataset env p.settings p.zfs_props [] old >>= with_nfs_dataset p

  abbrev after_existing_nfs :
      NfsVolumeParams
      → DatasetInfo
      → Result Code (Option CreatedVolume)
      → M B (Result Code CreatedVolume)
  after_existing_nfs p d (err c) = pure (err c)
  after_existing_nfs p d (ok (some v)) = pure (ok v)
  after_existing_nfs p d (ok none) = make_nfs_volume p (some d)

  unfoldable pub nfs_dataset_queried :
      NfsVolumeParams → Result Err (Option DatasetInfo) → M B (Result Code CreatedVolume)
  nfs_dataset_queried p (err e) = pure (err internal)
  nfs_dataset_queried p (ok none) = make_nfs_volume p none
  nfs_dataset_queried p (ok (some d)) = handle_existing_nfs_volume p d >>= after_existing_nfs p d

  abbrev pub nfs_validated : Result Code NfsVolumeParams → M B (Result Code CreatedVolume)
  nfs_validated (err c) = pure (err c)
  nfs_validated (ok p) = query_exact_dataset p.settings.dataset_name >>= nfs_dataset_queried p

  unfoldable pub create_nfs_volume : CreateVolumeRequest → M B (Result Code CreatedVolume)
  create_nfs_volume req = nfs_validated (validate_nfs_params env req)
