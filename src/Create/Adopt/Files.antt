-- ===== src/Create/Adopt/Files.antt =====
-- adoptNFSVolume and adoptSMBVolume (pkg/driver/controller_nfs.go, controller_smb.go).
use tns_csi.Common.{
  Str, str, is_empty, get, true, none, some, Option, List, [], ◌∷◌, Result, ok, err, if◌then◌else◌,
}
use tns_csi.Codes.{Code, internal}
use tns_csi.Errors.{Err}
use tns_csi.Backend
use tns_csi.Backend.{Dataset, DatasetInfo, NfsShare, SmbShare, Backend, M, pure, ◌>>=◌, ◌>>◌, call}
use tns_csi.Create.Request.{
  CreateVolumeRequest, Setup, VolumeSettings, CreatedVolume, or_default, default_server_address,
  settings_of, record_properties,
}
use tns_csi.Create.Access.{NfsShareAccess, parse_nfs_share_access, check_existing_nfs_share_access}
use tns_csi.Create.Comment.{share_comment}
use tns_csi.Create.Nfs.{NfsVolumeParams, build_nfs_volume_response, nfs_properties}
use tns_csi.Create.Smb.{SmbVolumeParams, build_smb_volume_response, smb_properties}

-- The embedded Dataset of DatasetWithProperties.
abbrev pub info_of : Dataset → DatasetInfo
info_of d = record { id = d.id; name = d.name; mountpoint = d.mountpoint; volsize = none }

-- A failed query counts as no share.
abbrev shares_or_none : {A : Type 0} → Result Err (List A) → List A
shares_or_none (err e) = []
shares_or_none (ok shares) = shares

-- The volume keeps the name of the request.
abbrev pub adopted_settings : CreateVolumeRequest → Str → VolumeSettings
adopted_settings req server = settings_of req server req.name []

abbrev file_server : CreateVolumeRequest → Str
file_server req = or_default default_server_address (get (str "server") req.parameters)

module _ {B : Backend} (env : Setup) (d : Dataset) where
  abbrev pub nfs_adopted : NfsVolumeParams → NfsShare → M B (Result Code CreatedVolume)
  nfs_adopted p share =
      record_properties d.id (nfs_properties env p share)
      >> pure (
          ok (build_nfs_volume_response p.settings (info_of d) share p.settings.requested_capacity))

  abbrev pub adopt_nfs_created :
      NfsVolumeParams → Result Err NfsShare → M B (Result Code CreatedVolume)
  adopt_nfs_created p (err e) = pure (err internal)
  adopt_nfs_created p (ok share) = nfs_adopted p share

  abbrev pub adopt_nfs_checked :
      NfsVolumeParams → NfsShare → Option Code → M B (Result Code CreatedVolume)
  adopt_nfs_checked p share (some c) = pure (err c)
  adopt_nfs_checked p share none = nfs_adopted p share

  unfoldable pub adopt_nfs_share : NfsVolumeParams → List NfsShare → M B (Result Code CreatedVolume)
  adopt_nfs_share p (share ∷ _) =
      adopt_nfs_checked p share (check_existing_nfs_share_access p.share_access share)
  adopt_nfs_share p [] =
      call (
        Backend.create_nfs_share (record {
          path = d.mountpoint;
          comment = share_comment p.settings.volume_name p.settings.requested_capacity;
          maproot_user = str "root";
          maproot_group = str "wheel";
          hosts = p.share_access.hosts;
          networks = p.share_access.networks;
          enabled = true;
        }))
      >>= adopt_nfs_created p

  abbrev pub adopt_nfs_with :
      CreateVolumeRequest → Result Code NfsShareAccess → M B (Result Code CreatedVolume)
  adopt_nfs_with req (err c) = pure (err c)
  adopt_nfs_with req (ok access) =
      let p : NfsVolumeParams = record {
        settings = adopted_settings req (file_server req);
        zfs_props = none;
        share_access = access;
      } in
      if is_empty d.mountpoint
      then pure (err internal)
      else call (Backend.query_nfs_shares d.mountpoint) >>= λ r.
          adopt_nfs_share p (shares_or_none r)

  abbrev pub smb_adopted : SmbVolumeParams → SmbShare → M B (Result Code CreatedVolume)
  smb_adopted p share =
      record_properties d.id (smb_properties env p share)
      >> pure (
          ok (build_smb_volume_response p.settings (info_of d) share p.settings.requested_capacity))

  abbrev pub adopt_smb_created :
      SmbVolumeParams → Result Err SmbShare → M B (Result Code CreatedVolume)
  adopt_smb_created p (err e) = pure (err internal)
  adopt_smb_created p (ok share) = smb_adopted p share

  unfoldable pub adopt_smb_share : SmbVolumeParams → List SmbShare → M B (Result Code CreatedVolume)
  adopt_smb_share p (share ∷ _) = smb_adopted p share
  adopt_smb_share p [] =
      call (
        Backend.create_smb_share (record {
          name = p.settings.volume_name;
          path = d.mountpoint;
          comment = share_comment p.settings.volume_name p.settings.requested_capacity;
          enabled = true;
        }))
      >>= adopt_smb_created p

module _ {B : Backend} (env : Setup) (req : CreateVolumeRequest) (d : Dataset) where
  unfoldable pub adopt_nfs_volume : M B (Result Code CreatedVolume)
  adopt_nfs_volume = adopt_nfs_with env d req (parse_nfs_share_access env req.parameters)

  unfoldable pub adopt_smb_volume : M B (Result Code CreatedVolume)
  adopt_smb_volume =
      let p : SmbVolumeParams = record {
        settings = adopted_settings req (file_server req);
        zfs_props = none;
      } in
      if is_empty d.mountpoint
      then pure (err internal)
      else call (Backend.query_smb_share d.mountpoint) >>= λ r.
          adopt_smb_share env d p (shares_or_none r)
