-- ===== src/Create/Careful/Files.antt =====
-- adoptNFSVolume and adoptSMBVolume (pkg/driver/controller_nfs.go, controller_smb.go) delete nothing.
use tns_csi.Common.{Option, none, some, List, [], ◌∷◌, Result, ok, err, refl}
use tns_csi.Codes.{Code}
use tns_csi.Errors.{Err}
use tns_csi.Backend
use tns_csi.Backend.{
  Dataset, DatasetInfo, NfsShare, SmbShare, IscsiTarget, IscsiExtent, TargetExtent, NvmeofSubsystem,
  NvmeofNamespace, Event, did, Backend, Driver, M, pure, ◌>>=◌, ◌>>◌, call,
}
use tns_csi.Backend.Ledger.{Object, effect, settle}
use tns_csi.Backend.Settles.{Quiet-call}
use tns_csi.Backend.Careful.{Careful, Careful-pure, Careful-Quiet, Careful-call, Careful-if}
use tns_csi.Create.Request.{CreateVolumeRequest, Setup}
use tns_csi.Create.Settled.Datasets.{record_properties-Quiet}
use tns_csi.Create.Access.{NfsShareAccess}
use tns_csi.Create.Nfs.{NfsVolumeParams}
use tns_csi.Create.Smb.{SmbVolumeParams}
use tns_csi.Create.Adopt.Files.{
  nfs_adopted, adopt_nfs_created, adopt_nfs_checked, adopt_nfs_share, adopt_nfs_with,
  adopt_nfs_volume, smb_adopted, adopt_smb_created, adopt_smb_share, adopt_smb_volume,
}

module _ {B : Backend} (env : Setup) (d : Dataset) where
  nfs_adopted-Careful :
      (os : List Object) (p : NfsVolumeParams) (share : NfsShare)
      → Careful {B = B} (some os) (nfs_adopted env d p share)
  nfs_adopted-Careful os p share =
      Careful-Quiet _ _ (record_properties-Quiet _ _) (λ _. Careful-pure _)

  adopt_nfs_created-Careful :
      (os : List Object) (p : NfsVolumeParams) (params : Backend.NfsShareCreateParams)
      (r : Result Err NfsShare)
      → Careful {B = B}
          (settle (effect (did (Backend.create_nfs_share params) r)) (some os))
          (adopt_nfs_created env d p r)
  unfolding effect settle
  adopt_nfs_created-Careful os p params (err e) = Careful-pure _
  adopt_nfs_created-Careful os p params (ok share) = nfs_adopted-Careful _ p share

  adopt_nfs_checked-Careful :
      (os : List Object) (p : NfsVolumeParams) (share : NfsShare) (e : Option Code)
      → Careful {B = B} (some os) (adopt_nfs_checked env d p share e)
  adopt_nfs_checked-Careful os p share (some c) = Careful-pure _
  adopt_nfs_checked-Careful os p share none = nfs_adopted-Careful _ p share

  adopt_nfs_share-Careful :
      (os : List Object) (p : NfsVolumeParams) (shares : List NfsShare)
      → Careful {B = B} (some os) (adopt_nfs_share env d p shares)
  unfolding adopt_nfs_share
  adopt_nfs_share-Careful os p (share ∷ _) = adopt_nfs_checked-Careful _ p share _
  adopt_nfs_share-Careful os p [] =
      Careful-call (Backend.create_nfs_share _) _ (adopt_nfs_created-Careful _ p _)

  adopt_nfs_with-Careful :
      (os : List Object) (req : CreateVolumeRequest) (r : Result Code NfsShareAccess)
      → Careful {B = B} (some os) (adopt_nfs_with env d req r)
  unfolding effect
  adopt_nfs_with-Careful os req (err c) = Careful-pure _
  adopt_nfs_with-Careful os req (ok access) = Careful-if _ _ _ (Careful-pure _) (
      Careful-Quiet _ _ (Quiet-call (Backend.query_nfs_shares d.mountpoint) (λ r. refl))
        (λ r. adopt_nfs_share-Careful _ _ _))

  pub adopt_nfs_volume-Careful :
      (os : List Object) (req : CreateVolumeRequest)
      → Careful {B = B} (some os) (adopt_nfs_volume env req d)
  unfolding adopt_nfs_volume
  adopt_nfs_volume-Careful os req = adopt_nfs_with-Careful _ req _

  smb_adopted-Careful :
      (os : List Object) (p : SmbVolumeParams) (share : SmbShare)
      → Careful {B = B} (some os) (smb_adopted env d p share)
  smb_adopted-Careful os p share =
      Careful-Quiet _ _ (record_properties-Quiet _ _) (λ _. Careful-pure _)

  adopt_smb_created-Careful :
      (os : List Object) (p : SmbVolumeParams) (params : Backend.SmbShareCreateParams)
      (r : Result Err SmbShare)
      → Careful {B = B}
          (settle (effect (did (Backend.create_smb_share params) r)) (some os))
          (adopt_smb_created env d p r)
  unfolding effect settle
  adopt_smb_created-Careful os p params (err e) = Careful-pure _
  adopt_smb_created-Careful os p params (ok share) = smb_adopted-Careful _ p share

  adopt_smb_share-Careful :
      (os : List Object) (p : SmbVolumeParams) (shares : List SmbShare)
      → Careful {B = B} (some os) (adopt_smb_share env d p shares)
  unfolding adopt_smb_share
  adopt_smb_share-Careful os p (share ∷ _) = smb_adopted-Careful _ p share
  adopt_smb_share-Careful os p [] =
      Careful-call (Backend.create_smb_share _) _ (adopt_smb_created-Careful _ p _)

  pub adopt_smb_volume-Careful :
      (os : List Object) (req : CreateVolumeRequest)
      → Careful {B = B} (some os) (adopt_smb_volume env req d)
  unfolding adopt_smb_volume effect
  adopt_smb_volume-Careful os req = Careful-if _ _ _ (Careful-pure _) (
      Careful-Quiet _ _ (Quiet-call (Backend.query_smb_share d.mountpoint) (λ r. refl))
        (λ r. adopt_smb_share-Careful _ _ _))
