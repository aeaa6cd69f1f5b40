-- ===== src/Create/Settled/Files.antt =====
-- What createNFSVolume and createSMBVolume (pkg/driver/controller_nfs.go, controller_smb.go) leave
-- behind.
use tns_csi.Common.{Option, none, some, List, [], Result, ok, err, refl}
use tns_csi.Codes.{Code}
use tns_csi.Errors.{Err}
use tns_csi.Backend
use tns_csi.Backend.{
  DatasetInfo, DatasetOptions, NfsShare, SmbShare, Event, did, Backend, Driver, M, pure, ◌>>=◌,
  ◌>>◌, call,
}
use tns_csi.Backend.Ledger.{effect, settle}
use tns_csi.Backend.Settles.{
  Quiet, Quiet-pure, Quiet-call, Quiet-bind, Quiet-if, quiet_rules, Settles, Settles-pure,
  Settles-quiet, Settles-call,
}
use tns_csi.Create.Request.{CreateVolumeRequest, Setup}
use tns_csi.Create.Files.{MadeDataset}
use tns_csi.Create.Nfs.{
  NfsVolumeParams, validate_nfs_params, ensure_nfs_properties, nfs_access_checked, nfs_shares_found,
  existing_nfs_share, handle_existing_nfs_volume, nfs_share_created, create_nfs_share_for_dataset,
  make_nfs_volume, nfs_dataset_queried, nfs_validated, create_nfs_volume,
}
use tns_csi.Create.Smb.{
  SmbVolumeParams, validate_smb_params, ensure_smb_properties, smb_shares_found, existing_smb_share,
  handle_existing_smb_volume, smb_share_created, create_smb_share_for_dataset, make_smb_volume,
  smb_dataset_queried, smb_validated, create_smb_volume,
}
use tns_csi.Create.Settled.Datasets.{
  made_objects, query_exact_dataset-Quiet, record_properties-Quiet, ensure_properties-Quiet,
  some_is_not_none, cleanup_dataset-Settles, Settles-success, get_or_create_dataset-Settles,
  Settles-existing,
}

module _ {B : Backend} (env : Setup) (p : NfsVolumeParams) where
  nfs_share_created-Settles :
      (m : MadeDataset) (params : Backend.NfsShareCreateParams) (r : Result Err NfsShare)
      → Settles {B = B}
          (settle (effect (did (Backend.create_nfs_share params) r)) (some (made_objects m)))
          (nfs_share_created env p m r)
  unfolding nfs_share_created effect settle
  nfs_share_created-Settles m params (err e) = cleanup_dataset-Settles m _
  nfs_share_created-Settles m params (ok share) = Settles-success _ _ (record_properties-Quiet _ _)

  create_nfs_share_for_dataset-Settles :
      (m : MadeDataset)
      → Settles {B = B} (some (made_objects m)) (create_nfs_share_for_dataset env p m)
  unfolding create_nfs_share_for_dataset
  create_nfs_share_for_dataset-Settles m =
      Settles-call (Backend.create_nfs_share _) _ (nfs_share_created-Settles m _)

  make_nfs_volume-Settles :
      (old : Option DatasetInfo) → Settles {B = B} (some []) (make_nfs_volume env p old)
  unfolding make_nfs_volume
  make_nfs_volume-Settles old =
      get_or_create_dataset-Settles env p.settings p.zfs_props _ old _ (λ c. Settles-pure _ refl)
        create_nfs_share_for_dataset-Settles

  nfs_access_checked-Quiet :
      (d : DatasetInfo) (share : NfsShare) (e : Option Code)
      → Quiet {B = B} (nfs_access_checked env p d share e)
  unfolding ensure_nfs_properties
  nfs_access_checked-Quiet d share (some c) = Quiet-pure _
  nfs_access_checked-Quiet d share none = Quiet-if _ _ _ (Quiet-pure _) (
      Quiet-bind _ _ (ensure_properties-Quiet _ (record_properties-Quiet _ _) _ _)
        (λ _. Quiet-pure _))

  existing_nfs_share-Quiet :
      (d : DatasetInfo) (share : Option NfsShare) → Quiet {B = B} (existing_nfs_share env p d share)
  unfolding existing_nfs_share
  existing_nfs_share-Quiet d none = Quiet-pure _
  existing_nfs_share-Quiet d (some share) = nfs_access_checked-Quiet d share _

  nfs_shares_found-Quiet :
      (d : DatasetInfo) (r : Result Err (List NfsShare))
      → Quiet {B = B} (nfs_shares_found env p d r)
  nfs_shares_found-Quiet d (err e) = Quiet-pure _
  nfs_shares_found-Quiet d (ok shares) = existing_nfs_share-Quiet d _

  handle_existing_nfs_volume-Quiet :
      (d : DatasetInfo) → Quiet {B = B} (handle_existing_nfs_volume env p d)
  unfolding handle_existing_nfs_volume effect
  handle_existing_nfs_volume-Quiet d =
      Quiet-bind _ _ (Quiet-call (Backend.query_nfs_shares d.mountpoint) (λ r. refl))
        (nfs_shares_found-Quiet d)

  nfs_dataset_queried-Settles :
      (r : Result Err (Option DatasetInfo))
      → Settles {B = B} (some []) (nfs_dataset_queried env p r)
  unfolding nfs_dataset_queried
  nfs_dataset_queried-Settles (err e) = Settles-pure _ refl
  nfs_dataset_queried-Settles (ok none) = make_nfs_volume-Settles none
  nfs_dataset_queried-Settles (ok (some d)) =
      Settles-existing _ _ (handle_existing_nfs_volume-Quiet d) (λ c. Settles-pure _ refl)
        (λ v. Settles-pure _ some_is_not_none) (make_nfs_volume-Settles (some d))

module _ {B : Backend} (env : Setup) where
  nfs_validated-Settles :
      (r : Result Code NfsVolumeParams) → Settles {B = B} (some []) (nfs_validated env r)
  nfs_validated-Settles (err c) = Settles-pure _ refl
  nfs_validated-Settles (ok p) =
      Settles-quiet _ _ (query_exact_dataset-Quiet _) (nfs_dataset_queried-Settles env p)

  pub create_nfs_volume-Settles :
      (req : CreateVolumeRequest) → Settles {B = B} (some []) (create_nfs_volume env req)
  unfolding create_nfs_volume
  create_nfs_volume-Settles req = nfs_validated-Settles (validate_nfs_params env req)

module _ {B : Backend} (env : Setup) (p : SmbVolumeParams) where
  smb_share_created-Settles :
      (m : MadeDataset) (params : Backend.SmbShareCreateParams) (r : Result Err SmbShare)
      → Settles {B = B}
          (settle (effect (did (Backend.create_smb_share params) r)) (some (made_objects m)))
          (smb_share_created env p m r)
  unfolding smb_share_created effect settle
  smb_share_created-Settles m params (err e) = cleanup_dataset-Settles m _
  smb_share_created-Settles m params (ok share) =
      Settles-quiet _ _ (record_properties-Quiet _ _)
        (λ _. Settles-success _ _ (search quiet_rules))

  create_smb_share_for_dataset-Settles :
      (m : MadeDataset)
      → Settles {B = B} (some (made_objects m)) (create_smb_share_for_dataset env p m)
  unfolding create_smb_share_for_dataset
  create_smb_share_for_dataset-Settles m =
      Settles-call (Backend.create_smb_share _) _ (smb_share_created-Settles m _)

  make_smb_volume-Settles :
      (old : Option DatasetInfo) → Settles {B = B} (some []) (make_smb_volume env p old)
  unfolding make_smb_volume
  make_smb_volume-Settles old =
      get_or_create_dataset-Settles env p.settings p.zfs_props _ old _ (λ c. Settles-pure _ refl)
        create_smb_share_for_dataset-Settles

  existing_smb_share-Quiet :
      (d : DatasetInfo) (share : Option SmbShare) → Quiet {B = B} (existing_smb_share env p d share)
  unfolding existing_smb_share ensure_smb_properties
  existing_smb_share-Quiet d none = Quiet-pure _
  existing_smb_share-Quiet d (some share) =
      Quiet-bind _ _ (ensure_properties-Quiet _ (record_properties-Quiet _ _) _ _)
        (λ _. Quiet-pure _)

  smb_shares_found-Quiet :
      (d : DatasetInfo) (r : Result Err (List SmbShare))
      → Quiet {B = B} (smb_shares_found env p d r)
  smb_shares_found-Quiet d (err e) = Quiet-pure _
  smb_shares_found-Quiet d (ok shares) = existing_smb_share-Quiet d _

  handle_existing_smb_volume-Quiet :
      (d : DatasetInfo) → Quiet {B = B} (handle_existing_smb_volume env p d)
  unfolding handle_existing_smb_volume effect
  handle_existing_smb_volume-Quiet d =
      Quiet-bind _ _ (Quiet-call (Backend.query_smb_share d.mountpoint) (λ r. refl))
        (smb_shares_found-Quiet d)

  smb_dataset_queried-Settles :
      (r : Result Err (Option DatasetInfo))
      → Settles {B = B} (some []) (smb_dataset_queried env p r)
  unfolding smb_dataset_queried
  smb_dataset_queried-Settles (err e) = Settles-pure _ refl
  smb_dataset_queried-Settles (ok none) = make_smb_volume-Settles none
  smb_dataset_queried-Settles (ok (some d)) =
      Settles-existing _ _ (handle_existing_smb_volume-Quiet d) (λ c. Settles-pure _ refl)
        (λ v. Settles-pure _ some_is_not_none) (make_smb_volume-Settles (some d))

module _ {B : Backend} (env : Setup) where
  smb_validated-Settles :
      (r : Result Code SmbVolumeParams) → Settles {B = B} (some []) (smb_validated env r)
  smb_validated-Settles (err c) = Settles-pure _ refl
  smb_validated-Settles (ok p) =
      Settles-quiet _ _ (query_exact_dataset-Quiet _) (smb_dataset_queried-Settles env p)

  pub create_smb_volume-Settles :
      (req : CreateVolumeRequest) → Settles {B = B} (some []) (create_smb_volume env req)
  unfolding create_smb_volume
  create_smb_volume-Settles req = smb_validated-Settles (validate_smb_params env req)
