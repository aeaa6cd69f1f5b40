-- ===== src/Delete/Files.antt =====
-- deleteNFSVolume (pkg/driver/controller_nfs.go) and deleteSMBVolume (pkg/driver/controller_smb.go).
-- A handler's result is `none` for success. Timers and metrics are left out.
use tns_csi.Common.{
  Str, str, str_eq, is_empty, get, ℤ, is_positive, int_eq, Option, none, some, Bool, not, ◌&&◌, [],
  ◌∷◌, Result, ok, err, if◌then◌else◌,
}
use tns_csi.Codes.{Code}
use tns_csi.Properties.{
  string_to_int, property_nfs_share_id, property_smb_share_id, delete_strategy_retain,
}
use tns_csi.Backend
use tns_csi.Backend.{Backend, M, pure, ◌>>=◌, ◌>>◌, call}
use tns_csi.Volume.{VolumeMetadata}
use tns_csi.Delete.Ownership.{VolumeOwnership, read_volume_ownership}
use tns_csi.Delete.Datasets.{delete_dataset_with_fallback, snapshot_guard}

-- `if stored > 0 && current > 0 && stored != current { current = stored }`
unfoldable pub reconcile : ℤ → ℤ → ℤ
reconcile stored current =
    if is_positive stored && is_positive current && not (int_eq stored current)
    then stored
    else current

abbrev pub is_retained : Str → Bool
is_retained strategy = str_eq strategy delete_strategy_retain

module _ {B : Backend} where
  -- Go on only if there was no error.
  abbrev pub if_none : M B (Option Code) → Option Code → M B (Option Code)
  if_none m none = m
  if_none m (some c) = pure (some c)

  -- The guard on snapshots and the deletion of the dataset, if there is a dataset ID.
  unfoldable pub delete_guarded_dataset : Str → Str → M B (Option Code)
  delete_guarded_dataset name dataset_id =
      if is_empty dataset_id
      then pure none
      else snapshot_guard dataset_id >>= if_none (delete_dataset_with_fallback name dataset_id)

  -- The share goes first; a failure is only logged.
  unfoldable pub delete_nfs_resources : VolumeMetadata → M B (Option Code)
  unfolding delete_guarded_dataset
  delete_nfs_resources meta =
      (if is_positive meta.nfs_share_id
        then (call (Backend.delete_nfs_share meta.nfs_share_id) >>= λ e. pure tt)
        else pure tt)
      >> delete_guarded_dataset (str "delete-nfs-dataset") meta.dataset_id

  unfoldable pub nfs_owned : VolumeMetadata → Result Code VolumeOwnership → M B (Option Code)
  unfolding delete_nfs_resources
  nfs_owned meta (err c) = pure (some c)
  nfs_owned meta (ok o) =
      if o.not_found
      then pure none
      else if is_retained o.delete_strategy
      then pure none
      else delete_nfs_resources (record meta {
        nfs_share_id =
            reconcile (string_to_int (get property_nfs_share_id o.props)) meta.nfs_share_id;
      })

  unfoldable pub delete_nfs_volume : VolumeMetadata → M B (Option Code)
  unfolding nfs_owned
  delete_nfs_volume meta =
      if is_empty meta.dataset_id
      then delete_nfs_resources meta
      else read_volume_ownership meta (property_nfs_share_id ∷ []) >>= nfs_owned meta

  unfoldable pub delete_smb_resources : VolumeMetadata → M B (Option Code)
  unfolding delete_guarded_dataset
  delete_smb_resources meta =
      (if is_positive meta.smb_share_id
        then (call (Backend.delete_smb_share meta.smb_share_id) >>= λ e. pure tt)
        else pure tt)
      >> delete_guarded_dataset (str "delete-smb-dataset") meta.dataset_id

  unfoldable pub smb_owned : VolumeMetadata → Result Code VolumeOwnership → M B (Option Code)
  unfolding delete_smb_resources
  smb_owned meta (err c) = pure (some c)
  smb_owned meta (ok o) =
      if o.not_found
      then pure none
      else if is_retained o.delete_strategy
      then pure none
      else delete_smb_resources (record meta {
        smb_share_id =
            reconcile (string_to_int (get property_smb_share_id o.props)) meta.smb_share_id;
      })

  unfoldable pub delete_smb_volume : VolumeMetadata → M B (Option Code)
  unfolding smb_owned
  delete_smb_volume meta =
      if is_empty meta.dataset_id
      then delete_smb_resources meta
      else read_volume_ownership meta (property_smb_share_id ∷ []) >>= smb_owned meta
