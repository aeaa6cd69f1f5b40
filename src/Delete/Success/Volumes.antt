-- ===== src/Delete/Success/Volumes.antt =====
-- What the success of deleteNFSVolume, deleteSMBVolume, deleteISCSIVolume and deleteNVMeOFVolume
-- means.
use tns_csi.Common.{
  Str, is_empty, true, false, Option, none, some, List, [], ◌∷◌, ok, err, ◌≡◌, ◌⊎◌,
}
use tns_csi.Codes.{Code}
use tns_csi.Properties.{
  property_nfs_share_id, property_smb_share_id, property_iscsi_target_id, property_iscsi_extent_id,
}
use tns_csi.Backend.{Event, Backend, Driver}
use tns_csi.Backend.Guarded.{Knows}
use tns_csi.Backend.Ends.{Ends, Ends-pure, Ends-bind}
use tns_csi.Volume.{VolumeMetadata}
use tns_csi.Delete.Ownership.{VolumeOwnership}
use tns_csi.Delete.Files.{
  is_retained, delete_guarded_dataset, delete_nfs_resources, nfs_owned, delete_nfs_volume,
  delete_smb_resources, smb_owned, delete_smb_volume,
}
use tns_csi.Delete.Iscsi.{
  PresentationError, delete_iscsi_zvol, delete_iscsi_resources, reconcile_iscsi, iscsi_owned,
  delete_iscsi_volume,
}
use tns_csi.Delete.Success.Datasets.{Gone, GoneIf, delete_dataset_with_fallback-Ends, guarded-Ends}
use tns_csi.Delete.Success.Ownership.{Spared, Meant, read_volume_ownership-Ends, unless-Spared}

module _ {B : Backend} (d : Str) (named : is_empty d ≡ false) where
  delete_guarded_dataset-Ends :
      (name : Str) → Ends {B = B} (GoneIf none d) [] (delete_guarded_dataset name d)
  unfolding delete_guarded_dataset
  delete_guarded_dataset-Ends name =
      rw named (Ends-bind _ _ (λ r. guarded-Ends d _ r (delete_dataset_with_fallback-Ends d name)))

module _ {B : Backend} (meta : VolumeMetadata) (named : is_empty meta.dataset_id ≡ false) where
  nfs_owned-Ends :
      (known : List Event) (o : VolumeOwnership)
      → ((o.not_found ≡ true) ⊎ (is_retained o.delete_strategy ≡ true)
          → (log : List Event) → Knows known log
          → Spared meta.dataset_id log)
      → Ends {B = B} (Meant meta.dataset_id) known (nfs_owned meta (ok o))
  unfolding nfs_owned delete_nfs_resources
  nfs_owned-Ends known o spared =
      unless-Spared meta known o _ spared
        (Ends-bind _ _ (λ _. delete_guarded_dataset-Ends meta.dataset_id named _))

  smb_owned-Ends :
      (known : List Event) (o : VolumeOwnership)
      → ((o.not_found ≡ true) ⊎ (is_retained o.delete_strategy ≡ true)
          → (log : List Event) → Knows known log
          → Spared meta.dataset_id log)
      → Ends {B = B} (Meant meta.dataset_id) known (smb_owned meta (ok o))
  unfolding smb_owned delete_smb_resources
  smb_owned-Ends known o spared =
      unless-Spared meta known o _ spared
        (Ends-bind _ _ (λ _. delete_guarded_dataset-Ends meta.dataset_id named _))

  delete_iscsi_zvol-Ends :
      (e : Option PresentationError)
      → Ends {B = B} (GoneIf none meta.dataset_id) [] (delete_iscsi_zvol meta e)
  unfolding delete_iscsi_zvol
  delete_iscsi_zvol-Ends (some e) = Ends-pure _ (λ log k h. cc)
  delete_iscsi_zvol-Ends none = rw named (delete_dataset_with_fallback-Ends meta.dataset_id _)

  delete_iscsi_resources-Ends :
      Ends {B = B} (GoneIf none meta.dataset_id) [] (delete_iscsi_resources meta)
  unfolding delete_iscsi_resources
  delete_iscsi_resources-Ends =
      Ends-bind _ _ (λ r. guarded-Ends meta.dataset_id _ r (Ends-bind _ _ delete_iscsi_zvol-Ends))

module _ {B : Backend} (meta : VolumeMetadata) (named : is_empty meta.dataset_id ≡ false) where
  iscsi_owned-Ends :
      (known : List Event) (o : VolumeOwnership)
      → ((o.not_found ≡ true) ⊎ (is_retained o.delete_strategy ≡ true)
          → (log : List Event) → Knows known log
          → Spared meta.dataset_id log)
      → Ends {B = B} (Meant meta.dataset_id) known (iscsi_owned meta (ok o))
  unfolding iscsi_owned reconcile_iscsi
  iscsi_owned-Ends known o spared =
      unless-Spared meta known o _ spared
        (delete_iscsi_resources-Ends (reconcile_iscsi meta o.props) named)

  refused_nfs :
      (known : List Event) (c : Code)
      → Ends {B = B} (Meant meta.dataset_id) known (nfs_owned meta (err c))
  unfolding nfs_owned
  refused_nfs known c = Ends-pure _ (λ log k h. cc)

  refused_smb :
      (known : List Event) (c : Code)
      → Ends {B = B} (Meant meta.dataset_id) known (smb_owned meta (err c))
  unfolding smb_owned
  refused_smb known c = Ends-pure _ (λ log k h. cc)

  refused_iscsi :
      (known : List Event) (c : Code)
      → Ends {B = B} (Meant meta.dataset_id) known (iscsi_owned meta (err c))
  unfolding iscsi_owned
  refused_iscsi known c = Ends-pure _ (λ log k h. cc)

-- deleteNFSVolume, for a volume with a dataset ID, succeeds only if the server answered a deletion
-- of the dataset with success or "not found", or had reported the dataset gone or to be retained.
pub delete_nfs_volume-Meant :
    {B : Backend} (meta : VolumeMetadata) (s : Driver B)
    → is_empty meta.dataset_id ≡ false
    → (delete_nfs_volume meta s).0 ≡ none
    → Gone meta.dataset_id (delete_nfs_volume meta s).1.log
      ⊎ Spared meta.dataset_id (delete_nfs_volume meta s).1.log
unfolding delete_nfs_volume
delete_nfs_volume-Meant {B} meta s named = whole.at s tt
  where
    whole : Ends {B = B} (Meant meta.dataset_id) [] (delete_nfs_volume meta)
    whole = rw named (
        read_volume_ownership-Ends meta (property_nfs_share_id ∷ []) (nfs_owned meta)
          (refused_nfs meta named) (nfs_owned-Ends meta named))

-- deleteSMBVolume, for a volume with a dataset ID, succeeds only if the server answered a deletion
-- of the dataset with success or "not found", or had reported the dataset gone or to be retained.
pub delete_smb_volume-Meant :
    {B : Backend} (meta : VolumeMetadata) (s : Driver B)
    → is_empty meta.dataset_id ≡ false
    → (delete_smb_volume meta s).0 ≡ none
    → Gone meta.dataset_id (delete_smb_volume meta s).1.log
      ⊎ Spared meta.dataset_id (delete_smb_volume meta s).1.log
unfolding delete_smb_volume
delete_smb_volume-Meant {B} meta s named = whole.at s tt
  where
    whole : Ends {B = B} (Meant meta.dataset_id) [] (delete_smb_volume meta)
    whole = rw named (
        read_volume_ownership-Ends meta (property_smb_share_id ∷ []) (smb_owned meta)
          (refused_smb meta named) (smb_owned-Ends meta named))

-- deleteISCSIVolume, for a volume with a dataset ID, succeeds only if the server answered a deletion
-- of the ZVOL with success or "not found", or had reported the ZVOL gone or to be retained.
pub delete_iscsi_volume-Meant :
    {B : Backend} (meta : VolumeMetadata) (s : Driver B)
    → is_empty meta.dataset_id ≡ false
    → (delete_iscsi_volume meta s).0 ≡ none
    → Gone meta.dataset_id (delete_iscsi_volume meta s).1.log
      ⊎ Spared meta.dataset_id (delete_iscsi_volume meta s).1.log
unfolding delete_iscsi_volume
delete_iscsi_volume-Meant {B} meta s named = whole.at s tt
  where
    whole : Ends {B = B} (Meant meta.dataset_id) [] (delete_iscsi_volume meta)
    whole =
        read_volume_ownership-Ends meta (property_iscsi_target_id ∷ property_iscsi_extent_id ∷ [])
          (iscsi_owned meta) (refused_iscsi meta named) (iscsi_owned-Ends meta named)
