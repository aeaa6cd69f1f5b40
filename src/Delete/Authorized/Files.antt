-- ===== src/Delete/Authorized/Files.antt =====
-- The grounds of the calls of deleteNFSVolume and deleteSMBVolume.
use tns_csi.Common.{
  Str, is_empty, get, ℤ, is_positive, false, none, some, List, [], ◌∷◌, ok, err, ◌≡◌, ◌⊎◌, inr,
  true,
}
use tns_csi.Codes.{Code}
use tns_csi.Properties.{string_to_int, property_nfs_share_id, property_smb_share_id}
use tns_csi.Backend
use tns_csi.Backend.{Event, Backend, Driver, M, pure, ◌>>=◌, ◌>>◌, call}
use tns_csi.Backend.Guarded.{
  Justified, Knows, Guarded, Guarded-pure, Guarded-bind, Guarded-reply, Guarded-if,
}
use tns_csi.Volume.{VolumeMetadata}
use tns_csi.Delete.Ownership.{VolumeOwnership}
use tns_csi.Delete.Files.{
  reconcile, is_retained, delete_guarded_dataset, delete_nfs_resources, nfs_owned,
  delete_nfs_volume, delete_smb_resources, smb_owned, delete_smb_volume,
}
use tns_csi.Delete.Grounds.{volume_of, Owned, Needs}
use tns_csi.Delete.Authorized.Datasets.{
  snapshot_guard-Guarded, read_volume_ownership-Guarded, delete_dataset_with_fallback-Guarded,
}

module _ {B : Backend} (meta : VolumeMetadata) (known : List Event)
    (own : (log : List Event) → Knows known log → Owned false meta.name meta.dataset_id log) where
  delete_guarded_dataset-Guarded :
      (name : Str)
      → Guarded {B = B}
          (Needs (volume_of false meta))
          known
          (delete_guarded_dataset name meta.dataset_id)
  unfolding delete_guarded_dataset
  delete_guarded_dataset-Guarded name =
      Guarded-if (is_empty meta.dataset_id) _ _ (λ _. Guarded-pure none)
        (λ _.
          snapshot_guard-Guarded meta known own _
            (λ known' clear. delete_dataset_with_fallback-Guarded meta known' clear name))

  delete_nfs_resources-Guarded :
      (id : ℤ)
      → Guarded {B = B}
          (Needs (volume_of false meta))
          known
          (delete_nfs_resources (record meta { nfs_share_id = id }))
  unfolding delete_nfs_resources
  delete_nfs_resources-Guarded id =
      Guarded-bind _ _
        (Guarded-if (is_positive id) _ _
          (λ positive.
            Guarded-reply (Backend.delete_nfs_share id) (λ e. tt) (λ log k. (positive, own log k)))
          (λ _. Guarded-pure tt))
        (λ _. delete_guarded_dataset-Guarded _)

  delete_smb_resources-Guarded :
      (id : ℤ)
      → Guarded {B = B}
          (Needs (volume_of false meta))
          known
          (delete_smb_resources (record meta { smb_share_id = id }))
  unfolding delete_smb_resources
  delete_smb_resources-Guarded id =
      Guarded-bind _ _
        (Guarded-if (is_positive id) _ _
          (λ positive.
            Guarded-reply (Backend.delete_smb_share id) (λ e. tt) (λ log k. (positive, own log k)))
          (λ _. Guarded-pure tt))
        (λ _. delete_guarded_dataset-Guarded _)

module _ {B : Backend} (meta : VolumeMetadata) (known : List Event) (o : VolumeOwnership)
    (own : (false ≡ true) ⊎ (o.not_found ≡ false)
      → is_retained o.delete_strategy ≡ false
      → (log : List Event) → Knows known log
      → Owned false meta.name meta.dataset_id log) where
  nfs_owned-Guarded : Guarded {B = B} (Needs (volume_of false meta)) known (nfs_owned meta (ok o))
  unfolding nfs_owned
  nfs_owned-Guarded =
      Guarded-if o.not_found _ _ (λ _. Guarded-pure none)
        (λ there.
          Guarded-if (is_retained o.delete_strategy) _ _ (λ _. Guarded-pure none)
            (λ kept.
              delete_nfs_resources-Guarded meta known (own (inr there) kept)
                (reconcile (string_to_int (get property_nfs_share_id o.props)) meta.nfs_share_id)))

  smb_owned-Guarded : Guarded {B = B} (Needs (volume_of false meta)) known (smb_owned meta (ok o))
  unfolding smb_owned
  smb_owned-Guarded =
      Guarded-if o.not_found _ _ (λ _. Guarded-pure none)
        (λ there.
          Guarded-if (is_retained o.delete_strategy) _ _ (λ _. Guarded-pure none)
            (λ kept.
              delete_smb_resources-Guarded meta known (own (inr there) kept)
                (reconcile (string_to_int (get property_smb_share_id o.props)) meta.smb_share_id)))

module _ {B : Backend} (meta : VolumeMetadata) (named : is_empty meta.dataset_id ≡ false) where
  refused_nfs :
      (known : List Event) (c : Code)
      → Guarded {B = B} (Needs (volume_of false meta)) known (nfs_owned meta (err c))
  unfolding nfs_owned
  refused_nfs known c = Guarded-pure (some c)

  nfs-Guarded : Guarded {B = B} (Needs (volume_of false meta)) [] (delete_nfs_volume meta)
  unfolding delete_nfs_volume
  nfs-Guarded = rw named (
      read_volume_ownership-Guarded meta (property_nfs_share_id ∷ []) (nfs_owned meta) refused_nfs
        (λ known o own. nfs_owned-Guarded meta known o own))

  refused_smb :
      (known : List Event) (c : Code)
      → Guarded {B = B} (Needs (volume_of false meta)) known (smb_owned meta (err c))
  unfolding smb_owned
  refused_smb known c = Guarded-pure (some c)

  smb-Guarded : Guarded {B = B} (Needs (volume_of false meta)) [] (delete_smb_volume meta)
  unfolding delete_smb_volume
  smb-Guarded = rw named (
      read_volume_ownership-Guarded meta (property_smb_share_id ∷ []) (smb_owned meta) refused_smb
        (λ known o own. smb_owned-Guarded meta known o own))

-- Whatever the server answers, every call that deletes an NFS volume with a dataset ID has its
-- grounds in the replies before it: the dataset deleted is that of the volume, and the server had
-- returned its properties (the answer that it is not found is not enough), in which the manager is
-- this driver if one is recorded, the volume name is this volume's if one is recorded, and the
-- strategy is not to retain it, and had returned a list of its snapshots without a live CSI
-- snapshot; a share is deleted only after the ownership was
-- read, and a snapshot only if the server had listed it as neither a CSI snapshot nor cloned.
pub delete_nfs_volume-Justified :
    {B : Backend} (meta : VolumeMetadata) (s : Driver B)
    → is_empty meta.dataset_id ≡ false
    → s.log ≡ []
    → Justified (Needs (volume_of false meta)) (delete_nfs_volume meta s).1.log
delete_nfs_volume-Justified meta s named fresh = ((nfs-Guarded meta named).at s tt (rw fresh tt)).0

-- Whatever the server answers, every call that deletes an SMB volume with a dataset ID has its
-- grounds in the replies before it: the dataset deleted is that of the volume, and the server had
-- returned its properties (the answer that it is not found is not enough), in which the manager is
-- this driver if one is recorded, the volume name is this volume's if one is recorded, and the
-- strategy is not to retain it, and had returned a list of its snapshots without a live CSI
-- snapshot; a share is deleted only after the ownership was read, and a snapshot only if the server
-- had listed it as neither a CSI snapshot nor cloned.
pub delete_smb_volume-Justified :
    {B : Backend} (meta : VolumeMetadata) (s : Driver B)
    → is_empty meta.dataset_id ≡ false
    → s.log ≡ []
    → Justified (Needs (volume_of false meta)) (delete_smb_volume meta s).1.log
delete_smb_volume-Justified meta s named fresh = ((smb-Guarded meta named).at s tt (rw fresh tt)).0
