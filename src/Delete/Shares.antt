-- ===== src/Delete/Shares.antt =====
-- The SMB share of a volume, which deleteSMBVolume does not reach: extractVolumeMetadata leaves its
-- ID at zero, and the reconciliation with the stored ID changes positive IDs only. docs/FEATURES.md,
-- docs/DEPLOYMENT.md, docs/QUICKSTART-SMB.md and the comment of the handler's first step say that the
-- share is deleted with the volume.
use tns_csi.Common.{
  Str, is_empty, lookup, Map, get, ℤ, pos, is_positive, int_eq, Bool, true, false, not, ◌&&◌,
  Option, none, some, List, [], ◌∷◌, All, Result, ok, err, ◌≡◌, refl, sym, ap, inl, inr, arith,
  Bool-cases, if◌then◌else◌,
}
use tns_csi.Codes.{Code}
use tns_csi.Errors.{Err}
use tns_csi.Properties.{string_to_int, property_smb_share_id, property_managed_by}
use tns_csi.Backend
use tns_csi.Backend.{Dataset, Snapshot, Call, Backend, Driver, M, pure, ◌>>=◌, ◌>>◌, call}
use tns_csi.Backend.Keeps.{OnCall, Keeps, Keeps-pure, Keeps-call, Keeps-bind, Keeps-if, keeps_rules}
use tns_csi.Volume.{VolumeMetadata, extract_volume_metadata, extract_from, is_managed, metadata_of}
use tns_csi.Delete.Ownership.{VolumeOwnership, read_volume_ownership}
use tns_csi.Delete.Datasets.{
  is_csi_snapshot, has_clones, delete_snapshots, delete_queried, delete_dataset_snapshots,
  promote_clones, promote_of_snapshots, promote_queried, promote_clones_of_deferred_snapshots,
  try_promote_and_delete_dataset, delete_dataset_again, retry_dataset_deletion,
  delete_dataset_with_fallback, snapshot_guard, dataset_has_csi_managed_snapshots, clones_of,
}
use tns_csi.Delete.Files.{
  is_retained, reconcile, if_none, delete_guarded_dataset, delete_smb_resources, smb_owned,
  delete_smb_volume,
}

abbrev pub LeavesSmbShares : Call → Type 0
LeavesSmbShares (Backend.delete_smb_share id) = true ≡ false
LeavesSmbShares c = Unit

reconcile_zero :
    (stored current : ℤ) → current ≡ pos 0 → is_positive (reconcile stored current) ≡ false
unfolding reconcile
reconcile_zero stored current h = rw h (and_false (is_positive stored))
  where
    and_false :
        (b : Bool)
        → is_positive (if b && false && not (int_eq stored (pos 0)) then stored else pos 0) ≡ false
    and_false b = ground arith

module _ {B : Backend} where
  delete_snapshots-Keeps :
      (snaps : List Snapshot) → Keeps {B = B} LeavesSmbShares (delete_snapshots snaps)
  unfolding delete_snapshots
  delete_snapshots-Keeps [] = search keeps_rules
  delete_snapshots-Keeps (s ∷ snaps) =
      Keeps-bind _ _
        (Keeps-if (is_csi_snapshot s) _ _ (Keeps-pure tt) (
          Keeps-if (has_clones s) _ _ (Keeps-pure tt)
            (Keeps-bind _ _ (Keeps-call (Backend.delete_snapshot s.id) tt) (λ e. Keeps-pure tt))))
        (λ _. delete_snapshots-Keeps snaps)

  delete_queried-Keeps :
      (r : Result Err (List Snapshot)) → Keeps {B = B} LeavesSmbShares (delete_queried r)
  unfolding delete_queried
  delete_queried-Keeps (err e) = search keeps_rules
  delete_queried-Keeps (ok snaps) = delete_snapshots-Keeps snaps

  promote_clones-Keeps :
      (clones : List Str) (promoted : Bool)
      → Keeps {B = B} LeavesSmbShares (promote_clones clones promoted)
  unfolding promote_clones
  promote_clones-Keeps [] promoted = search keeps_rules
  promote_clones-Keeps (c ∷ clones) promoted = search (keeps_rules, promote_clones-Keeps clones)

  promote_of_snapshots-Keeps :
      (snaps : List Snapshot) (promoted : Bool)
      → Keeps {B = B} LeavesSmbShares (promote_of_snapshots snaps promoted)
  unfolding promote_of_snapshots
  promote_of_snapshots-Keeps [] promoted = search keeps_rules
  promote_of_snapshots-Keeps (s ∷ snaps) promoted =
      Keeps-bind _ _ (promote_clones-Keeps (clones_of s) promoted)
        (promote_of_snapshots-Keeps snaps)

  promote_queried-Keeps :
      (r : Result Err (List Snapshot)) → Keeps {B = B} LeavesSmbShares (promote_queried r)
  unfolding promote_queried
  promote_queried-Keeps (err e) = search keeps_rules
  promote_queried-Keeps (ok snaps) = promote_of_snapshots-Keeps snaps false

  try_promote-Keeps : (d : Str) → Keeps {B = B} LeavesSmbShares (try_promote_and_delete_dataset d)
  unfolding try_promote_and_delete_dataset promote_clones_of_deferred_snapshots
  try_promote-Keeps d = search (keeps_rules, promote_queried-Keeps)

  retry-Keeps : (name d : Str) → Keeps {B = B} LeavesSmbShares (retry_dataset_deletion name d)
  unfolding retry_dataset_deletion delete_dataset_snapshots delete_dataset_again
  retry-Keeps name d =
      Keeps-bind _ _
        (Keeps-bind _ _ (Keeps-call (Backend.query_snapshots_with_properties d) tt)
          delete_queried-Keeps)
        (λ _. search keeps_rules)

  fallback-Keeps :
      (name d : Str) → Keeps {B = B} LeavesSmbShares (delete_dataset_with_fallback name d)
  unfolding delete_dataset_with_fallback
  fallback-Keeps name d = search (keeps_rules, try_promote-Keeps, retry-Keeps)

  if_none-Keeps :
      (next : M B (Option Code)) (r : Option Code)
      → Keeps LeavesSmbShares next
      → Keeps LeavesSmbShares (if_none next r)
  if_none-Keeps next none k = k
  if_none-Keeps next (some c) k = Keeps-pure (some c)

  guard-Keeps : (d : Str) → Keeps {B = B} LeavesSmbShares (snapshot_guard d)
  unfolding snapshot_guard dataset_has_csi_managed_snapshots
  guard-Keeps d = search keeps_rules

  delete_guarded_dataset-Keeps :
      (name d : Str) → Keeps {B = B} LeavesSmbShares (delete_guarded_dataset name d)
  unfolding delete_guarded_dataset
  delete_guarded_dataset-Keeps name d =
      Keeps-if (is_empty d) _ _ (Keeps-pure none)
        (Keeps-bind _ _ (guard-Keeps d) (λ r. if_none-Keeps _ r (fallback-Keeps name d)))

  delete_smb_resources-Keeps :
      (meta : VolumeMetadata)
      → is_positive meta.smb_share_id ≡ false
      → Keeps {B = B} LeavesSmbShares (delete_smb_resources meta)
  unfolding delete_smb_resources
  delete_smb_resources-Keeps meta none_known =
      rw none_known (Keeps-bind _ _ (Keeps-pure tt) (λ _. delete_guarded_dataset-Keeps _ _))

  smb_owned-Keeps :
      (meta : VolumeMetadata) (r : Result Code VolumeOwnership)
      → meta.smb_share_id ≡ pos 0
      → Keeps {B = B} LeavesSmbShares (smb_owned meta r)
  unfolding smb_owned reconcile
  smb_owned-Keeps meta (err c) zero_id = Keeps-pure (some c)
  smb_owned-Keeps meta (ok o) zero_id = Keeps-if o.not_found _ _ (Keeps-pure none) (
      Keeps-if (is_retained o.delete_strategy) _ _ (Keeps-pure none) (
        delete_smb_resources-Keeps
          (record meta {
            smb_share_id =
                reconcile (string_to_int (get property_smb_share_id o.props)) meta.smb_share_id;
          })
          (reconcile_zero (string_to_int (get property_smb_share_id o.props)) _ zero_id)))

  smb-Keeps :
      (meta : VolumeMetadata)
      → meta.smb_share_id ≡ pos 0
      → Keeps {B = B} LeavesSmbShares (delete_smb_volume meta)
  unfolding delete_smb_volume read_volume_ownership
  smb-Keeps meta zero_id =
      Keeps-if (is_empty meta.dataset_id) _ _ (delete_smb_resources-Keeps meta (rw zero_id refl))
        (Keeps-bind _ _ (search keeps_rules) (λ r. smb_owned-Keeps meta r zero_id))

extracted :
    (id : Str) (d : Dataset) (props : Option (Map Str)) (meta : VolumeMetadata)
    → extract_from id d props ≡ some meta
    → meta.smb_share_id ≡ pos 0
unfolding extract_from metadata_of
extracted id d none meta h = cc
extracted id d (some props) meta h =
    elim (Bool-cases (is_managed (lookup property_managed_by props))) [
      | inl managed ↦ share_of (rw managed at h)
      | inr other ↦ cc
    ]
  where
    some_injective : some (metadata_of id d props) ≡ some meta → metadata_of id d props ≡ meta
    some_injective e = cc

    share_of : some (metadata_of id d props) ≡ some meta → meta.smb_share_id ≡ pos 0
    share_of e = sym (ap (λ m. m.smb_share_id) (some_injective e))

-- Whatever the server answers, the deletion of a volume with the metadata that
-- extractVolumeMetadata reads from a dataset makes no call that deletes an SMB share, also where
-- the dataset has the ID of its share among its properties.
pub delete_smb_volume-LeavesSmbShares :
    {B : Backend} (id : Str) (d : Dataset) (meta : VolumeMetadata) (s : Driver B)
    → extract_volume_metadata id d ≡ some meta
    → s.log ≡ []
    → All (OnCall LeavesSmbShares) (delete_smb_volume meta s).1.log
unfolding extract_volume_metadata
delete_smb_volume-LeavesSmbShares id d meta s h fresh =
    (smb-Keeps meta (extracted id d d.user_properties meta h)).at s (rw fresh tt)
