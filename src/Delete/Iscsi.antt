-- ===== src/Delete/Iscsi.antt =====
-- pkg/driver/controller_iscsi.go: deleteISCSIVolume with verifyISCSIOwnership and
-- deleteISCSIPresentation.
use tns_csi.Common.{
  Str, str, is_empty, Map, get, is_zero, Option, none, some, Bool, not, ◌&&◌, List, [], ◌∷◌, Result,
  ok, err, if◌then◌else◌,
}
use tns_csi.Codes.{Code, unavailable}
use tns_csi.Errors.{Err}
use tns_csi.Properties.{string_to_int, property_iscsi_target_id, property_iscsi_extent_id}
use tns_csi.Backend
use tns_csi.Backend.{TargetExtent, Backend, M, pure, ◌>>=◌, ◌>>◌, call}
use tns_csi.Volume.{VolumeMetadata}
use tns_csi.Delete.Ownership.{
  VolumeOwnership, read_volume_ownership, forget_presentation_ids, owned_iscsi_target,
  owned_iscsi_extent,
}
use tns_csi.Delete.Datasets.{fatal, delete_dataset_with_fallback, snapshot_guard}
use tns_csi.Delete.Files.{reconcile, is_retained, if_none}

-- What stopped the removal of the presentation: the caller reports every case as Unavailable.
pub data PresentationError : Type 0 where
  lookup_failed : Err → PresentationError
  step_failed : Option Err → PresentationError

-- The stored IDs replace those of the metadata where they differ.
unfoldable pub reconcile_iscsi : VolumeMetadata → Map Str → VolumeMetadata
unfolding reconcile
reconcile_iscsi meta props = record meta {
  iscsi_target_id =
      reconcile (string_to_int (get property_iscsi_target_id props)) meta.iscsi_target_id;
  iscsi_extent_id =
      reconcile (string_to_int (get property_iscsi_extent_id props)) meta.iscsi_extent_id;
}

module _ {B : Backend} where
  -- The next step, unless this one failed with anything but "not found".
  abbrev pub step : Option Err → M B (Option PresentationError) → M B (Option PresentationError)
  step e next = if fatal e then pure (some (step_failed e)) else next

  unfoldable pub delete_target_extents :
      List TargetExtent → M B (Option PresentationError) → M B (Option PresentationError)
  delete_target_extents [] next = next
  delete_target_extents (te ∷ tes) next = call (Backend.delete_iscsi_target_extent te.id) >>= λ e.
      step e (delete_target_extents tes next)

  -- The mappings of the target; an error "not found" leaves none of them.
  unfoldable pub with_target_extents :
      Result Err (List TargetExtent)
      → M B (Option PresentationError)
      → M B (Option PresentationError)
  unfolding delete_target_extents
  with_target_extents (ok tes) next = delete_target_extents tes next
  with_target_extents (err e) next = step (some e) next

  unfoldable pub delete_owned_target :
      VolumeMetadata → M B (Option PresentationError) → M B (Option PresentationError)
  unfolding with_target_extents
  delete_owned_target meta next =
      call (Backend.iscsi_target_extent_by_target meta.iscsi_target_id) >>= λ r.
      with_target_extents r (
        call (Backend.delete_iscsi_target meta.iscsi_target_id) >>= λ e.
        step e (forget_presentation_ids meta.dataset_id (property_iscsi_target_id ∷ []) >> next))

  unfoldable pub delete_owned_extent : VolumeMetadata → M B (Option PresentationError)
  delete_owned_extent meta = call (Backend.delete_iscsi_extent meta.iscsi_extent_id) >>= λ e.
      step e (forget_presentation_ids meta.dataset_id (property_iscsi_extent_id ∷ []) >> pure none)

  unfoldable pub delete_iscsi_objects :
      VolumeMetadata → Bool → Bool → M B (Option PresentationError)
  unfolding delete_owned_target delete_owned_extent
  delete_iscsi_objects meta target_owned extent_owned =
      (if not (is_zero meta.iscsi_target_id) && not target_owned
        then forget_presentation_ids meta.dataset_id (property_iscsi_target_id ∷ [])
        else pure tt)
      >> ((if not (is_zero meta.iscsi_extent_id) && not extent_owned
            then forget_presentation_ids meta.dataset_id (property_iscsi_extent_id ∷ [])
            else pure tt)
          >> (let rest = if extent_owned then delete_owned_extent meta else pure none in
              if target_owned then delete_owned_target meta rest else rest))

  unfoldable pub extent_looked_up :
      VolumeMetadata → Bool → Result Err Bool → M B (Option PresentationError)
  unfolding delete_iscsi_objects
  extent_looked_up meta target_owned (err e) = pure (some (lookup_failed e))
  extent_looked_up meta target_owned (ok extent_owned) =
      delete_iscsi_objects meta target_owned extent_owned

  unfoldable pub target_looked_up :
      VolumeMetadata → Result Err Bool → M B (Option PresentationError)
  unfolding extent_looked_up
  target_looked_up meta (err e) = pure (some (lookup_failed e))
  target_looked_up meta (ok target_owned) =
      owned_iscsi_extent meta >>= extent_looked_up meta target_owned

  unfoldable pub delete_iscsi_presentation : VolumeMetadata → M B (Option PresentationError)
  unfolding target_looked_up
  delete_iscsi_presentation meta = owned_iscsi_target meta >>= target_looked_up meta

  -- After the presentation: the ZVOL, which is kept if anything failed.
  unfoldable pub delete_iscsi_zvol : VolumeMetadata → Option PresentationError → M B (Option Code)
  delete_iscsi_zvol meta (some e) = pure (some unavailable)
  delete_iscsi_zvol meta none =
      if is_empty meta.dataset_id
      then pure none
      else delete_dataset_with_fallback (str "delete-iscsi-zvol") meta.dataset_id

  unfoldable pub delete_iscsi_resources : VolumeMetadata → M B (Option Code)
  unfolding delete_iscsi_zvol
  delete_iscsi_resources meta =
      (if is_empty meta.dataset_id then pure none else snapshot_guard meta.dataset_id)
      >>= if_none (delete_iscsi_presentation meta >>= delete_iscsi_zvol meta)

  unfoldable pub iscsi_owned : VolumeMetadata → Result Code VolumeOwnership → M B (Option Code)
  unfolding delete_iscsi_resources reconcile_iscsi
  iscsi_owned meta (err c) = pure (some c)
  iscsi_owned meta (ok o) =
      if o.not_found
      then pure none
      else if is_retained o.delete_strategy
      then pure none
      else delete_iscsi_resources (reconcile_iscsi meta o.props)

  unfoldable pub delete_iscsi_volume : VolumeMetadata → M B (Option Code)
  unfolding iscsi_owned
  delete_iscsi_volume meta =
      read_volume_ownership meta (property_iscsi_target_id ∷ property_iscsi_extent_id ∷ [])
      >>= iscsi_owned meta
