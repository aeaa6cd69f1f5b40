-- ===== src/Delete/Authorized/Iscsi/Objects.antt =====
-- The grounds of the calls that delete the objects of an iSCSI volume.
use tns_csi.Common.{
  Str, Bool, true, false, Option, none, some, List, [], ◌∷◌, Result, ok, err, ◌≡◌, if◌then◌else◌,
}
use tns_csi.Errors.{Err}
use tns_csi.Properties.{property_iscsi_target_id, property_iscsi_extent_id}
use tns_csi.Backend
use tns_csi.Backend.{
  TargetExtent, IscsiTarget, IscsiExtent, Event, did, Backend, Driver, M, pure, ◌>>=◌, ◌>>◌, call,
}
use tns_csi.Backend.Guarded.{Knows, Guarded, Guarded-pure, Guarded-bind, Guarded-call, Guarded-if}
use tns_csi.Volume.{VolumeMetadata}
use tns_csi.Delete.Ownership.{forget_presentation_ids}
use tns_csi.Delete.Datasets.{fatal}
use tns_csi.Delete.Iscsi.{
  PresentationError, step, delete_target_extents, with_target_extents, delete_owned_target,
  delete_owned_extent, delete_iscsi_objects,
}
use tns_csi.Delete.Grounds.{volume_of, Cleared, TargetSeen, ExtentSeen, Needs}
use tns_csi.Delete.Authorized.Datasets.{forget-Guarded}

module _ {B : Backend} (meta : VolumeMetadata) (known : List Event) where
  step-Guarded :
      (e : Option Err) (next : M B (Option PresentationError))
      → Guarded (Needs (volume_of false meta)) known next
      → Guarded (Needs (volume_of false meta)) known (step e next)
  step-Guarded e next g = Guarded-if (fatal e) _ _ (λ _. Guarded-pure _) (λ _. g)

  module _ (clear : (log : List Event) → Knows known log → Cleared (volume_of false meta) log)
      (seen : (log : List Event)
        → Knows known log
        → TargetSeen (volume_of false meta) meta.iscsi_target_id log) where
    delete_target_extents-Guarded :
        (tes : List TargetExtent) (next : M B (Option PresentationError))
        → Guarded (Needs (volume_of false meta)) known next
        → Guarded (Needs (volume_of false meta)) known (delete_target_extents tes next)
    unfolding delete_target_extents
    delete_target_extents-Guarded [] next g = g
    delete_target_extents-Guarded (te ∷ tes) next g =
        Guarded-bind _ _
          (Guarded-call (Backend.delete_iscsi_target_extent te.id)
            (λ log k. (clear log k, (meta.iscsi_target_id, seen log k))))
          (λ e. step-Guarded e _ (delete_target_extents-Guarded tes next g))

    with_target_extents-Guarded :
        (r : Result Err (List TargetExtent)) (next : M B (Option PresentationError))
        → Guarded (Needs (volume_of false meta)) known next
        → Guarded (Needs (volume_of false meta)) known (with_target_extents r next)
    unfolding with_target_extents
    with_target_extents-Guarded (ok tes) next g = delete_target_extents-Guarded tes next g
    with_target_extents-Guarded (err e) next g = step-Guarded (some e) next g

    delete_owned_target-Guarded :
        (next : M B (Option PresentationError))
        → Guarded (Needs (volume_of false meta)) known next
        → Guarded (Needs (volume_of false meta)) known (delete_owned_target meta next)
    unfolding delete_owned_target
    delete_owned_target-Guarded next g =
        Guarded-bind _ _
          (Guarded-call (Backend.iscsi_target_extent_by_target meta.iscsi_target_id) (λ _ _. tt))
          (λ r. with_target_extents-Guarded r _ (
            Guarded-bind _ _
              (Guarded-call (Backend.delete_iscsi_target meta.iscsi_target_id)
                (λ log k. (clear log k, seen log k)))
              (λ e. step-Guarded e _ (
                Guarded-bind _ _ (forget-Guarded meta known (λ log k. (clear log k).0) _)
                  (λ _. g)))))

  delete_owned_extent-Guarded :
      ((log : List Event) → Knows known log → Cleared (volume_of false meta) log)
      → ((log : List Event)
          → Knows known log
          → ExtentSeen (volume_of false meta) meta.iscsi_extent_id log)
      → Guarded {B = B} (Needs (volume_of false meta)) known (delete_owned_extent meta)
  unfolding delete_owned_extent
  delete_owned_extent-Guarded clear seen =
      Guarded-bind _ _
        (Guarded-call (Backend.delete_iscsi_extent meta.iscsi_extent_id)
          (λ log k. (clear log k, seen log k)))
        (λ e. step-Guarded e _ (
          Guarded-bind _ _ (forget-Guarded meta known (λ log k. (clear log k).0) _)
            (λ _. Guarded-pure none)))

  pub delete_iscsi_objects-Guarded :
      (target_owned extent_owned : Bool)
      → ((log : List Event) → Knows known log → Cleared (volume_of false meta) log)
      → (target_owned ≡ true
          → (log : List Event) → Knows known log
          → TargetSeen (volume_of false meta) meta.iscsi_target_id log)
      → (extent_owned ≡ true
          → (log : List Event) → Knows known log
          → ExtentSeen (volume_of false meta) meta.iscsi_extent_id log)
      → Guarded {B = B}
          (Needs (volume_of false meta))
          known
          (delete_iscsi_objects meta target_owned extent_owned)
  unfolding delete_iscsi_objects
  delete_iscsi_objects-Guarded target_owned extent_owned clear target extent =
      Guarded-bind _ _ (forget_if _ property_iscsi_target_id) (λ _.
        Guarded-bind _ _ (forget_if _ property_iscsi_extent_id) (λ _.
          Guarded-if target_owned _ _ (λ t. delete_owned_target-Guarded clear (target t) _ rest)
            (λ _. rest)))
    where
      forget_if :
          (b : Bool) (key : Str)
          → Guarded {B = B}
              (Needs (volume_of false meta))
              known
              (if b then forget_presentation_ids meta.dataset_id (key ∷ []) else pure tt)
      forget_if b key =
          Guarded-if b _ _ (λ _. forget-Guarded meta known (λ log k. (clear log k).0) _)
            (λ _. Guarded-pure tt)

      rest :
          Guarded {B = B}
            (Needs (volume_of false meta))
            known
            (if extent_owned then delete_owned_extent meta else pure none)
      rest =
          Guarded-if extent_owned _ _ (λ e. delete_owned_extent-Guarded clear (extent e))
            (λ _. Guarded-pure none)
