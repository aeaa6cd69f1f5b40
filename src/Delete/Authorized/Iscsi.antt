-- ===== src/Delete/Authorized/Iscsi.antt =====
-- The grounds of the calls of deleteISCSIVolume.
mod Objects
use tns_csi.Common.{
  Str, is_empty, ℤ, is_zero, Bool, true, false, Option, none, some, List, [], ◌∷◌, Result, ok, err,
  ◌≡◌, ◌⊎◌, inr, if◌then◌else◌,
}
use tns_csi.Codes.{Code}
use tns_csi.Errors.{Err}
use tns_csi.Properties.{property_iscsi_target_id, property_iscsi_extent_id}
use tns_csi.Backend
use tns_csi.Backend.{
  IscsiTarget, IscsiExtent, Event, did, Backend, Driver, M, pure, ◌>>=◌, ◌>>◌, call,
}
use tns_csi.Backend.Guarded.{
  Justified, Knows, Guarded, Guarded-pure, Guarded-bind, Guarded-call, Guarded-if, Guarded-ask,
}
use tns_csi.Volume.{VolumeMetadata}
use tns_csi.Delete.Ownership.{
  VolumeOwnership, forget_presentation_ids, owned_iscsi_target, owned_iscsi_extent, owns_target,
  owns_extent, map_ok,
}
use tns_csi.Delete.Datasets.{fatal}
use tns_csi.Delete.Files.{is_retained}
use tns_csi.Delete.Iscsi.{
  PresentationError, reconcile_iscsi, step, delete_target_extents, with_target_extents,
  delete_owned_target, delete_owned_extent, delete_iscsi_objects, extent_looked_up,
  target_looked_up, delete_iscsi_presentation, delete_iscsi_zvol, delete_iscsi_resources,
  iscsi_owned, delete_iscsi_volume,
}
use tns_csi.Delete.Grounds.{volume_of, Owned, Cleared, TargetSeen, ExtentSeen, Needs}
use tns_csi.Delete.Evidence.{owns_target-any, owns_extent-any}
use tns_csi.Delete.Authorized.Datasets.{
  forget-Guarded, snapshot_guard-Guarded, read_volume_ownership-Guarded,
  delete_dataset_with_fallback-Guarded,
}
use tns_csi.Delete.Authorized.Iscsi.Objects.{delete_iscsi_objects-Guarded}

module _ {B : Backend} (meta : VolumeMetadata) where
  after_extent-Guarded :
      (known : List Event) (target_owned : Bool)
      → ((log : List Event) → Knows known log → Cleared (volume_of false meta) log)
      → (target_owned ≡ true
          → (log : List Event) → Knows known log
          → TargetSeen (volume_of false meta) meta.iscsi_target_id log)
      → (r : Result Err (List IscsiExtent))
      → Guarded {B = B}
          (Needs (volume_of false meta))
          (did (Backend.query_iscsi_extents meta.iscsi_extent_id) r ∷ known)
          (extent_looked_up meta target_owned (map_ok (owns_extent meta) r))
  unfolding extent_looked_up
  after_extent-Guarded known target_owned clear target (err e) = Guarded-pure _
  after_extent-Guarded known target_owned clear target (ok es) =
      delete_iscsi_objects-Guarded meta _ target_owned (owns_extent meta es)
        (λ log k. clear log k.1) (λ t log k. target t log k.1)
        (λ e log k. (es, k.0, owns_extent-any meta es e))

  extent_looked_up-Guarded :
      (known : List Event) (target_owned : Bool)
      → ((log : List Event) → Knows known log → Cleared (volume_of false meta) log)
      → (target_owned ≡ true
          → (log : List Event) → Knows known log
          → TargetSeen (volume_of false meta) meta.iscsi_target_id log)
      → Guarded {B = B}
          (Needs (volume_of false meta))
          known
          (owned_iscsi_extent meta >>= extent_looked_up meta target_owned)
  unfolding owned_iscsi_extent extent_looked_up
  extent_looked_up-Guarded known target_owned clear target =
      Guarded-ask (is_zero meta.iscsi_extent_id) (ok false)
        (Backend.query_iscsi_extents meta.iscsi_extent_id) (map_ok (owns_extent meta)) _ (λ _ _. tt)
        no_extent (after_extent-Guarded known target_owned clear target)
    where
      no_extent :
          Guarded {B = B}
            (Needs (volume_of false meta))
            known
            (extent_looked_up meta target_owned (ok false))
      no_extent = delete_iscsi_objects-Guarded meta known target_owned false clear target (λ e. cc)

  after_target-Guarded :
      (known : List Event)
      → ((log : List Event) → Knows known log → Cleared (volume_of false meta) log)
      → (r : Result Err (List IscsiTarget))
      → Guarded {B = B}
          (Needs (volume_of false meta))
          (did (Backend.query_iscsi_targets meta.iscsi_target_id) r ∷ known)
          (target_looked_up meta (map_ok (owns_target meta) r))
  unfolding target_looked_up
  after_target-Guarded known clear (err e) = Guarded-pure _
  after_target-Guarded known clear (ok ts) =
      extent_looked_up-Guarded _ (owns_target meta ts) (λ log k. clear log k.1)
        (λ t log k. (ts, k.0, owns_target-any meta ts t))

  delete_iscsi_presentation-Guarded :
      (known : List Event)
      → ((log : List Event) → Knows known log → Cleared (volume_of false meta) log)
      → Guarded {B = B} (Needs (volume_of false meta)) known (delete_iscsi_presentation meta)
  unfolding delete_iscsi_presentation owned_iscsi_target target_looked_up
  delete_iscsi_presentation-Guarded known clear =
      Guarded-ask (is_zero meta.iscsi_target_id) (ok false)
        (Backend.query_iscsi_targets meta.iscsi_target_id) (map_ok (owns_target meta)) _ (λ _ _. tt)
        no_target (after_target-Guarded known clear)
    where
      no_target :
          Guarded {B = B} (Needs (volume_of false meta)) known (target_looked_up meta (ok false))
      no_target = extent_looked_up-Guarded known false clear (λ e. cc)

  delete_iscsi_zvol-Guarded :
      (known : List Event)
      → ((log : List Event) → Knows known log → Cleared (volume_of false meta) log)
      → (e : Option PresentationError)
      → Guarded {B = B} (Needs (volume_of false meta)) known (delete_iscsi_zvol meta e)
  unfolding delete_iscsi_zvol
  delete_iscsi_zvol-Guarded known clear (some e) = Guarded-pure _
  delete_iscsi_zvol-Guarded known clear none =
      Guarded-if (is_empty meta.dataset_id) _ _ (λ _. Guarded-pure none)
        (λ _. delete_dataset_with_fallback-Guarded meta known clear _)

  delete_iscsi_resources-Guarded :
      (known : List Event)
      → is_empty meta.dataset_id ≡ false
      → ((log : List Event) → Knows known log → Owned false meta.name meta.dataset_id log)
      → Guarded {B = B} (Needs (volume_of false meta)) known (delete_iscsi_resources meta)
  unfolding delete_iscsi_resources
  delete_iscsi_resources-Guarded known named own = rw named (
      snapshot_guard-Guarded meta known own _ (λ known' clear.
        Guarded-bind _ _ (delete_iscsi_presentation-Guarded known' clear)
          (delete_iscsi_zvol-Guarded known' clear)))

module _ {B : Backend} (meta : VolumeMetadata) (named : is_empty meta.dataset_id ≡ false) where
  -- The identity of the volume is the same for the reconciled IDs.
  iscsi_owned-Guarded :
      (known : List Event) (o : VolumeOwnership)
      → ((false ≡ true) ⊎ (o.not_found ≡ false)
          → is_retained o.delete_strategy ≡ false
          → (log : List Event) → Knows known log
          → Owned false meta.name meta.dataset_id log)
      → Guarded {B = B} (Needs (volume_of false meta)) known (iscsi_owned meta (ok o))
  unfolding iscsi_owned reconcile_iscsi
  iscsi_owned-Guarded known o own =
      Guarded-if o.not_found _ _ (λ _. Guarded-pure none)
        (λ there.
          Guarded-if (is_retained o.delete_strategy) _ _ (λ _. Guarded-pure none)
            (λ kept.
              delete_iscsi_resources-Guarded (reconcile_iscsi meta o.props) known named
                (own (inr there) kept)))

  iscsi_refused :
      (known : List Event) (c : Code)
      → Guarded {B = B} (Needs (volume_of false meta)) known (iscsi_owned meta (err c))
  unfolding iscsi_owned
  iscsi_refused known c = Guarded-pure (some c)

  iscsi-Guarded : Guarded {B = B} (Needs (volume_of false meta)) [] (delete_iscsi_volume meta)
  unfolding delete_iscsi_volume
  iscsi-Guarded =
      read_volume_ownership-Guarded meta (property_iscsi_target_id ∷ property_iscsi_extent_id ∷ [])
        (iscsi_owned meta) iscsi_refused iscsi_owned-Guarded

-- Whatever the server answers, every call that deletes an iSCSI volume with a dataset ID has its
-- grounds in the replies before it: a target, an extent, a mapping or a snapshot is deleted, a
-- clone promoted and the ZVOL deleted only after the server had returned the ZVOL's properties (the
-- answer that it is not found is not enough), in which the manager is this driver if one is recorded,
-- the volume name is this volume's if one is recorded, and the strategy is not to retain it, and had
-- returned a list of snapshots without a live CSI snapshot; a target only if the server had shown it under its ID with the volume's name or IQN, an
-- extent only if the server had shown it under its ID with the volume's ZVOL as its disk.
pub delete_iscsi_volume-Justified :
    {B : Backend} (meta : VolumeMetadata) (s : Driver B)
    → is_empty meta.dataset_id ≡ false
    → s.log ≡ []
    → Justified (Needs (volume_of false meta)) (delete_iscsi_volume meta s).1.log
delete_iscsi_volume-Justified meta s named fresh =
    ((iscsi-Guarded meta named).at s tt (rw fresh tt)).0
