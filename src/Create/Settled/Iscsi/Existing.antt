-- ===== src/Create/Settled/Iscsi/Existing.antt =====
-- The search of createISCSIVolume (pkg/driver/controller_iscsi.go) for a volume that is already there:
-- it neither creates nor deletes an object.
use tns_csi.Common.{
  Str, ℤ, Bool, true, false, Option, none, some, Map, List, [], ◌∷◌, Result, ok, err, refl,
}
use tns_csi.Codes.{Code}
use tns_csi.Errors.{Err}
use tns_csi.Backend
use tns_csi.Backend.{
  DatasetInfo, IscsiTarget, IscsiExtent, TargetExtent, NvmeofSubsystem, NvmeofNamespace, Event, did,
  Backend, Driver, M, pure, ◌>>=◌, ◌>>◌, call,
}
use tns_csi.Backend.Ledger.{effect}
use tns_csi.Backend.Settles.{Quiet, Quiet-pure, Quiet-call, Quiet-bind, Quiet-if}
use tns_csi.Create.Request.{Setup}
use tns_csi.Create.Settled.Datasets.{record_properties-Quiet, ensure_properties-Quiet}
use tns_csi.Create.Iscsi.Objects.{IscsiVolumeParams}
use tns_csi.Create.Iscsi.Existing.{
  StoredIds, stored_ids, ensure_iscsi_properties, existing_iscsi_volume, stored_mapped,
  stored_found, stored_target_found, stored_ids_read, find_iscsi_volume_by_stored_properties,
  configured, mapped_by_name, extent_by_name, target_by_name, with_capacity,
  handle_existing_iscsi_volume,
}
use tns_csi.Create.Settled.Iscsi.Steps.{iscsi_target_maps_extent-Quiet}

module _ {B : Backend} (env : Setup) (p : IscsiVolumeParams) (d : DatasetInfo) (capacity : ℤ) where
  existing_iscsi_volume-Quiet :
      (t : IscsiTarget) (e : IscsiExtent) (iqn : Str)
      → Quiet {B = B} (existing_iscsi_volume env p d capacity t e iqn)
  unfolding existing_iscsi_volume ensure_iscsi_properties
  existing_iscsi_volume-Quiet t e iqn =
      Quiet-bind _ _ (ensure_properties-Quiet _ (record_properties-Quiet _ _) _ _)
        (λ _. Quiet-pure _)

  stored_mapped-Quiet :
      (t : IscsiTarget) (e : IscsiExtent) (iqn : Str) (r : Result Code Bool)
      → Quiet {B = B} (stored_mapped env p d capacity t e iqn r)
  stored_mapped-Quiet t e iqn (err c) = Quiet-pure _
  stored_mapped-Quiet t e iqn (ok false) = Quiet-pure _
  stored_mapped-Quiet t e iqn (ok true) = existing_iscsi_volume-Quiet t e iqn

  stored_found-Quiet :
      (iqn : Str) (ts : List IscsiTarget) (r : Result Err (List IscsiExtent))
      → Quiet {B = B} (stored_found env p d capacity iqn ts r)
  stored_found-Quiet iqn ts (err e) = Quiet-pure _
  stored_found-Quiet iqn [] (ok es) = Quiet-pure _
  stored_found-Quiet iqn (t ∷ ts) (ok []) = Quiet-pure _
  stored_found-Quiet iqn (t ∷ ts) (ok (e ∷ es)) =
      Quiet-if _ _ _
        (Quiet-bind _ _ (iscsi_target_maps_extent-Quiet t.id e.id)
          (λ r. stored_mapped-Quiet t e iqn _))
        (Quiet-pure _)

  stored_target_found-Quiet :
      (ids : StoredIds) (r : Result Err (List IscsiTarget))
      → Quiet {B = B} (stored_target_found env p d capacity ids r)
  unfolding effect
  stored_target_found-Quiet ids (err e) = Quiet-pure _
  stored_target_found-Quiet ids (ok ts) =
      Quiet-bind _ _ (Quiet-call (Backend.query_iscsi_extents ids.extent_id) (λ r. refl))
        (stored_found-Quiet ids.iqn ts)

  stored_ids_read-Quiet :
      (r : Result Err (Map Str)) → Quiet {B = B} (stored_ids_read env p d capacity r)
  unfolding stored_ids_read effect
  stored_ids_read-Quiet (err e) = Quiet-pure _
  stored_ids_read-Quiet (ok props) = Quiet-if _ _ _ (Quiet-pure _) (
      Quiet-bind _ _ (Quiet-call (Backend.query_iscsi_targets _) (λ r. refl))
        (stored_target_found-Quiet (stored_ids props)))

  stored-Quiet : Quiet {B = B} (find_iscsi_volume_by_stored_properties env p d capacity)
  unfolding find_iscsi_volume_by_stored_properties effect
  stored-Quiet =
      Quiet-bind _ _ (Quiet-call (Backend.get_dataset_properties d.id _) (λ r. refl))
        stored_ids_read-Quiet

  configured-Quiet :
      (t : IscsiTarget) (e : IscsiExtent) (r : Result Err Str)
      → Quiet {B = B} (configured env p d capacity t e r)
  configured-Quiet t e (err x) = Quiet-pure _
  configured-Quiet t e (ok basename) = existing_iscsi_volume-Quiet t e _

  mapped_by_name-Quiet :
      (t : IscsiTarget) (e : IscsiExtent) (r : Result Code Bool)
      → Quiet {B = B} (mapped_by_name env p d capacity t e r)
  unfolding effect
  mapped_by_name-Quiet t e (err c) = Quiet-pure _
  mapped_by_name-Quiet t e (ok false) = Quiet-pure _
  mapped_by_name-Quiet t e (ok true) =
      Quiet-bind _ _ (Quiet-call Backend.get_iscsi_global_config (λ r. refl)) (configured-Quiet t e)

  extent_by_name-Quiet :
      (t : IscsiTarget) (r : Result Err (Option IscsiExtent))
      → Quiet {B = B} (extent_by_name env p d capacity t r)
  unfolding extent_by_name
  extent_by_name-Quiet t (err e) = Quiet-pure _
  extent_by_name-Quiet t (ok none) = Quiet-pure _
  extent_by_name-Quiet t (ok (some e)) =
      Quiet-if _ _ _
        (Quiet-bind _ _ (iscsi_target_maps_extent-Quiet t.id e.id) (mapped_by_name-Quiet t e))
        (Quiet-pure _)

  pub target_by_name-Quiet :
      (r : Result Err (Option IscsiTarget)) → Quiet {B = B} (target_by_name env p d capacity r)
  unfolding target_by_name effect
  target_by_name-Quiet (err e) = stored-Quiet
  target_by_name-Quiet (ok none) = stored-Quiet
  target_by_name-Quiet (ok (some t)) =
      Quiet-bind _ _ (Quiet-call (Backend.iscsi_extent_by_name _) (λ r. refl))
        (extent_by_name-Quiet t)

module _ {B : Backend} (env : Setup) (p : IscsiVolumeParams) (d : DatasetInfo) where
  with_capacity-Quiet : (r : Result Code ℤ) → Quiet {B = B} (with_capacity env p d r)
  unfolding effect
  with_capacity-Quiet (err c) = Quiet-pure _
  with_capacity-Quiet (ok capacity) =
      Quiet-bind _ _ (Quiet-call (Backend.iscsi_target_by_name _) (λ r. refl))
        (target_by_name-Quiet env p d capacity)

  pub handle_existing_iscsi_volume-Quiet : Quiet {B = B} (handle_existing_iscsi_volume env p d)
  unfolding handle_existing_iscsi_volume
  handle_existing_iscsi_volume-Quiet = with_capacity-Quiet _
