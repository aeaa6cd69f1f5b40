-- ===== src/Create/Iscsi.antt =====
-- createISCSIVolume (pkg/driver/controller_iscsi.go).
pub mod Objects
pub mod Steps
pub mod Existing
use tns_csi.Common.{
  Str, str, str_eq, is_empty, get, Map, ℤ, is_positive, int_eq, Option, none, some, Bool, true,
  false, not, ◌&&◌, ◌||◌, List, [], ◌∷◌, ◌++◌, Result, ok, err, if◌then◌else◌,
}
use tns_csi.Codes.{Code, internal, already_exists}
use tns_csi.Errors.{Err}
use tns_csi.Properties.{
  string_to_int, property_iscsi_target_id, property_iscsi_extent_id, property_iscsi_iqn,
}
use tns_csi.Backend
use tns_csi.Backend.{DatasetInfo, IscsiTarget, IscsiExtent, Backend, M, pure, ◌>>=◌, ◌>>◌, call}
use tns_csi.Create.Request.{
  CreateVolumeRequest, Setup, CreatedVolume, create_volume_error, query_exact_dataset,
  ensure_properties, record_properties,
}
use tns_csi.Create.Files.{MadeDataset, existing, new, info, made}
use tns_csi.Create.Iscsi.Objects.{
  IscsiVolumeParams, zvol_disk, get_zvol_capacity, build_iscsi_volume_response, Obtained,
  IscsiCreated, zvol_created, extent_created, target_created, validate_iscsi_params,
  iscsi_zvol_create_params, iscsi_properties,
}
use tns_csi.Create.Iscsi.Steps.{
  when, cleanup_iscsi_create, extent_looked_up, get_or_create_iscsi_extent, resolve_portal,
  resolve_initiator, with_initiator, with_portal, target_looked_up, get_or_create_iscsi_target,
  iscsi_target_maps_extent, map_unless, ensure_iscsi_target_extent,
}
use tns_csi.Create.Iscsi.Existing.{
  stored_ids, Lookup, agreed_capacity, full_iqn, ensure_iscsi_properties, existing_iscsi_volume,
  stored_mapped, stored_found, stored_target_found, stored_ids_read,
  find_iscsi_volume_by_stored_properties, configured, mapped_by_name, extent_by_name,
  target_by_name, with_capacity, handle_existing_iscsi_volume, StoredIds,
}

module _ {B : Backend} (env : Setup) where
  unfoldable pub get_or_create_zvol_for_iscsi :
      IscsiVolumeParams → Option DatasetInfo → M B (Result Code MadeDataset)
  get_or_create_zvol_for_iscsi p (some d) = pure (ok (existing d))
  get_or_create_zvol_for_iscsi p none =
      call (Backend.create_zvol (iscsi_zvol_create_params env p)) >>= λ r. pure (made r)

  -- The steps of createISCSIVolume from the last to the first. A failure cleans up what this call
  -- has created before.
  unfoldable pub finish_iscsi :
      IscsiVolumeParams
      → Str
      → DatasetInfo
      → IscsiTarget
      → IscsiExtent
      → M B (Result Code CreatedVolume)
  finish_iscsi p basename zvol target extent =
      let iqn = full_iqn basename target in
      call Backend.reload_iscsi_service >>= λ e.
      record_properties zvol.id (iscsi_properties env p target.id extent.id iqn)
      >> pure (
          ok (
            build_iscsi_volume_response p.settings iqn zvol target extent
              p.settings.requested_capacity))

  abbrev pub fail_with : IscsiCreated → Code → M B (Result Code CreatedVolume)
  fail_with created c = cleanup_iscsi_create created >> pure (err c)

  unfoldable pub associated :
      IscsiVolumeParams
      → Str
      → DatasetInfo
      → IscsiTarget
      → IscsiExtent
      → IscsiCreated
      → Option Code
      → M B (Result Code CreatedVolume)
  associated p basename zvol target extent created (some c) = fail_with created c
  associated p basename zvol target extent created none = finish_iscsi p basename zvol target extent

  unfoldable pub target_obtained :
      IscsiVolumeParams
      → Str
      → DatasetInfo
      → IscsiExtent
      → IscsiCreated
      → Result Code (Obtained IscsiTarget)
      → M B (Result Code CreatedVolume)
  target_obtained p basename zvol extent created (err c) = fail_with created c
  target_obtained p basename zvol extent created (ok o) =
      ensure_iscsi_target_extent o.object.id extent.id
      >>= associated p basename zvol o.object extent (target_created o created)

  unfoldable pub extent_obtained :
      IscsiVolumeParams
      → Str
      → DatasetInfo
      → IscsiCreated
      → Result Code (Obtained IscsiExtent)
      → M B (Result Code CreatedVolume)
  extent_obtained p basename zvol created (err c) = fail_with created c
  extent_obtained p basename zvol created (ok o) =
      get_or_create_iscsi_target p
      >>= target_obtained p basename zvol o.object (extent_created o created)

  unfoldable pub zvol_obtained :
      IscsiVolumeParams → Str → Result Code MadeDataset → M B (Result Code CreatedVolume)
  zvol_obtained p basename (err c) = pure (err c)
  zvol_obtained p basename (ok m) =
      get_or_create_iscsi_extent p >>= extent_obtained p basename (info m) (zvol_created m)

  unfoldable pub make_iscsi_volume :
      IscsiVolumeParams → Str → Option DatasetInfo → M B (Result Code CreatedVolume)
  make_iscsi_volume p basename old = get_or_create_zvol_for_iscsi p old >>= zvol_obtained p basename

  abbrev after_existing_iscsi :
      IscsiVolumeParams → Str → DatasetInfo → Lookup → M B (Result Code CreatedVolume)
  after_existing_iscsi p basename d (err c) = pure (err c)
  after_existing_iscsi p basename d (ok (some v)) = pure (ok v)
  after_existing_iscsi p basename d (ok none) = make_iscsi_volume p basename (some d)

  unfoldable pub iscsi_zvol_queried :
      IscsiVolumeParams → Str → Result Err (Option DatasetInfo) → M B (Result Code CreatedVolume)
  iscsi_zvol_queried p basename (err e) = pure (err internal)
  iscsi_zvol_queried p basename (ok none) = make_iscsi_volume p basename none
  iscsi_zvol_queried p basename (ok (some d)) =
      handle_existing_iscsi_volume env p d >>= after_existing_iscsi p basename d

  abbrev pub iscsi_configured : IscsiVolumeParams → Result Err Str → M B (Result Code CreatedVolume)
  iscsi_configured p (err e) = pure (err internal)
  iscsi_configured p (ok basename) =
      query_exact_dataset p.settings.dataset_name >>= iscsi_zvol_queried p basename

  abbrev pub iscsi_validated : Result Code IscsiVolumeParams → M B (Result Code CreatedVolume)
  iscsi_validated (err c) = pure (err c)
  iscsi_validated (ok p) = call Backend.get_iscsi_global_config >>= iscsi_configured p

  unfoldable pub create_iscsi_volume : CreateVolumeRequest → M B (Result Code CreatedVolume)
  create_iscsi_volume req = iscsi_validated (validate_iscsi_params env req)
