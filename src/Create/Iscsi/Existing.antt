-- ===== src/Create/Iscsi/Existing.antt =====
-- The search for an iSCSI volume that is already there (pkg/driver/controller_iscsi.go).
use tns_csi.Common.{
  Str, str_eq, is_empty, get, Map, ℤ, is_positive, int_eq, Option, none, some, Bool, true, false,
  not, ◌||◌, List, [], ◌∷◌, ◌++◌, Result, ok, err, if◌then◌else◌,
}
use tns_csi.Codes.{Code, internal, already_exists}
use tns_csi.Errors.{Err}
use tns_csi.Properties.{
  string_to_int, property_iscsi_target_id, property_iscsi_extent_id, property_iscsi_iqn,
}
use tns_csi.Backend
use tns_csi.Backend.{DatasetInfo, IscsiTarget, IscsiExtent, Backend, M, pure, ◌>>=◌, ◌>>◌, call}
use tns_csi.Create.Request.{Setup, CreatedVolume, ensure_properties, record_properties}
use tns_csi.Create.Iscsi.Objects.{
  IscsiVolumeParams, zvol_disk, get_zvol_capacity, build_iscsi_volume_response, iscsi_properties,
}
use tns_csi.Create.Iscsi.Steps.{iscsi_target_maps_extent}

-- storedISCSIIDs: the target, the extent and the IQN.
pub record StoredIds : Type 0 where
  pub target_id : ℤ
  pub extent_id : ℤ
  pub iqn : Str

abbrev stored_names : List Str
stored_names = property_iscsi_target_id ∷ property_iscsi_extent_id ∷ property_iscsi_iqn ∷ []

abbrev pub stored_ids : Map Str → StoredIds
stored_ids props = record {
  target_id = string_to_int (get property_iscsi_target_id props);
  extent_id = string_to_int (get property_iscsi_extent_id props);
  iqn = get property_iscsi_iqn props;
}

-- The result of a lookup: an error, nothing, or the volume that is already there.
abbrev pub Lookup : Type 0
Lookup = Result Code (Option CreatedVolume)

-- A stored target with another layout is passed over.
abbrev stored_mapping : Result Code Bool → Result Code Bool
stored_mapping (err already_exists) = ok false
stored_mapping r = r

-- The capacity that is returned for an existing ZVOL, or an error.
abbrev pub agreed_capacity : ℤ → DatasetInfo → Result Code ℤ
agreed_capacity requested d =
    if is_positive (get_zvol_capacity d)
    then (if int_eq (get_zvol_capacity d) requested then ok requested else err already_exists)
    else ok requested

-- The server returns the name of a target without the base name.
abbrev pub full_iqn : Str → IscsiTarget → Str
full_iqn basename target = basename ++ b':' ∷ target.name

module _ {B : Backend} (env : Setup) where
  -- ensureISCSIProperties
  unfoldable pub ensure_iscsi_properties : Str → IscsiVolumeParams → ℤ → ℤ → Str → M B (Unit {0})
  ensure_iscsi_properties id p target_id extent_id iqn =
      ensure_properties id (property_iscsi_target_id ∷ property_iscsi_extent_id ∷ [])
        (record_properties id (iscsi_properties env p target_id extent_id iqn))

  module _ (p : IscsiVolumeParams) (zvol : DatasetInfo) (capacity : ℤ) where
    unfoldable pub existing_iscsi_volume : IscsiTarget → IscsiExtent → Str → M B Lookup
    existing_iscsi_volume target extent iqn =
        ensure_iscsi_properties zvol.id p target.id extent.id iqn
        >> pure (ok (some (build_iscsi_volume_response p.settings iqn zvol target extent capacity)))

    -- findISCSIVolumeByStoredProperties
    abbrev pub stored_mapped : IscsiTarget → IscsiExtent → Str → Result Code Bool → M B Lookup
    stored_mapped target extent iqn (err c) = pure (err c)
    stored_mapped target extent iqn (ok false) = pure (ok none)
    stored_mapped target extent iqn (ok true) = existing_iscsi_volume target extent iqn

    abbrev pub stored_found : Str → List IscsiTarget → Result Err (List IscsiExtent) → M B Lookup
    stored_found iqn targets (err e) = pure (err internal)
    stored_found iqn [] (ok extents) = pure (ok none)
    stored_found iqn (target ∷ _) (ok []) = pure (ok none)
    stored_found iqn (target ∷ _) (ok (extent ∷ _)) =
        if str_eq extent.disk (zvol_disk p)
        then (iscsi_target_maps_extent target.id extent.id >>= λ r.
            stored_mapped target extent iqn (stored_mapping r))
        else pure (ok none)

    abbrev pub stored_target_found : StoredIds → Result Err (List IscsiTarget) → M B Lookup
    stored_target_found ids (err e) = pure (err internal)
    stored_target_found ids (ok targets) =
        call (Backend.query_iscsi_extents ids.extent_id) >>= stored_found ids.iqn targets

    unfoldable pub stored_ids_read : Result Err (Map Str) → M B Lookup
    stored_ids_read (err e) = pure (err internal)
    stored_ids_read (ok props) =
        let ids = stored_ids props in
        if not (is_positive ids.target_id) || not (is_positive ids.extent_id) || is_empty ids.iqn
        then pure (ok none)
        else call (Backend.query_iscsi_targets ids.target_id) >>= stored_target_found ids

    unfoldable pub find_iscsi_volume_by_stored_properties : M B Lookup
    find_iscsi_volume_by_stored_properties =
        call (Backend.get_dataset_properties zvol.id stored_names) >>= stored_ids_read

    -- The rest of handleExistingISCSIVolume, after the capacity.
    abbrev pub configured : IscsiTarget → IscsiExtent → Result Err Str → M B Lookup
    configured target extent (err e) = pure (err internal)
    configured target extent (ok basename) =
        existing_iscsi_volume target extent (full_iqn basename target)

    abbrev pub mapped_by_name : IscsiTarget → IscsiExtent → Result Code Bool → M B Lookup
    mapped_by_name target extent (err c) = pure (err c)
    mapped_by_name target extent (ok false) = pure (ok none)
    mapped_by_name target extent (ok true) =
        call Backend.get_iscsi_global_config >>= configured target extent

    unfoldable pub extent_by_name : IscsiTarget → Result Err (Option IscsiExtent) → M B Lookup
    extent_by_name target (err e) = pure (ok none)
    extent_by_name target (ok none) = pure (ok none)
    extent_by_name target (ok (some extent)) =
        if str_eq extent.disk (zvol_disk p)
        then (iscsi_target_maps_extent target.id extent.id >>= mapped_by_name target extent)
        else pure (ok none)

    unfoldable pub target_by_name : Result Err (Option IscsiTarget) → M B Lookup
    target_by_name (err e) = find_iscsi_volume_by_stored_properties
    target_by_name (ok none) = find_iscsi_volume_by_stored_properties
    target_by_name (ok (some target)) =
        call (Backend.iscsi_extent_by_name p.settings.volume_name) >>= extent_by_name target

  abbrev pub with_capacity : IscsiVolumeParams → DatasetInfo → Result Code ℤ → M B Lookup
  with_capacity p zvol (err c) = pure (err c)
  with_capacity p zvol (ok capacity) =
      call (Backend.iscsi_target_by_name p.settings.volume_name) >>= target_by_name p zvol capacity

  unfoldable pub handle_existing_iscsi_volume : IscsiVolumeParams → DatasetInfo → M B Lookup
  handle_existing_iscsi_volume p zvol =
      with_capacity p zvol (agreed_capacity p.settings.requested_capacity zvol)
