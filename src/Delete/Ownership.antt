-- ===== src/Delete/Ownership.antt =====
-- pkg/driver/volume_delete.go: the checks that authorize a deletion.
use tns_csi.Common.{
  Str, str, str_eq, is_empty, has_suffix, trim_prefix, path_base, Map, lookup, get, insert,
  is_positive, is_zero, int_eq, Option, none, some, Bool, true, false, not, ◌&&◌, ◌||◌, List, [],
  ◌∷◌, ◌++◌, Result, ok, err, if◌then◌else◌,
}
use tns_csi.Codes.{Code, failed_precondition, unavailable}
use tns_csi.Errors.{Err, is_not_found}
use tns_csi.Properties.{
  property_managed_by, managed_by_value, property_csi_volume_name, property_delete_strategy,
  delete_strategy_delete,
}
use tns_csi.Backend
use tns_csi.Backend.{
  Dataset, IscsiTarget, IscsiExtent, NvmeofNamespace, NvmeofSubsystem, Backend, M, pure, ◌>>=◌,
  ◌>>◌, call,
}
use tns_csi.Volume.{VolumeMetadata, is_dataset_path_volume_id}

-- The dataset at a volume ID that no managed volume has: `none` where the deletion may report
-- success.
unmanaged : Result Err (Option Dataset) → Option Code
unmanaged (err e) = some unavailable
unmanaged (ok none) = none
unmanaged (ok (some d)) = some failed_precondition

unfoldable pub check_unmanaged_dataset_at_volume_id : {B : Backend} → Str → M B (Option Code)
unfolding unmanaged
check_unmanaged_dataset_at_volume_id volume_id =
    if not (is_dataset_path_volume_id volume_id)
    then pure none
    else call (Backend.get_dataset_with_properties volume_id) >>= λ r. pure (unmanaged r)

pub record VolumeOwnership : Type 0 where
  pub props : Map Str
  pub delete_strategy : Str
  pub not_found : Bool

abbrev pub foreign_manager : Option Str → Bool
foreign_manager none = false
foreign_manager (some v) = not (str_eq v managed_by_value)

-- The stored volume name is another one than the volume ID, or the last part of its path.
unfoldable pub other_volume : Str → Option Str → Bool
other_volume name none = false
other_volume name (some stored) =
    not (str_eq stored name)
    && (not (is_dataset_path_volume_id name) || not (has_suffix name (str "/" ++ stored)))

-- `if strategy := props[…]; strategy != ""`
abbrev pub strategy_or_delete : Str → Str
strategy_or_delete [] = delete_strategy_delete
strategy_or_delete (c ∷ s) = c ∷ s

unfoldable pub judge_ownership : Str → Result Err (Map Str) → Result Code VolumeOwnership
unfolding other_volume
judge_ownership name (err e) =
    if is_not_found (some e)
    then ok (record { props = []; delete_strategy = delete_strategy_delete; not_found = true })
    else err unavailable
judge_ownership name (ok props) =
    if foreign_manager (lookup property_managed_by props)
    then err failed_precondition
    else if other_volume name (lookup property_csi_volume_name props)
    then err failed_precondition
    else ok (record {
      props = props;
      delete_strategy = strategy_or_delete (get property_delete_strategy props);
      not_found = false;
    })

abbrev pub ownership_names : List Str → List Str
ownership_names extra =
    property_managed_by ∷ property_csi_volume_name ∷ property_delete_strategy ∷ extra

unfoldable pub read_volume_ownership :
    {B : Backend} → VolumeMetadata → List Str → M B (Result Code VolumeOwnership)
read_volume_ownership meta extra_props =
    call (Backend.get_dataset_properties meta.dataset_id (ownership_names extra_props)) >>= λ r.
    pure (judge_ownership meta.name r)

-- presentationPropertiesRecorded
unfoldable pub presentation_properties_recorded : Map Str → List Str → Bool
presentation_properties_recorded props [] = true
presentation_properties_recorded props (k ∷ keys) =
    not (is_empty (get k props)) && presentation_properties_recorded props keys

abbrev pub zeroed : List Str → Map Str
zeroed [] = []
zeroed (k ∷ keys) = insert k (str "0") (zeroed keys)

-- Best effort: the answer of the server is only logged.
unfoldable pub forget_presentation_ids : {B : Backend} → Str → List Str → M B (Unit {0})
forget_presentation_ids dataset_id keys =
    if is_empty dataset_id
    then pure tt
    else call (Backend.set_dataset_properties dataset_id (zeroed keys)) >>= λ e. pure tt

unfoldable pub presentation_volume_name : VolumeMetadata → Str
presentation_volume_name meta = path_base meta.name

unfoldable pub zvol_device : VolumeMetadata → Str
zvol_device meta = str "zvol/" ++ meta.dataset_id

-- The loops over a query's answer: the first object with the ID decides.
unfoldable pub owns_target : VolumeMetadata → List IscsiTarget → Bool
owns_target meta [] = false
owns_target meta (t ∷ ts) =
    if not (int_eq t.id meta.iscsi_target_id)
    then owns_target meta ts
    else str_eq t.name (presentation_volume_name meta)
      || (not (is_empty meta.iscsi_iqn) && has_suffix meta.iscsi_iqn (str ":" ++ t.name))

unfoldable pub owns_extent : VolumeMetadata → List IscsiExtent → Bool
owns_extent meta [] = false
owns_extent meta (e ∷ es) =
    if not (int_eq e.id meta.iscsi_extent_id)
    then owns_extent meta es
    else str_eq e.disk (zvol_device meta)

-- GetDevice (pkg/tnsapi/client.go)
unfoldable pub get_device : NvmeofNamespace → Str
get_device ns = if is_empty ns.device then ns.device_path else ns.device

unfoldable pub owns_namespace : VolumeMetadata → Option NvmeofNamespace → Bool
unfolding get_device
owns_namespace meta none = false
owns_namespace meta (some ns) =
    str_eq (trim_prefix (get_device ns) (str "/dev/")) (zvol_device meta)

unfoldable pub owns_subsystem : VolumeMetadata → List NvmeofSubsystem → Bool
owns_subsystem meta [] = false
owns_subsystem meta (sub ∷ subs) =
    if not (int_eq sub.id meta.nvmeof_subsystem_id)
    then owns_subsystem meta subs
    else if not (is_empty meta.nvmeof_nqn)
        && (str_eq sub.nqn meta.nvmeof_nqn || str_eq sub.name meta.nvmeof_nqn)
    then true
    else is_empty meta.nvmeof_nqn && has_suffix sub.name (str ":" ++ presentation_volume_name meta)

abbrev pub map_ok : {A C : Type 0} → (A → C) → Result Err A → Result Err C
map_ok f (ok a) = ok (f a)
map_ok f (err e) = err e

module _ {B : Backend} (meta : VolumeMetadata) where
  unfoldable pub owned_iscsi_target : M B (Result Err Bool)
  owned_iscsi_target =
      if is_zero meta.iscsi_target_id
      then pure (ok false)
      else call (Backend.query_iscsi_targets meta.iscsi_target_id) >>= λ r.
          pure (map_ok (owns_target meta) r)

  unfoldable pub owned_iscsi_extent : M B (Result Err Bool)
  owned_iscsi_extent =
      if is_zero meta.iscsi_extent_id
      then pure (ok false)
      else call (Backend.query_iscsi_extents meta.iscsi_extent_id) >>= λ r.
          pure (map_ok (owns_extent meta) r)

  unfoldable pub owned_nvmeof_namespace : M B (Result Err Bool)
  unfolding owns_namespace
  owned_nvmeof_namespace =
      if not (is_positive meta.nvmeof_namespace_id)
      then pure (ok false)
      else call (Backend.query_nvmeof_namespace_by_id meta.nvmeof_namespace_id) >>= λ r.
          pure (map_ok (owns_namespace meta) r)

  unfoldable pub owned_nvmeof_subsystem : M B (Result Err Bool)
  owned_nvmeof_subsystem =
      if not (is_positive meta.nvmeof_subsystem_id)
      then pure (ok false)
      else call (Backend.query_nvmeof_subsystems meta.nvmeof_subsystem_id) >>= λ r.
          pure (map_ok (owns_subsystem meta) r)
