-- ===== src/Create/Nvmeof.antt =====
-- createNVMeOFVolume (pkg/driver/controller_nvmeof.go).
pub mod Objects
use tns_csi.Common.{
  Str, str, str_eq, is_empty, itoa, insert, get, Map, ℤ, pos, is_positive, is_zero, int_eq, Option,
  none, some, Bool, true, false, not, ◌&&◌, List, [], ◌∷◌, ◌++◌, Result, ok, err, if◌then◌else◌,
}
use tns_csi.Codes.{Code, internal, already_exists, failed_precondition}
use tns_csi.Errors.{Err}
use tns_csi.Properties.{
  property_nvme_subsystem_id, property_nvme_namespace_id, property_nvme_subsystem_nqn,
  protocol_nvmeof,
}
use tns_csi.Properties.Builders.{ownership_properties_v1, nvmeof_volume_properties_v1}
use tns_csi.Backend
use tns_csi.Backend.{
  DatasetInfo, ZvolOptions, ZvolCreateParams, NvmeofSubsystem, NvmeofNamespace, Backend, M, pure,
  ◌>>=◌, ◌>>◌, call,
}
use tns_csi.Volume.Context.{build_volume_context}
use tns_csi.Delete.Ownership.{get_device}
use tns_csi.Delete.Nvmeof.{subsystem_of}
use tns_csi.Create.Settings.{
  parse_zfs_zvol_properties, nvmeof_zvol_options, is_encrypted, inherited, encryption_options,
}
use tns_csi.Create.Request.{
  CreateVolumeRequest, Setup, VolumeSettings, CreatedVolume, block_settings, recorded_params,
  query_exact_dataset, ensure_properties, record_properties,
}
use tns_csi.Create.Files.{MadeDataset, existing, new, info, made, metadata_for, cleanup_dataset}
use tns_csi.Create.Iscsi.Existing.{Lookup, agreed_capacity}
use tns_csi.Create.Iscsi.Objects.{key_expected_capacity, optional_id, first_or}
use tns_csi.Create.Nvmeof.Objects.{
  NvmeofVolumeParams, build_nvmeof_volume_response, find_namespace, subsystem_made, namespace_made,
  bind_code, validate_nvmeof_params, nvmeof_zvol_create_params, nvmeof_properties,
  ensure_nvmeof_properties, get_or_create_zvol, create_subsystem_for_volume, resolve_port, bind_to,
  bind_subsystem_to_port, create_nvmeof_namespace_for_zvol, cleanup_subsystem,
}

abbrev stored_names : List Str
stored_names =
    property_nvme_subsystem_nqn ∷ property_nvme_subsystem_id ∷ property_nvme_namespace_id ∷ []

module _ {B : Backend} (env : Setup) where
  module _ (p : NvmeofVolumeParams) (zvol : DatasetInfo) (capacity : ℤ) where
    abbrev pub existing_namespace : NvmeofSubsystem → Option NvmeofNamespace → M B Lookup
    existing_namespace subsystem none = pure (ok none)
    existing_namespace subsystem (some namespace) =
        ensure_nvmeof_properties env zvol.id p subsystem namespace
        >> pure (ok (some (build_nvmeof_volume_response p zvol subsystem namespace capacity)))

    abbrev pub namespaces_found : NvmeofSubsystem → Result Err (List NvmeofNamespace) → M B Lookup
    namespaces_found subsystem (err e) = pure (err internal)
    namespaces_found subsystem (ok nss) =
        existing_namespace subsystem
          (find_namespace (str "zvol/" ++ p.settings.dataset_name) subsystem.id nss)

    unfoldable pub with_subsystem : NvmeofSubsystem → M B Lookup
    with_subsystem subsystem =
        call (Backend.query_nvmeof_namespaces subsystem.id) >>= namespaces_found subsystem

    abbrev pub by_stored_nqn : Result Err NvmeofSubsystem → M B Lookup
    by_stored_nqn (err e) = pure (ok none)
    by_stored_nqn (ok subsystem) = with_subsystem subsystem

    abbrev pub stored_nqn_read : Result Err (Map Str) → M B Lookup
    stored_nqn_read (err e) = pure (ok none)
    stored_nqn_read (ok props) =
        let nqn = get property_nvme_subsystem_nqn props in
        if not (is_empty nqn) && not (str_eq nqn p.subsystem_nqn)
        then (call (Backend.nvmeof_subsystem_by_nqn nqn) >>= by_stored_nqn)
        else pure (ok none)

    unfoldable pub subsystem_looked_up : Result Err NvmeofSubsystem → M B Lookup
    subsystem_looked_up (ok subsystem) = with_subsystem subsystem
    subsystem_looked_up (err e) =
        call (Backend.get_dataset_properties zvol.id stored_names) >>= stored_nqn_read

  abbrev pub with_agreed_capacity : NvmeofVolumeParams → DatasetInfo → Result Code ℤ → M B Lookup
  with_agreed_capacity p zvol (err c) = pure (err c)
  with_agreed_capacity p zvol (ok capacity) =
      call (Backend.nvmeof_subsystem_by_nqn p.subsystem_nqn) >>= subsystem_looked_up p zvol capacity

  unfoldable pub handle_existing_nvmeof_volume : NvmeofVolumeParams → DatasetInfo → M B Lookup
  handle_existing_nvmeof_volume p zvol =
      with_agreed_capacity p zvol (agreed_capacity p.settings.requested_capacity zvol)

  -- The steps of createNVMeOFVolume from the last to the first. The wait of three seconds for the
  -- namespace is left out.
  unfoldable pub namespace_created :
      NvmeofVolumeParams
      → MadeDataset
      → NvmeofSubsystem
      → Result Code NvmeofNamespace
      → M B (Result Code CreatedVolume)
  namespace_created p m subsystem (err c) = cleanup_subsystem subsystem m >> pure (err c)
  namespace_created p m subsystem (ok namespace) =
      record_properties (info m).id (nvmeof_properties env p subsystem namespace)
      >> pure (
          ok (
            build_nvmeof_volume_response p (info m) subsystem namespace
              p.settings.requested_capacity))

  unfoldable pub subsystem_bound :
      NvmeofVolumeParams
      → MadeDataset
      → NvmeofSubsystem
      → Option Code
      → M B (Result Code CreatedVolume)
  subsystem_bound p m subsystem (some c) = cleanup_subsystem subsystem m >> pure (err c)
  subsystem_bound p m subsystem none =
      create_nvmeof_namespace_for_zvol (info m) subsystem >>= namespace_created p m subsystem

  unfoldable pub subsystem_created :
      NvmeofVolumeParams
      → MadeDataset
      → Result Code NvmeofSubsystem
      → M B (Result Code CreatedVolume)
  subsystem_created p m (err c) = cleanup_dataset m >> pure (err c)
  subsystem_created p m (ok subsystem) =
      bind_subsystem_to_port subsystem.id p.port_id >>= subsystem_bound p m subsystem

  unfoldable pub nvmeof_zvol_obtained :
      NvmeofVolumeParams → Result Code MadeDataset → M B (Result Code CreatedVolume)
  nvmeof_zvol_obtained p (err c) = pure (err c)
  nvmeof_zvol_obtained p (ok m) = create_subsystem_for_volume p >>= subsystem_created p m

  unfoldable pub make_nvmeof_volume :
      NvmeofVolumeParams → Option DatasetInfo → M B (Result Code CreatedVolume)
  make_nvmeof_volume p old = get_or_create_zvol env p old >>= nvmeof_zvol_obtained p

  abbrev after_existing_nvmeof :
      NvmeofVolumeParams → DatasetInfo → Lookup → M B (Result Code CreatedVolume)
  after_existing_nvmeof p d (err c) = pure (err c)
  after_existing_nvmeof p d (ok (some v)) = pure (ok v)
  after_existing_nvmeof p d (ok none) = make_nvmeof_volume p (some d)

  unfoldable pub nvmeof_zvol_queried :
      NvmeofVolumeParams → Result Err (Option DatasetInfo) → M B (Result Code CreatedVolume)
  nvmeof_zvol_queried p (err e) = pure (err internal)
  nvmeof_zvol_queried p (ok none) = make_nvmeof_volume p none
  nvmeof_zvol_queried p (ok (some d)) =
      handle_existing_nvmeof_volume p d >>= after_existing_nvmeof p d

  abbrev pub nvmeof_validated : Result Code NvmeofVolumeParams → M B (Result Code CreatedVolume)
  nvmeof_validated (err c) = pure (err c)
  nvmeof_validated (ok p) = query_exact_dataset p.settings.dataset_name >>= nvmeof_zvol_queried p

  unfoldable pub create_nvmeof_volume : CreateVolumeRequest → M B (Result Code CreatedVolume)
  create_nvmeof_volume req = nvmeof_validated (validate_nvmeof_params env req)
