-- ===== src/Create/Nvmeof/Objects.antt =====
-- The objects of a new NVMe-oF volume (pkg/driver/controller_nvmeof.go), each created with its
-- parameters, and the cleanup.
use tns_csi.Common.{
  Str, str, str_eq, is_empty, itoa, insert, get, Map, ℤ, pos, is_zero, int_eq, Option, none, some,
  true, ◌&&◌, List, [], ◌∷◌, ◌++◌, Result, ok, err, if◌then◌else◌,
}
use tns_csi.Codes.{Code, internal}
use tns_csi.Errors.{Err}
use tns_csi.Properties.{property_nvme_subsystem_id, property_nvme_namespace_id, protocol_nvmeof}
use tns_csi.Properties.Builders.{ownership_properties_v1, nvmeof_volume_properties_v1}
use tns_csi.Backend
use tns_csi.Backend.{
  DatasetInfo, ZvolOptions, ZvolCreateParams, NvmeofSubsystem, NvmeofNamespace, Backend, M, pure,
  ◌>>=◌, ◌>>◌, call,
}
use tns_csi.Volume.Context.{build_volume_context}
use tns_csi.Delete.Ownership.{get_device}
use tns_csi.Delete.Nvmeof.{subsystem_of}
use tns_csi.Create.Settings.{
  parse_zfs_zvol_properties, nvmeof_zvol_options, is_encrypted, inherited, encryption_options,
}
use tns_csi.Create.Request.{
  CreateVolumeRequest, Setup, VolumeSettings, CreatedVolume, block_settings, recorded_params,
  ensure_properties, record_properties,
}
use tns_csi.Create.Files.{MadeDataset, existing, made, metadata_for, cleanup_dataset}
use tns_csi.Create.Iscsi.Objects.{key_expected_capacity, optional_id, first_or}

pub record NvmeofVolumeParams : Type 0 where
  pub settings : VolumeSettings
  pub zfs_props : Option ZvolOptions
  pub subsystem_nqn : Str
  pub port_id : ℤ
  pub nr_io_queues : Str
  pub queue_size : Str

abbrev pub default_nqn_prefix : Str
default_nqn_prefix = str "nqn.2026-02.csi.tns"

-- generateNQN
abbrev pub generate_nqn : Str → Str → Str
generate_nqn prefix volume_name = prefix ++ b':' ∷ volume_name

abbrev insert_if_any : Str → Str → Map Str → Map Str
insert_if_any key value m = if is_empty value then m else insert key value m

-- injectQueueParams
abbrev pub inject_queue_params : Str → Str → Map Str → Map Str
inject_queue_params nr_io_queues queue_size ctx =
    insert_if_any (str "nvmeof.queue-size") queue_size
      (insert_if_any (str "nvmeof.nr-io-queues") nr_io_queues ctx)

unfoldable pub build_nvmeof_volume_response :
    NvmeofVolumeParams → DatasetInfo → NvmeofSubsystem → NvmeofNamespace → ℤ → CreatedVolume
build_nvmeof_volume_response p zvol subsystem namespace capacity = record {
  volume_id = zvol.id;
  capacity_bytes = capacity;
  volume_context = inject_queue_params p.nr_io_queues p.queue_size (
      insert key_expected_capacity (itoa capacity) (
        insert (str "nsid") (str "1") (
          build_volume_context
            (record (metadata_for p.settings.volume_name protocol_nvmeof p.settings.server zvol) {
              nvmeof_subsystem_id = subsystem.id;
              nvmeof_namespace_id = namespace.id;
              nvmeof_nqn = subsystem.nqn;
            }))));
}

-- The first namespace of the subsystem with the device.
unfoldable pub find_namespace : Str → ℤ → List NvmeofNamespace → Option NvmeofNamespace
find_namespace device id [] = none
find_namespace device id (ns ∷ nss) =
    if int_eq (subsystem_of ns.subsys) id && str_eq (get_device ns) device
    then some ns
    else find_namespace device id nss

abbrev pub subsystem_made : Result Err NvmeofSubsystem → Result Code NvmeofSubsystem
subsystem_made (err e) = err internal
subsystem_made (ok s) = ok s

abbrev pub namespace_made : Result Err NvmeofNamespace → Result Code NvmeofNamespace
namespace_made (err e) = err internal
namespace_made (ok ns) = ok ns

abbrev pub bind_code : Option Err → Option Code
bind_code none = none
bind_code (some e) = some internal

module _ (env : Setup) where
  unfoldable pub validate_nvmeof_params : CreateVolumeRequest → Result Code NvmeofVolumeParams
  validate_nvmeof_params req = elim (block_settings env req) [
    | err c ↦ err c
    | ok s ↦ elim (optional_id (get (str "portID") req.parameters)) [
      | err c ↦ err c
      | ok port ↦
          let prefix = get (str "subsystemNQN") req.parameters in
          ok (record {
            settings = s;
            zfs_props = parse_zfs_zvol_properties req.parameters;
            subsystem_nqn =
                generate_nqn (if is_empty prefix then default_nqn_prefix else prefix) s.volume_name;
            port_id = port;
            nr_io_queues = get (str "nvmeof.nr-io-queues") req.parameters;
            queue_size = get (str "nvmeof.queue-size") req.parameters;
          })
    ]
  ]

  unfoldable pub nvmeof_zvol_create_params : NvmeofVolumeParams → ZvolCreateParams
  nvmeof_zvol_create_params p = record {
    name = p.settings.dataset_name;
    kind = str "VOLUME";
    volsize = p.settings.requested_capacity;
    comments = p.settings.comment;
    options = nvmeof_zvol_options p.zfs_props;
    encryption = is_encrypted p.settings.encryption;
    inherit_encryption = inherited (is_encrypted p.settings.encryption);
    encryption_options = encryption_options p.settings.encryption;
    user_properties =
        ownership_properties_v1 p.settings.volume_name protocol_nvmeof p.settings.delete_strategy
          env.cluster_id p.settings.requested_capacity;
  }

  abbrev pub nvmeof_properties :
      NvmeofVolumeParams → NvmeofSubsystem → NvmeofNamespace → Str → Map Str
  nvmeof_properties p subsystem namespace now =
      nvmeof_volume_properties_v1 (recorded_params env p.settings now) subsystem.id namespace.id
        subsystem.nqn

module _ {B : Backend} (env : Setup) where
  unfoldable pub ensure_nvmeof_properties :
      Str → NvmeofVolumeParams → NvmeofSubsystem → NvmeofNamespace → M B (Unit {0})
  ensure_nvmeof_properties id p subsystem namespace =
      ensure_properties id (property_nvme_subsystem_id ∷ property_nvme_namespace_id ∷ [])
        (record_properties id (nvmeof_properties env p subsystem namespace))

  unfoldable pub get_or_create_zvol :
      NvmeofVolumeParams → Option DatasetInfo → M B (Result Code MadeDataset)
  get_or_create_zvol p (some d) = pure (ok (existing d))
  get_or_create_zvol p none =
      call (Backend.create_zvol (nvmeof_zvol_create_params env p)) >>= λ r. pure (made r)

module _ {B : Backend} where
  unfoldable pub create_subsystem_for_volume :
      NvmeofVolumeParams → M B (Result Code NvmeofSubsystem)
  create_subsystem_for_volume p =
      call (
        Backend.create_nvmeof_subsystem
          (record { name = p.subsystem_nqn; subnqn = p.subsystem_nqn; allow_any_host = true }))
      >>= λ r. pure (subsystem_made r)

  -- A port is asked for only if the StorageClass names none.
  unfoldable pub resolve_port : ℤ → M B (Result Code ℤ)
  resolve_port id =
      if is_zero id
      then (call Backend.query_nvmeof_ports >>= λ r. pure (first_or r))
      else pure (ok id)

  abbrev pub bind_to : ℤ → Result Code ℤ → M B (Option Code)
  bind_to subsystem (err c) = pure (some c)
  bind_to subsystem (ok port) =
      call (Backend.add_subsystem_to_port subsystem port) >>= λ e. pure (bind_code e)

  unfoldable pub bind_subsystem_to_port : ℤ → ℤ → M B (Option Code)
  bind_subsystem_to_port subsystem port = resolve_port port >>= bind_to subsystem

  unfoldable pub create_nvmeof_namespace_for_zvol :
      DatasetInfo → NvmeofSubsystem → M B (Result Code NvmeofNamespace)
  create_nvmeof_namespace_for_zvol zvol subsystem =
      call (
        Backend.create_nvmeof_namespace (record {
          subsys_id = subsystem.id;
          device_path = str "zvol/" ++ zvol.name;
          device_type = str "ZVOL";
          nsid = pos 1;
        }))
      >>= λ r. pure (namespace_made r)

  -- The subsystem is always new; the ZVOL is deleted only if it is.
  unfoldable pub cleanup_subsystem : NvmeofSubsystem → MadeDataset → M B (Unit {0})
  cleanup_subsystem subsystem m =
      call (Backend.delete_nvmeof_subsystem subsystem.id) >>= λ e. cleanup_dataset m
