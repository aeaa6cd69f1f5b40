-- ===== src/Create/Adopt/Nvmeof.antt =====
-- adoptNVMeOFVolume (pkg/driver/controller_nvmeof.go).
use tns_csi.Common.{
  Str, str, is_empty, get, Map, ℤ, none, some, Option, List, ◌++◌, Result, ok, err, if◌then◌else◌,
}
use tns_csi.Codes.{Code, invalid_argument}
use tns_csi.Errors.{Err}
use tns_csi.Properties.{property_nvme_subsystem_nqn}
use tns_csi.Backend
use tns_csi.Backend.{Dataset, NvmeofSubsystem, NvmeofNamespace, Backend, M, pure, ◌>>=◌, ◌>>◌, call}
use tns_csi.Create.Request.{
  CreateVolumeRequest, Setup, CreatedVolume, or_default, record_properties,
}
use tns_csi.Create.Iscsi.Objects.{optional_id}
use tns_csi.Create.Nvmeof.Objects.{
  NvmeofVolumeParams, default_nqn_prefix, generate_nqn, find_namespace,
  build_nvmeof_volume_response, nvmeof_properties, create_subsystem_for_volume,
  bind_subsystem_to_port, create_nvmeof_namespace_for_zvol,
}
use tns_csi.Create.Adopt.Files.{info_of, adopted_settings}

-- What is still there of the presentation: nothing, or a subsystem with or without the namespace.
abbrev pub Left : Type 0
Left = Option (NvmeofSubsystem × Option NvmeofNamespace)

abbrev namespace_or_none :
    Str → NvmeofSubsystem → Result Err (List NvmeofNamespace) → Option NvmeofNamespace
namespace_or_none device s (err e) = none
namespace_or_none device s (ok nss) = find_namespace device s.id nss

module _ {B : Backend} where
  abbrev pub subsystem_left : Str → Result Err NvmeofSubsystem → M B Left
  subsystem_left device (err e) = pure none
  subsystem_left device (ok s) = call (Backend.query_nvmeof_namespaces s.id) >>= λ r.
      pure (some (s, namespace_or_none device s r))

  -- The subsystem is looked for by the stored NQN.
  unfoldable pub find_left : Dataset → Map Str → M B Left
  find_left d props =
      let nqn = get property_nvme_subsystem_nqn props in
      if is_empty nqn
      then pure none
      else call (Backend.nvmeof_subsystem_by_nqn nqn) >>= subsystem_left (str "zvol/" ++ d.name)

module _ {B : Backend} (env : Setup) (p : NvmeofVolumeParams) (d : Dataset) where
  abbrev pub nvmeof_adopted : NvmeofSubsystem → NvmeofNamespace → M B (Result Code CreatedVolume)
  nvmeof_adopted s namespace =
      record_properties d.id (nvmeof_properties env p s namespace)
      >> pure (
          ok (build_nvmeof_volume_response p (info_of d) s namespace p.settings.requested_capacity))

  abbrev pub adopt_namespace_created :
      NvmeofSubsystem → Result Code NvmeofNamespace → M B (Result Code CreatedVolume)
  adopt_namespace_created s (err c) = pure (err c)
  adopt_namespace_created s (ok namespace) = nvmeof_adopted s namespace

  unfoldable pub adopt_namespace :
      NvmeofSubsystem → Option NvmeofNamespace → M B (Result Code CreatedVolume)
  adopt_namespace s (some namespace) = nvmeof_adopted s namespace
  adopt_namespace s none =
      create_nvmeof_namespace_for_zvol (info_of d) s >>= adopt_namespace_created s

  -- A new subsystem that cannot be bound is deleted again.
  unfoldable pub adopt_subsystem_bound :
      NvmeofSubsystem → Option Code → M B (Result Code CreatedVolume)
  adopt_subsystem_bound s (some c) =
      call (Backend.delete_nvmeof_subsystem s.id) >>= λ e. pure (err c)
  adopt_subsystem_bound s none = adopt_namespace s none

  unfoldable pub adopt_subsystem_created :
      Result Code NvmeofSubsystem → M B (Result Code CreatedVolume)
  adopt_subsystem_created (err c) = pure (err c)
  adopt_subsystem_created (ok s) = bind_subsystem_to_port s.id p.port_id >>= adopt_subsystem_bound s

  unfoldable pub adopt_left : Left → M B (Result Code CreatedVolume)
  adopt_left (some (s, namespace)) = adopt_namespace s namespace
  adopt_left none = create_subsystem_for_volume p >>= adopt_subsystem_created

abbrev adopted_params : CreateVolumeRequest → ℤ → NvmeofVolumeParams
adopted_params req port = record {
  settings = adopted_settings req (get (str "server") req.parameters);
  zfs_props = none;
  subsystem_nqn =
      generate_nqn (or_default default_nqn_prefix (get (str "subsystemNQN") req.parameters))
        req.name;
  port_id = port;
  nr_io_queues = get (str "nvmeof.nr-io-queues") req.parameters;
  queue_size = get (str "nvmeof.queue-size") req.parameters;
}

module _ {B : Backend} (env : Setup) (req : CreateVolumeRequest) (d : Dataset)
    (props : Map Str) where
  abbrev pub adopt_nvmeof_with : Result Code ℤ → M B (Result Code CreatedVolume)
  adopt_nvmeof_with (err c) = pure (err c)
  adopt_nvmeof_with (ok port) = find_left d props >>= adopt_left env (adopted_params req port) d

  unfoldable pub adopt_nvmeof_volume : M B (Result Code CreatedVolume)
  adopt_nvmeof_volume =
      if is_empty (get (str "server") req.parameters)
      then pure (err invalid_argument)
      else adopt_nvmeof_with (optional_id (get (str "portID") req.parameters))
