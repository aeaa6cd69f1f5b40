-- ===== src/Create/Request.antt =====
-- The request of CreateVolume and what the code of every protocol reads from it first:
-- validateNFSParams, validateSMBParams, validateISCSIParams and validateNVMeOFParams up to the
-- fields of one protocol. All their errors are InvalidArgument.
use tns_csi.Common.{
  Str, str, str_eq, is_empty, get, Map, ℤ, pos, negsuc, ltb, true, false, is_zero, Option, none,
  some, Bool, List, ◌∷◌, ◌++◌, Result, ok, err, if◌then◌else◌,
}
use tns_csi.Codes.{Code, invalid_argument, internal, resource_exhausted}
use tns_csi.Errors.{Err, is_capacity, is_not_found}
use tns_csi.Properties.{delete_strategy_delete}
use tns_csi.Properties.Builders.{VolumeParams}
use tns_csi.Backend
use tns_csi.Backend.{DatasetInfo, Backend, M, pure, ◌>>=◌, call}
use tns_csi.Delete.Ownership.{presentation_properties_recorded}
use tns_csi.Naming.{VolumeNameContext, resolve_volume_name, resolve_comment}
use tns_csi.Volume.Request.{Capability, resolve_parent_dataset}
use tns_csi.Create.Settings.{EncryptionConfig, parse_encryption_config}

pub record CreateVolumeRequest : Type 0 where
  pub name : Str
  pub parameters : Map Str
  pub secrets : Map Str
  pub required_bytes : Option ℤ
  pub capabilities : List Capability

-- What the controller service has from outside: the cluster ID of its flags, and the packages
-- text/template and net/netip: whether a text is an address, and the masked form of a prefix.
pub record Setup : Type 1 where
  pub Template : Type 0
  pub parse : Str → Result Str Template
  pub execute : Template → VolumeNameContext → Result Str Str
  pub is_address : Str → Bool
  pub masked_prefix : Str → Option Str
  pub cluster_id : Str

-- The fields that nfsVolumeParams, smbVolumeParams, iscsiVolumeParams and nvmeofVolumeParams share;
-- the last two call the dataset zvolName.
pub record VolumeSettings : Type 0 where
  pub pool : Str
  pub server : Str
  pub parent_dataset : Str
  pub requested_capacity : ℤ
  pub volume_name : Str
  pub dataset_name : Str
  pub delete_strategy : Str
  pub mark_adoptable : Bool
  pub encryption : Option EncryptionConfig
  pub comment : Str
  pub pvc_name : Str
  pub pvc_namespace : Str
  pub storage_class : Str

-- CreateVolumeResponse
pub record CreatedVolume : Type 0 where
  pub volume_id : Str
  pub capacity_bytes : ℤ
  pub volume_context : Map Str

abbrev bytes_or_zero : Option ℤ → ℤ
bytes_or_zero none = pos 0
bytes_or_zero (some n) = n

-- m < n
abbrev pub int_ltb : ℤ → ℤ → Bool
int_ltb (pos m) (pos n) = ltb m n
int_ltb (pos m) (negsuc n) = false
int_ltb (negsuc m) (pos n) = true
int_ltb (negsuc m) (negsuc n) = ltb n m

-- 1 GiB unless the request says more or less.
abbrev pub requested_capacity_of : Option ℤ → ℤ
requested_capacity_of range =
    if is_zero (bytes_or_zero range) then pos 1073741824 else bytes_or_zero range

abbrev pub or_default : Str → Str → Str
or_default default s = if is_empty s then default else s

abbrev pub default_server_address : Str
default_server_address = str "defaultServerAddress"

abbrev pub settings_of : CreateVolumeRequest → Str → Str → Str → VolumeSettings
settings_of req server volume_name comment =
    let params = req.parameters in
    let parent =
      resolve_parent_dataset (get (str "pool") params) (get (str "parentDataset") params) in
    record {
      pool = get (str "pool") params;
      server = server;
      parent_dataset = parent;
      requested_capacity = requested_capacity_of req.required_bytes;
      volume_name = volume_name;
      dataset_name = parent ++ b'/' ∷ volume_name;
      delete_strategy = or_default delete_strategy_delete (get (str "deleteStrategy") params);
      mark_adoptable = str_eq (get (str "markAdoptable") params) (str "true");
      encryption = parse_encryption_config params req.secrets;
      comment = comment;
      pvc_name = get (str "csi.storage.k8s.io/pvc/name") params;
      pvc_namespace = get (str "csi.storage.k8s.io/pvc/namespace") params;
      storage_class = get (str "csi.storage.k8s.io/sc/name") params;
    }

module _ (env : Setup) where
  unfoldable pub volume_settings : CreateVolumeRequest → Str → Result Code VolumeSettings
  volume_settings req server =
      if is_empty (get (str "pool") req.parameters)
      then err invalid_argument
      else elim (resolve_volume_name env.parse env.execute req.parameters req.name) [
        | err e ↦ err invalid_argument
        | ok volume_name ↦ elim (resolve_comment env.parse env.execute req.parameters req.name) [
          | err e ↦ err invalid_argument
          | ok comment ↦ ok (settings_of req server volume_name comment)
        ]
      ]

  -- NFS and SMB have a default server.
  unfoldable pub file_settings : CreateVolumeRequest → Result Code VolumeSettings
  file_settings req =
      volume_settings req (or_default default_server_address (get (str "server") req.parameters))

  -- iSCSI and NVMe-oF need a server.
  unfoldable pub block_settings : CreateVolumeRequest → Result Code VolumeSettings
  block_settings req =
      if is_empty (get (str "server") req.parameters)
      then err invalid_argument
      else volume_settings req (get (str "server") req.parameters)

  -- The parameters of the recorded properties, at the time of the recording.
  abbrev pub recorded_params : VolumeSettings → Str → VolumeParams
  recorded_params s now = record {
    volume_id = s.volume_name;
    created_at = now;
    delete_strategy = s.delete_strategy;
    pvc_name = s.pvc_name;
    pvc_namespace = s.pvc_namespace;
    storage_class = s.storage_class;
    cluster_id = env.cluster_id;
    capacity_bytes = s.requested_capacity;
    adoptable = s.mark_adoptable;
  }

-- createVolumeError
unfoldable pub create_volume_error : Err → Code
create_volume_error e = if is_capacity (some e) then resource_exhausted else internal

abbrev exact : Str → Result Err (Option DatasetInfo) → Result Err (Option DatasetInfo)
exact id (err e) = if is_not_found (some e) then ok none else err e
exact id (ok none) = ok none
exact id (ok (some d)) = if str_eq d.id id then ok (some d) else ok none

module _ {B : Backend} where
  -- queryExactDataset (pkg/driver/controller_dataset.go): a list of at most one dataset.
  unfoldable pub query_exact_dataset : Str → M B (Result Err (Option DatasetInfo))
  query_exact_dataset id = call (Backend.dataset id) >>= λ r. pure (exact id r)

  -- The recovery of properties in the functions ensure…Properties: `write` if they could be read
  -- and one of the keys is missing.
  abbrev pub recover_if : M B (Unit {0}) → List Str → Result Err (Map Str) → M B (Unit {0})
  recover_if write keys (err e) = pure tt
  recover_if write keys (ok props) =
      if presentation_properties_recorded props keys then pure tt else write

  unfoldable pub ensure_properties : Str → List Str → M B (Unit {0}) → M B (Unit {0})
  ensure_properties id keys write =
      call (Backend.get_dataset_properties id keys) >>= recover_if write keys

  -- The properties are written with the time of the write; a failure is only logged.
  unfoldable pub record_properties : Str → (Str → Map Str) → M B (Unit {0})
  record_properties id props = call Backend.time_now >>= λ now.
      call (Backend.set_dataset_properties id (props now)) >>= λ e. pure tt
