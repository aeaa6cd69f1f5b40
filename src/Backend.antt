-- ===== src/Backend.antt =====
-- pkg/tnsapi/interface.go, as far as the creation and the deletion of volumes and snapshots use it. The TrueNAS
-- server is a parameter: for each call it gives a reply of the call's type and a new state, of which
-- nothing is assumed. A run of the driver keeps the log of its calls with their replies, the last
-- one first.
mod Objects
pub mod Keeps
pub mod Guarded
pub mod Ends
pub mod Ledger
pub mod Settles
pub mod Careful
use tns_csi.Common.{Str, ℤ, Bool, Map, Option, List, [], ◌∷◌, Result}
pub use Objects.*
use tns_csi.Codes.{Code}
use tns_csi.Errors.{Err}
use tns_csi.Retry.{Float64, Context, with_retry_no_result}
use tns_csi.Retry.Predicates.{deletion_config}

-- The methods of ClientInterface with their arguments; a filter is given by its value. The clock is
-- asked in the same way: time.Now().UTC() as RFC 3339 prints it, and time.Now().Unix(). A snapshot is
-- created on a dataset under a name, and is given new properties; the properties that
-- SetSnapshotProperties takes off are none.
pub data Call : Type 0 where
  get_dataset_properties : Str → List Str → Call
  get_dataset_with_properties : Str → Call
  find_dataset_by_csi_volume_name : Str → Str → Call
  set_dataset_properties : Str → Map Str → Call
  delete_dataset : Str → Call
  promote_dataset : Str → Call
  query_snapshots_with_properties : Str → Call
  delete_snapshot : Str → Call
  query_iscsi_targets : ℤ → Call
  query_iscsi_extents : ℤ → Call
  iscsi_target_extent_by_target : ℤ → Call
  delete_iscsi_target_extent : ℤ → Call
  delete_iscsi_target : ℤ → Call
  delete_iscsi_extent : ℤ → Call
  delete_nfs_share : ℤ → Call
  delete_smb_share : ℤ → Call
  query_nvmeof_namespace_by_id : ℤ → Call
  query_nvmeof_subsystems : ℤ → Call
  query_nvmeof_namespaces : ℤ → Call
  query_subsystem_port_bindings : ℤ → Call
  remove_subsystem_from_port : ℤ → Call
  delete_nvmeof_namespace : ℤ → Call
  delete_nvmeof_subsystem : ℤ → Call
  query_snapshots : Str → Call
  find_datasets_by_property : Str → Str → Str → Call
  time_now : Call
  dataset : Str → Call
  create_dataset : DatasetCreateParams → Call
  create_zvol : ZvolCreateParams → Call
  query_nfs_shares : Str → Call
  create_nfs_share : NfsShareCreateParams → Call
  query_smb_share : Str → Call
  create_smb_share : SmbShareCreateParams → Call
  set_filesystem_acl : Str → Call
  get_iscsi_global_config : Call
  query_iscsi_portals : Call
  query_iscsi_initiators : Call
  iscsi_target_by_name : Str → Call
  iscsi_extent_by_name : Str → Call
  create_iscsi_target : IscsiTargetCreateParams → Call
  create_iscsi_extent : IscsiExtentCreateParams → Call
  create_iscsi_target_extent : IscsiTargetExtentCreateParams → Call
  reload_iscsi_service : Call
  nvmeof_subsystem_by_nqn : Str → Call
  query_nvmeof_ports : Call
  create_nvmeof_subsystem : NvmeofSubsystemCreateParams → Call
  create_nvmeof_namespace : NvmeofNamespaceCreateParams → Call
  add_subsystem_to_port : ℤ → ℤ → Call
  update_dataset : Str → DatasetUpdateParams → Call
  create_snapshot : Str → Str → Call
  set_snapshot_properties : Str → Map Str → Call
  unix_time : Call

-- What each method returns: a value or an error, or an error alone. Of the global configuration,
-- its base name; of portals, initiators, ports and a new association, the ID.
abbrev pub Reply : Call → Type 0
Reply (get_dataset_properties id names) = Result Err (Map Str)
Reply (get_dataset_with_properties id) = Result Err (Option Dataset)
Reply (find_dataset_by_csi_volume_name prefix name) = Result Err (Option Dataset)
Reply (set_dataset_properties id props) = Option Err
Reply (delete_dataset id) = Option Err
Reply (promote_dataset id) = Option Err
Reply (query_snapshots_with_properties id) = Result Err (List Snapshot)
Reply (delete_snapshot id) = Option Err
Reply (query_iscsi_targets id) = Result Err (List IscsiTarget)
Reply (query_iscsi_extents id) = Result Err (List IscsiExtent)
Reply (iscsi_target_extent_by_target id) = Result Err (List TargetExtent)
Reply (delete_iscsi_target_extent id) = Option Err
Reply (delete_iscsi_target id) = Option Err
Reply (delete_iscsi_extent id) = Option Err
Reply (delete_nfs_share id) = Option Err
Reply (delete_smb_share id) = Option Err
Reply (query_nvmeof_namespace_by_id id) = Result Err (Option NvmeofNamespace)
Reply (query_nvmeof_subsystems id) = Result Err (List NvmeofSubsystem)
Reply (query_nvmeof_namespaces id) = Result Err (List NvmeofNamespace)
Reply (query_subsystem_port_bindings id) = Result Err (List ℤ)
Reply (remove_subsystem_from_port id) = Option Err
Reply (delete_nvmeof_namespace id) = Option Err
Reply (delete_nvmeof_subsystem id) = Option Err
Reply (query_snapshots name) = Result Err (List Snapshot)
Reply (find_datasets_by_property prefix name value) = Result Err (List Dataset)
Reply time_now = Str
Reply (dataset id) = Result Err (Option DatasetInfo)
Reply (create_dataset p) = Result Err DatasetInfo
Reply (create_zvol p) = Result Err DatasetInfo
Reply (query_nfs_shares path) = Result Err (List NfsShare)
Reply (create_nfs_share p) = Result Err NfsShare
Reply (query_smb_share path) = Result Err (List SmbShare)
Reply (create_smb_share p) = Result Err SmbShare
Reply (set_filesystem_acl path) = Option Err
Reply get_iscsi_global_config = Result Err Str
Reply query_iscsi_portals = Result Err (List ℤ)
Reply query_iscsi_initiators = Result Err (List ℤ)
Reply (iscsi_target_by_name name) = Result Err (Option IscsiTarget)
Reply (iscsi_extent_by_name name) = Result Err (Option IscsiExtent)
Reply (create_iscsi_target p) = Result Err IscsiTarget
Reply (create_iscsi_extent p) = Result Err IscsiExtent
Reply (create_iscsi_target_extent p) = Result Err ℤ
Reply reload_iscsi_service = Option Err
Reply (nvmeof_subsystem_by_nqn nqn) = Result Err NvmeofSubsystem
Reply query_nvmeof_ports = Result Err (List ℤ)
Reply (create_nvmeof_subsystem p) = Result Err NvmeofSubsystem
Reply (create_nvmeof_namespace p) = Result Err NvmeofNamespace
Reply (add_subsystem_to_port subsystem port) = Option Err
Reply (update_dataset id p) = Option Err
Reply (create_snapshot path name) = Result Err Snapshot
Reply (set_snapshot_properties id props) = Option Err
Reply unix_time = ℤ

pub data Event : Type 0 where
  did : (c : Call) → Reply c → Event

-- The server, the context of the request with its clock, the text of a gRPC status error, and the
-- multipliers of the retry loop.
pub record Backend : Type 1 where
  pub World : Type 0
  pub answer : (c : Call) → World → Reply c × World
  pub context : Context World
  pub status_text : Code → Str → Str
  pub float : Float64

pub record Driver (B : Backend) : Type 0 where
  pub world : B.World
  pub log : List Event

-- A handler of the controller service.
abbrev pub M : Backend → Type 0 → Type 0
M B A = Driver B → A × Driver B

module _ {B : Backend} where
  unfoldable pub pure : {A : Type 0} → A → M B A
  pure a s = (a, s)

  infixl 5 ◌>>=◌ ◌>>◌
  unfoldable pub ◌>>=◌ : {A C : Type 0} → M B A → (A → M B C) → M B C
  unfolding pure
  ◌>>=◌ m f s = let (a, s') = m s in f a s'

  abbrev pub ◌>>◌ : {C : Type 0} → M B (Unit {0}) → M B C → M B C
  m >> n = m >>= λ _. n

  -- s.apiClient.Method(ctx, …)
  unfoldable pub call : (c : Call) → M B (Reply c)
  call c s = let (r, w) = B.answer c s.world in (r, record { world = w; log = did c r ∷ s.log })

  -- The context of the request, over the states of the driver.
  abbrev pub driver_context : Context (Driver B)
  driver_context = record {
    ctx_err = λ s. B.context.ctx_err s.world;
    wait = λ d s. let (e, w) = B.context.wait d s.world in (e, record s { world = w });
  }

  -- The body of a deferred retry: retry.WithRetryNoResult(ctx, retry.DeletionConfig(name), fn)
  unfoldable pub with_deletion_retry : Str → M B (Option Err) → M B (Option Err)
  with_deletion_retry name fn =
      with_retry_no_result B.float driver_context (deletion_config B.float name) fn
