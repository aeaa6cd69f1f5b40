-- ===== src/Create/Settled/Nvmeof.antt =====
-- What createNVMeOFVolume (pkg/driver/controller_nvmeof.go) leaves behind.
use tns_csi.Common.{Str, ℤ, Option, none, some, Map, List, [], Result, ok, err, refl}
use tns_csi.Codes.{Code}
use tns_csi.Errors.{Err}
use tns_csi.Backend
use tns_csi.Backend.{
  DatasetInfo, IscsiTarget, IscsiExtent, TargetExtent, NvmeofSubsystem, NvmeofNamespace, Event, did,
  Backend, Driver, M, pure, ◌>>=◌, ◌>>◌, call,
}
use tns_csi.Backend.Ledger.{Object, numbered, subsystem, effect, push, settle, pop-push}
use tns_csi.Backend.Settles.{
  Quiet, Quiet-pure, Quiet-call, Quiet-bind, Quiet-if, quiet_rules, Settles, Settles-pure,
  Settles-quiet, Settles-call, Settles-reply,
}
use tns_csi.Create.Request.{CreateVolumeRequest, Setup}
use tns_csi.Create.Files.{MadeDataset, existing, new, made, cleanup_dataset}
use tns_csi.Create.Settled.Datasets.{
  made_objects, query_exact_dataset-Quiet, record_properties-Quiet, ensure_properties-Quiet,
  some_is_not_none, cleanup_dataset-Settles, Settles-success, Settles-existing,
}
use tns_csi.Create.Nvmeof.Objects.{
  NvmeofVolumeParams, subsystem_made, namespace_made, validate_nvmeof_params,
  nvmeof_zvol_create_params, ensure_nvmeof_properties, get_or_create_zvol,
  create_subsystem_for_volume, resolve_port, bind_to, bind_subsystem_to_port,
  create_nvmeof_namespace_for_zvol, cleanup_subsystem,
}
use tns_csi.Create.Nvmeof.{
  existing_namespace, namespaces_found, with_subsystem, by_stored_nqn, stored_nqn_read,
  subsystem_looked_up, with_agreed_capacity, handle_existing_nvmeof_volume, namespace_created,
  subsystem_bound, subsystem_created, nvmeof_zvol_obtained, make_nvmeof_volume, nvmeof_zvol_queried,
  nvmeof_validated, create_nvmeof_volume,
}

abbrev made_subsystem : NvmeofSubsystem → MadeDataset → List Object
made_subsystem s m = push (numbered subsystem s.id) (made_objects m)

module _ {B : Backend} where
  cleanup_subsystem-Settles :
      {A : Type 0} (s : NvmeofSubsystem) (m : MadeDataset) (c : Code)
      → Settles {B = B} {A = A} (some (made_subsystem s m)) (cleanup_subsystem s m >> pure (err c))
  unfolding cleanup_subsystem effect settle ◌>>=◌
  cleanup_subsystem-Settles s m c =
      Settles-call (Backend.delete_nvmeof_subsystem s.id) (λ e. cleanup_dataset m >> pure (err c))
        (λ e.
          rw (pop-push (numbered subsystem s.id) (made_objects m)) (cleanup_dataset-Settles m c))

  resolve_port-Quiet : (id : ℤ) → Quiet {B = B} (resolve_port id)
  unfolding resolve_port effect
  resolve_port-Quiet id = search quiet_rules

  bind_to-Quiet : (s : ℤ) (port : Result Code ℤ) → Quiet {B = B} (bind_to s port)
  unfolding effect
  bind_to-Quiet s (err c) = search quiet_rules
  bind_to-Quiet s (ok port) = search quiet_rules

  pub bind_subsystem_to_port-Quiet : (s port : ℤ) → Quiet {B = B} (bind_subsystem_to_port s port)
  unfolding bind_subsystem_to_port
  bind_subsystem_to_port-Quiet s port = Quiet-bind _ _ (resolve_port-Quiet port) (bind_to-Quiet s)

module _ {B : Backend} (env : Setup) (p : NvmeofVolumeParams) (m : MadeDataset) where
  namespace_created-Settles :
      (s : NvmeofSubsystem) (params : Backend.NvmeofNamespaceCreateParams)
      (r : Result Err NvmeofNamespace)
      → Settles {B = B}
          (settle
            (effect (did (Backend.create_nvmeof_namespace params) r))
            (some (made_subsystem s m)))
          (namespace_created env p m s (namespace_made r))
  unfolding namespace_created effect settle
  namespace_created-Settles s params (err e) = cleanup_subsystem-Settles s m _
  namespace_created-Settles s params (ok namespace) =
      Settles-success _ _ (record_properties-Quiet _ _)

  subsystem_bound-Settles :
      (s : NvmeofSubsystem) (e : Option Code)
      → Settles {B = B} (some (made_subsystem s m)) (subsystem_bound env p m s e)
  unfolding subsystem_bound create_nvmeof_namespace_for_zvol
  subsystem_bound-Settles s (some c) = cleanup_subsystem-Settles s m c
  subsystem_bound-Settles s none =
      Settles-reply (Backend.create_nvmeof_namespace _) namespace_made _
        (namespace_created-Settles s _)

  subsystem_created-Settles :
      (params : Backend.NvmeofSubsystemCreateParams) (r : Result Err NvmeofSubsystem)
      → Settles {B = B}
          (settle (effect (did (Backend.create_nvmeof_subsystem params) r)) (some (made_objects m)))
          (subsystem_created env p m (subsystem_made r))
  unfolding subsystem_created effect settle
  subsystem_created-Settles params (err e) = cleanup_dataset-Settles m _
  subsystem_created-Settles params (ok s) =
      Settles-quiet _ _ (bind_subsystem_to_port-Quiet s.id p.port_id) (subsystem_bound-Settles s)

  zvol_obtained-Settles :
      Settles {B = B} (some (made_objects m)) (nvmeof_zvol_obtained env p (ok m))
  unfolding nvmeof_zvol_obtained create_subsystem_for_volume
  zvol_obtained-Settles =
      Settles-reply (Backend.create_nvmeof_subsystem _) subsystem_made _
        (subsystem_created-Settles _)

module _ {B : Backend} (env : Setup) (p : NvmeofVolumeParams) where
  zvol_created-Settles :
      (params : Backend.ZvolCreateParams) (r : Result Err DatasetInfo)
      → Settles {B = B}
          (settle (effect (did (Backend.create_zvol params) r)) (some []))
          (nvmeof_zvol_obtained env p (made r))
  unfolding nvmeof_zvol_obtained effect settle
  zvol_created-Settles params (err e) = Settles-pure _ refl
  zvol_created-Settles params (ok d) = zvol_obtained-Settles env p (new d)

  make_nvmeof_volume-Settles :
      (old : Option DatasetInfo) → Settles {B = B} (some []) (make_nvmeof_volume env p old)
  unfolding make_nvmeof_volume get_or_create_zvol ◌>>=◌ pure
  make_nvmeof_volume-Settles (some d) = zvol_obtained-Settles env p (existing d)
  make_nvmeof_volume-Settles none =
      Settles-reply (Backend.create_zvol (nvmeof_zvol_create_params env p)) made
        (nvmeof_zvol_obtained env p) (zvol_created-Settles _)

module _ {B : Backend} (env : Setup) (p : NvmeofVolumeParams) (d : DatasetInfo) (capacity : ℤ) where
  existing_namespace-Quiet :
      (s : NvmeofSubsystem) (n : Option NvmeofNamespace)
      → Quiet {B = B} (existing_namespace env p d capacity s n)
  unfolding ensure_nvmeof_properties
  existing_namespace-Quiet s none = Quiet-pure _
  existing_namespace-Quiet s (some n) =
      Quiet-bind _ _ (ensure_properties-Quiet _ (record_properties-Quiet _ _) _ _)
        (λ _. Quiet-pure _)

  namespaces_found-Quiet :
      (s : NvmeofSubsystem) (r : Result Err (List NvmeofNamespace))
      → Quiet {B = B} (namespaces_found env p d capacity s r)
  namespaces_found-Quiet s (err e) = Quiet-pure _
  namespaces_found-Quiet s (ok nss) = existing_namespace-Quiet s _

  with_subsystem-Quiet : (s : NvmeofSubsystem) → Quiet {B = B} (with_subsystem env p d capacity s)
  unfolding with_subsystem effect
  with_subsystem-Quiet s =
      Quiet-bind _ _ (Quiet-call (Backend.query_nvmeof_namespaces s.id) (λ r. refl))
        (namespaces_found-Quiet s)

  by_stored_nqn-Quiet :
      (r : Result Err NvmeofSubsystem) → Quiet {B = B} (by_stored_nqn env p d capacity r)
  by_stored_nqn-Quiet (err e) = Quiet-pure _
  by_stored_nqn-Quiet (ok s) = with_subsystem-Quiet s

  stored_nqn_read-Quiet :
      (r : Result Err (Map Str)) → Quiet {B = B} (stored_nqn_read env p d capacity r)
  unfolding effect
  stored_nqn_read-Quiet (err e) = Quiet-pure _
  stored_nqn_read-Quiet (ok props) =
      Quiet-if _ _ _
        (Quiet-bind _ _ (Quiet-call (Backend.nvmeof_subsystem_by_nqn _) (λ r. refl))
          by_stored_nqn-Quiet)
        (Quiet-pure _)

  subsystem_looked_up-Quiet :
      (r : Result Err NvmeofSubsystem) → Quiet {B = B} (subsystem_looked_up env p d capacity r)
  unfolding subsystem_looked_up effect
  subsystem_looked_up-Quiet (ok s) = with_subsystem-Quiet s
  subsystem_looked_up-Quiet (err e) =
      Quiet-bind _ _ (Quiet-call (Backend.get_dataset_properties d.id _) (λ r. refl))
        stored_nqn_read-Quiet

module _ {B : Backend} (env : Setup) (p : NvmeofVolumeParams) where
  with_agreed_capacity-Quiet :
      (d : DatasetInfo) (r : Result Code ℤ) → Quiet {B = B} (with_agreed_capacity env p d r)
  unfolding effect
  with_agreed_capacity-Quiet d (err c) = Quiet-pure _
  with_agreed_capacity-Quiet d (ok capacity) =
      Quiet-bind _ _ (Quiet-call (Backend.nvmeof_subsystem_by_nqn _) (λ r. refl))
        (subsystem_looked_up-Quiet env p d capacity)

  handle_existing_nvmeof_volume-Quiet :
      (d : DatasetInfo) → Quiet {B = B} (handle_existing_nvmeof_volume env p d)
  unfolding handle_existing_nvmeof_volume
  handle_existing_nvmeof_volume-Quiet d = with_agreed_capacity-Quiet d _

  nvmeof_zvol_queried-Settles :
      (r : Result Err (Option DatasetInfo))
      → Settles {B = B} (some []) (nvmeof_zvol_queried env p r)
  unfolding nvmeof_zvol_queried
  nvmeof_zvol_queried-Settles (err e) = Settles-pure _ refl
  nvmeof_zvol_queried-Settles (ok none) = make_nvmeof_volume-Settles env p none
  nvmeof_zvol_queried-Settles (ok (some d)) =
      Settles-existing _ _ (handle_existing_nvmeof_volume-Quiet d) (λ c. Settles-pure _ refl)
        (λ v. Settles-pure _ some_is_not_none) (make_nvmeof_volume-Settles env p (some d))

module _ {B : Backend} (env : Setup) where
  nvmeof_validated-Settles :
      (r : Result Code NvmeofVolumeParams) → Settles {B = B} (some []) (nvmeof_validated env r)
  nvmeof_validated-Settles (err c) = Settles-pure _ refl
  nvmeof_validated-Settles (ok p) =
      Settles-quiet _ _ (query_exact_dataset-Quiet _) (nvmeof_zvol_queried-Settles env p)

  pub create_nvmeof_volume-Settles :
      (req : CreateVolumeRequest) → Settles {B = B} (some []) (create_nvmeof_volume env req)
  unfolding create_nvmeof_volume
  create_nvmeof_volume-Settles req = nvmeof_validated-Settles (validate_nvmeof_params env req)
