-- ===== src/Create/Careful/Nvmeof.antt =====
-- adoptNVMeOFVolume (pkg/driver/controller_nvmeof.go) deletes at most the subsystem that it has
-- created.
use tns_csi.Common.{Str, ℤ, Map, Option, none, some, List, Result, ok, err, refl}
use tns_csi.Codes.{Code}
use tns_csi.Errors.{Err}
use tns_csi.Backend
use tns_csi.Backend.{
  Dataset, DatasetInfo, NfsShare, SmbShare, IscsiTarget, IscsiExtent, TargetExtent, NvmeofSubsystem,
  NvmeofNamespace, Event, did, Backend, Driver, M, pure, ◌>>=◌, ◌>>◌, call,
}
use tns_csi.Backend.Ledger.{Object, numbered, subsystem, effect, push, settle, pop-push}
use tns_csi.Backend.Settles.{Quiet, Quiet-pure, Quiet-call, Quiet-bind, Quiet-if}
use tns_csi.Backend.Careful.{
  Careful, Careful-pure, Careful-Quiet, Careful-call, Careful-reply, Careful-if,
}
use tns_csi.Create.Request.{CreateVolumeRequest, Setup}
use tns_csi.Create.Settled.Datasets.{record_properties-Quiet}
use tns_csi.Create.Nvmeof.Objects.{
  NvmeofVolumeParams, subsystem_made, namespace_made, create_subsystem_for_volume,
  create_nvmeof_namespace_for_zvol,
}
use tns_csi.Create.Settled.Nvmeof.{bind_subsystem_to_port-Quiet}
use tns_csi.Create.Adopt.Nvmeof.{
  Left, subsystem_left, find_left, nvmeof_adopted, adopt_namespace_created, adopt_namespace,
  adopt_subsystem_bound, adopt_subsystem_created, adopt_left, adopt_nvmeof_with,
  adopt_nvmeof_volume,
}

module _ {B : Backend} where
  subsystem_left-Quiet :
      (device : Str) (r : Result Err NvmeofSubsystem) → Quiet {B = B} (subsystem_left device r)
  unfolding effect
  subsystem_left-Quiet device (err e) = Quiet-pure _
  subsystem_left-Quiet device (ok s) =
      Quiet-bind _ _ (Quiet-call (Backend.query_nvmeof_namespaces s.id) (λ r. refl))
        (λ r. Quiet-pure _)

  find_left-Quiet : (d : Dataset) (props : Map Str) → Quiet {B = B} (find_left d props)
  unfolding find_left effect
  find_left-Quiet d props = Quiet-if _ _ _ (Quiet-pure _) (
      Quiet-bind _ _ (Quiet-call (Backend.nvmeof_subsystem_by_nqn _) (λ r. refl))
        (subsystem_left-Quiet _))

module _ {B : Backend} (env : Setup) (p : NvmeofVolumeParams) (d : Dataset) where
  nvmeof_adopted-Careful :
      (os : List Object) (s : NvmeofSubsystem) (n : NvmeofNamespace)
      → Careful {B = B} (some os) (nvmeof_adopted env p d s n)
  nvmeof_adopted-Careful os s n =
      Careful-Quiet _ _ (record_properties-Quiet _ _) (λ _. Careful-pure _)

  adopt_namespace_created-Careful :
      (os : List Object) (s : NvmeofSubsystem) (params : Backend.NvmeofNamespaceCreateParams)
      (r : Result Err NvmeofNamespace)
      → Careful {B = B}
          (settle (effect (did (Backend.create_nvmeof_namespace params) r)) (some os))
          (adopt_namespace_created env p d s (namespace_made r))
  unfolding effect settle
  adopt_namespace_created-Careful os s params (err e) = Careful-pure _
  adopt_namespace_created-Careful os s params (ok n) = nvmeof_adopted-Careful _ s n

  adopt_namespace-Careful :
      (os : List Object) (s : NvmeofSubsystem) (n : Option NvmeofNamespace)
      → Careful {B = B} (some os) (adopt_namespace env p d s n)
  unfolding adopt_namespace create_nvmeof_namespace_for_zvol
  adopt_namespace-Careful os s (some n) = nvmeof_adopted-Careful _ s n
  adopt_namespace-Careful os s none =
      Careful-reply (Backend.create_nvmeof_namespace _) namespace_made _
        (adopt_namespace_created-Careful _ s _)

  adopt_subsystem_bound-Careful :
      (os : List Object) (s : NvmeofSubsystem) (e : Option Code)
      → Careful {B = B}
          (some (push (numbered subsystem s.id) os))
          (adopt_subsystem_bound env p d s e)
  unfolding adopt_subsystem_bound effect settle
  adopt_subsystem_bound-Careful os s none = adopt_namespace-Careful _ s none
  adopt_subsystem_bound-Careful os s (some c) =
      Careful-call (Backend.delete_nvmeof_subsystem s.id) _
        (λ r. rw (pop-push (numbered subsystem s.id) os) (Careful-pure _))

  adopt_subsystem_created-Careful :
      (os : List Object) (params : Backend.NvmeofSubsystemCreateParams)
      (r : Result Err NvmeofSubsystem)
      → Careful {B = B}
          (settle (effect (did (Backend.create_nvmeof_subsystem params) r)) (some os))
          (adopt_subsystem_created env p d (subsystem_made r))
  unfolding adopt_subsystem_created effect settle
  adopt_subsystem_created-Careful os params (err e) = Careful-pure _
  adopt_subsystem_created-Careful os params (ok s) =
      Careful-Quiet _ _ (bind_subsystem_to_port-Quiet s.id p.port_id)
        (adopt_subsystem_bound-Careful _ s)

  adopt_left-Careful :
      (os : List Object) (left : Left) → Careful {B = B} (some os) (adopt_left env p d left)
  unfolding adopt_left create_subsystem_for_volume
  adopt_left-Careful os (some (s, n)) = adopt_namespace-Careful _ s n
  adopt_left-Careful os none =
      Careful-reply (Backend.create_nvmeof_subsystem _) subsystem_made _
        (adopt_subsystem_created-Careful _ _)

module _ {B : Backend} (env : Setup) (req : CreateVolumeRequest) (d : Dataset)
    (props : Map Str) where
  adopt_nvmeof_with-Careful :
      (os : List Object) (r : Result Code ℤ)
      → Careful {B = B} (some os) (adopt_nvmeof_with env req d props r)
  adopt_nvmeof_with-Careful os (err c) = Careful-pure _
  adopt_nvmeof_with-Careful os (ok port) =
      Careful-Quiet _ _ (find_left-Quiet d props) (adopt_left-Careful env _ d _)

  pub adopt_nvmeof_volume-Careful :
      (os : List Object) → Careful {B = B} (some os) (adopt_nvmeof_volume env req d props)
  unfolding adopt_nvmeof_volume
  adopt_nvmeof_volume-Careful os = Careful-if _ _ _ (Careful-pure _) (adopt_nvmeof_with-Careful _ _)
