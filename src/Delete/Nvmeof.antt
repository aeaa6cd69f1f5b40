-- ===== src/Delete/Nvmeof.antt =====
-- pkg/driver/controller_nvmeof.go: deleteNVMeOFVolume with verifyNVMeOFOwnership,
-- deleteNVMeOFNamespace, deleteNVMeOFSubsystem and deleteZVOL.
use tns_csi.Common.{
  Str, str, is_empty, get, ℤ, pos, is_positive, int_eq, Option, none, some, Bool, true, false, not,
  ◌&&◌, ◌||◌, List, [], ◌∷◌, ◌++◌, Result, ok, err, if◌then◌else◌,
}
use tns_csi.Codes.{Code, unavailable, failed_precondition, internal}
use tns_csi.Errors.{Err, is_dependent_clones}
use tns_csi.Properties.{
  string_to_int, property_nvme_subsystem_id, property_nvme_namespace_id,
  property_nvme_subsystem_nqn,
}
use tns_csi.Backend
use tns_csi.Backend.{Backend, NvmeofNamespace, M, pure, ◌>>=◌, ◌>>◌, call, with_deletion_retry}
use tns_csi.Volume.{VolumeMetadata}
use tns_csi.Delete.Ownership.{
  VolumeOwnership, read_volume_ownership, forget_presentation_ids, owned_nvmeof_namespace,
  owned_nvmeof_subsystem,
}
use tns_csi.Delete.Datasets.{
  fatal, ignore_not_found, delete_dataset_snapshots, try_promote_and_delete_dataset,
  delete_dataset_again, snapshot_guard,
}
use tns_csi.Delete.Files.{is_retained, if_none}

-- Why a presentation object is still there; the caller reports every case as Unavailable.
pub data NvmeofError : Type 0 where
  lookup_failed : Err → NvmeofError
  still_attached : NvmeofError
  still_exists : NvmeofError
  deletion_failed : Err → NvmeofError
  deletion_skipped : NvmeofError

-- `if parsed > 0 && parsed != current { current = parsed }`
unfoldable pub stored_or : ℤ → ℤ → ℤ
stored_or stored current =
    if is_positive stored && not (int_eq stored current) then stored else current

-- A ZVOL that is gone already leaves the metadata as it is.
unfoldable pub reconcile_nvmeof : VolumeMetadata → VolumeOwnership → VolumeMetadata
unfolding stored_or
reconcile_nvmeof meta o = if o.not_found then meta else record meta {
  nvmeof_subsystem_id =
      stored_or (string_to_int (get property_nvme_subsystem_id o.props)) meta.nvmeof_subsystem_id;
  nvmeof_namespace_id =
      stored_or (string_to_int (get property_nvme_namespace_id o.props)) meta.nvmeof_namespace_id;
}

abbrev pub subsystem_of : Option ℤ → ℤ
subsystem_of none = pos 0
subsystem_of (some i) = i

-- `attachedCount > 0`
unfoldable pub any_attached : ℤ → List NvmeofNamespace → Bool
any_attached subsystem_id [] = false
any_attached subsystem_id (ns ∷ nss) =
    int_eq (subsystem_of ns.subsys) subsystem_id || any_attached subsystem_id nss

-- Namespaces that cannot be queried do not stop the deletion.
unfoldable pub attached : ℤ → Result Err (List NvmeofNamespace) → Bool
unfolding any_attached
attached subsystem_id (err e) = false
attached subsystem_id (ok nss) = any_attached subsystem_id nss

abbrev pub failed : Option Err → Option NvmeofError
failed none = none
failed (some e) = some (deletion_failed e)

unfoldable pub still_there : Result Err (Option NvmeofNamespace) → Option NvmeofError
still_there (err e) = none
still_there (ok none) = none
still_there (ok (some ns)) = some still_exists

-- status.Errorf(codes.Internal, "Failed to delete ZVOL %s: %v", …)
unfoldable pub zvol_error : Backend → Str → Option Err → Option Err
zvol_error B dataset_id none = none
zvol_error B dataset_id (some e) = some (record {
  text =
      B.status_text internal (str "Failed to delete ZVOL " ++ (dataset_id ++ (str ": " ++ e.text)));
  chain = [];
  api = none;
  net_error = none;
})

unfoldable pub zvol_code : Option Err → Option Code
zvol_code none = none
zvol_code (some e) =
    if is_dependent_clones (some e) then some failed_precondition else some internal

module _ {B : Backend} where
  -- Go on only if there was no error.
  abbrev pub if_gone : M B (Option NvmeofError) → Option NvmeofError → M B (Option NvmeofError)
  if_gone m none = m
  if_gone m (some e) = pure (some e)

  unfoldable pub delete_namespace_again : ℤ → M B (Option Err)
  delete_namespace_again id =
      call (Backend.delete_nvmeof_namespace id) >>= λ e. pure (ignore_not_found e)

  unfoldable pub delete_subsystem_again : ℤ → M B (Option Err)
  delete_subsystem_again id =
      call (Backend.delete_nvmeof_subsystem id) >>= λ e. pure (ignore_not_found e)

  unfoldable pub verify_namespace_deletion : VolumeMetadata → M B (Option NvmeofError)
  unfolding still_there
  verify_namespace_deletion meta =
      call (Backend.query_nvmeof_namespace_by_id meta.nvmeof_namespace_id) >>= λ r.
      pure (still_there r)

  unfoldable pub delete_owned_namespace : VolumeMetadata → M B (Option NvmeofError)
  delete_owned_namespace meta =
      with_deletion_retry (str "delete-nvmeof-namespace")
        (delete_namespace_again meta.nvmeof_namespace_id)
      >>= λ e.
          if_gone
            (verify_namespace_deletion meta
              >>= if_gone (
                  forget_presentation_ids meta.dataset_id (property_nvme_namespace_id ∷ [])
                  >> pure none))
            (failed e)

  unfoldable pub namespace_looked_up : VolumeMetadata → Result Err Bool → M B (Option NvmeofError)
  unfolding delete_owned_namespace
  namespace_looked_up meta (err e) = pure (some (lookup_failed e))
  namespace_looked_up meta (ok false) =
      forget_presentation_ids meta.dataset_id (property_nvme_namespace_id ∷ []) >> pure none
  namespace_looked_up meta (ok true) = delete_owned_namespace meta

  unfoldable pub delete_nvmeof_namespace : VolumeMetadata → M B (Option NvmeofError)
  unfolding namespace_looked_up
  delete_nvmeof_namespace meta =
      if not (is_positive meta.nvmeof_namespace_id)
      then pure none
      else owned_nvmeof_namespace meta >>= namespace_looked_up meta

  unfoldable pub unbind : List ℤ → M B (Unit {0})
  unbind [] = pure tt
  unbind (b ∷ bs) = (call (Backend.remove_subsystem_from_port b) >>= λ e. pure tt) >> unbind bs

  -- Failures are only logged.
  unfoldable pub unbind_queried : Result Err (List ℤ) → M B (Unit {0})
  unfolding unbind
  unbind_queried (err e) = pure tt
  unbind_queried (ok bs) = unbind bs

  unfoldable pub delete_owned_subsystem : VolumeMetadata → M B (Option NvmeofError)
  unfolding attached unbind_queried
  delete_owned_subsystem meta =
      call (Backend.query_nvmeof_namespaces meta.nvmeof_subsystem_id) >>= λ r.
      if attached meta.nvmeof_subsystem_id r
      then pure (some still_attached)
      else ((call (Backend.query_subsystem_port_bindings meta.nvmeof_subsystem_id)
            >>= unbind_queried)
          >> (with_deletion_retry (str "delete-nvmeof-subsystem")
                (delete_subsystem_again meta.nvmeof_subsystem_id)
              >>= λ e.
                  if_gone
                    (forget_presentation_ids meta.dataset_id (property_nvme_subsystem_id ∷ [])
                      >> pure none)
                    (failed e)))

  unfoldable pub subsystem_looked_up : VolumeMetadata → Result Err Bool → M B (Option NvmeofError)
  unfolding delete_owned_subsystem
  subsystem_looked_up meta (err e) = pure (some (lookup_failed e))
  subsystem_looked_up meta (ok false) =
      forget_presentation_ids meta.dataset_id (property_nvme_subsystem_id ∷ []) >> pure none
  subsystem_looked_up meta (ok true) = delete_owned_subsystem meta

  unfoldable pub delete_nvmeof_subsystem : VolumeMetadata → M B (Option NvmeofError)
  unfolding subsystem_looked_up
  delete_nvmeof_subsystem meta =
      if not (is_positive meta.nvmeof_subsystem_id)
      then pure none
      else owned_nvmeof_subsystem meta >>= subsystem_looked_up meta

  unfoldable pub retry_zvol : Str → M B (Option Err)
  unfolding delete_dataset_snapshots zvol_error
  retry_zvol dataset_id =
      delete_dataset_snapshots dataset_id
      >> (with_deletion_retry (str "delete-zvol") (delete_dataset_again dataset_id) >>= λ e.
          pure (zvol_error B dataset_id e))

  unfoldable pub delete_zvol : VolumeMetadata → M B (Option Err)
  unfolding retry_zvol
  delete_zvol meta =
      if is_empty meta.dataset_id
      then pure none
      else (call (Backend.delete_dataset meta.dataset_id) >>= λ first.
          if not (fatal first)
          then pure none
          else if is_dependent_clones first
          then (try_promote_and_delete_dataset meta.dataset_id >>= λ gone.
              if gone then pure none else retry_zvol meta.dataset_id)
          else retry_zvol meta.dataset_id)

  unfoldable pub delete_nvmeof_zvol : VolumeMetadata → M B (Option Code)
  unfolding zvol_code
  delete_nvmeof_zvol meta =
      if is_empty meta.dataset_id then pure none else (delete_zvol meta >>= λ e. pure (zvol_code e))

  -- Both deletions must have gone well, or the ZVOL is kept.
  unfoldable pub after_subsystem : VolumeMetadata → Option NvmeofError → M B (Option Code)
  unfolding delete_nvmeof_zvol
  after_subsystem meta (some e) = pure (some unavailable)
  after_subsystem meta none = delete_nvmeof_zvol meta

  -- The subsystem is tried too if the namespace had no ID.
  unfoldable pub after_namespace : VolumeMetadata → Option NvmeofError → M B (Option Code)
  unfolding after_subsystem
  after_namespace meta none = delete_nvmeof_subsystem meta >>= after_subsystem meta
  after_namespace meta (some e) =
      if is_positive meta.nvmeof_namespace_id
      then pure (some unavailable)
      else (delete_nvmeof_subsystem meta >>= λ _. pure (some unavailable))

  unfoldable pub delete_nvmeof_resources : VolumeMetadata → M B (Option Code)
  unfolding after_namespace
  delete_nvmeof_resources meta =
      (if is_empty meta.dataset_id then pure none else snapshot_guard meta.dataset_id)
      >>= if_none (delete_nvmeof_namespace meta >>= after_namespace meta)

  unfoldable pub nvmeof_owned : VolumeMetadata → Result Code VolumeOwnership → M B (Option Code)
  unfolding delete_nvmeof_resources reconcile_nvmeof
  nvmeof_owned meta (err c) = pure (some c)
  nvmeof_owned meta (ok o) =
      if is_retained o.delete_strategy
      then pure none
      else delete_nvmeof_resources (reconcile_nvmeof meta o)

  unfoldable pub delete_nvmeof_volume : VolumeMetadata → M B (Option Code)
  unfolding nvmeof_owned
  delete_nvmeof_volume meta =
      if is_empty meta.dataset_id
      then delete_nvmeof_resources meta
      else (read_volume_ownership meta (
            property_nvme_subsystem_id ∷ property_nvme_namespace_id ∷ property_nvme_subsystem_nqn
            ∷ [])
          >>= nvmeof_owned meta)
