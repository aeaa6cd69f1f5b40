-- ===== src/Delete/Authorized/Nvmeof/Objects.antt =====
-- The grounds of the calls that delete a namespace, a subsystem and a ZVOL.
use tns_csi.Common.{
  Str, is_empty, ℤ, Bool, true, false, not, Option, none, some, List, [], ◌∷◌, Result, ok, err, ◌≡◌,
  refl,
}
use tns_csi.Errors.{Err, is_dependent_clones}
use tns_csi.Properties.{property_nvme_subsystem_id, property_nvme_namespace_id}
use tns_csi.Backend
use tns_csi.Backend.{
  NvmeofNamespace, NvmeofSubsystem, Event, did, Backend, Driver, M, pure, ◌>>=◌, ◌>>◌, call,
}
use tns_csi.Backend.Guarded.{
  Knows, Guarded, Guarded-pure, Guarded-bind, Guarded-call, Guarded-reply, Guarded-if,
  Guarded-with_deletion_retry,
}
use tns_csi.Volume.{VolumeMetadata}
use tns_csi.Delete.Ownership.{forget_presentation_ids}
use tns_csi.Delete.Datasets.{fatal, ignore_not_found}
use tns_csi.Delete.Nvmeof.{
  NvmeofError, attached, failed, if_gone, still_there, delete_namespace_again,
  delete_subsystem_again, verify_namespace_deletion, delete_owned_namespace, namespace_looked_up,
  unbind, unbind_queried, delete_owned_subsystem, subsystem_looked_up, retry_zvol, delete_zvol,
  delete_nvmeof_zvol, after_subsystem,
}
use tns_csi.Delete.Grounds.{volume_of, Cleared, NamespaceSeen, SubsystemSeen, Needs}
use tns_csi.Delete.Authorized.Datasets.{
  forget-Guarded, try_promote-Guarded, delete_again-Guarded, delete_dataset_snapshots-Guarded,
}

module _ {B : Backend} (meta : VolumeMetadata) (known : List Event)
    (clear : (log : List Event) → Knows known log → Cleared (volume_of true meta) log) where
  if_gone-Guarded :
      (next : M B (Option NvmeofError)) (e : Option NvmeofError)
      → Guarded (Needs (volume_of true meta)) known next
      → Guarded (Needs (volume_of true meta)) known (if_gone next e)
  if_gone-Guarded next none g = g
  if_gone-Guarded next (some e) g = Guarded-pure _

  forget_one :
      (key : Str)
      → Guarded {B = B}
          (Needs (volume_of true meta))
          known
          {A = Option NvmeofError}
          (forget_presentation_ids meta.dataset_id (key ∷ []) >> pure none)
  forget_one key =
      Guarded-bind _ _ (forget-Guarded meta known (λ log k. (clear log k).0) _)
        (λ _. Guarded-pure none)

  -- The namespace.
  delete_owned_namespace-Guarded :
      ((log : List Event)
        → Knows known log
        → NamespaceSeen (volume_of true meta) meta.nvmeof_namespace_id log)
      → Guarded {B = B} (Needs (volume_of true meta)) known (delete_owned_namespace meta)
  unfolding delete_owned_namespace delete_namespace_again verify_namespace_deletion
  delete_owned_namespace-Guarded seen =
      Guarded-bind _ _
        (Guarded-with_deletion_retry _ _ (
          Guarded-reply (Backend.delete_nvmeof_namespace meta.nvmeof_namespace_id) ignore_not_found
            (λ log k. (clear log k, seen log k))))
        (λ e. if_gone-Guarded _ (failed e) (
          Guarded-bind _ _
            (Guarded-reply (Backend.query_nvmeof_namespace_by_id meta.nvmeof_namespace_id)
              still_there (λ _ _. tt))
            (λ there. if_gone-Guarded _ there (forget_one property_nvme_namespace_id))))

  pub namespace_looked_up-Guarded :
      (owned : Bool)
      → (owned ≡ true
          → (log : List Event) → Knows known log
          → NamespaceSeen (volume_of true meta) meta.nvmeof_namespace_id log)
      → Guarded {B = B} (Needs (volume_of true meta)) known (namespace_looked_up meta (ok owned))
  unfolding namespace_looked_up
  namespace_looked_up-Guarded true seen = delete_owned_namespace-Guarded (seen refl)
  namespace_looked_up-Guarded false seen = forget_one property_nvme_namespace_id

  -- The subsystem.
  unbind-Guarded :
      ((log : List Event)
        → Knows known log
        → SubsystemSeen (volume_of true meta) meta.nvmeof_subsystem_id log)
      → (bs : List ℤ) → Guarded {B = B} (Needs (volume_of true meta)) known (unbind bs)
  unfolding unbind
  unbind-Guarded seen [] = Guarded-pure tt
  unbind-Guarded seen (b ∷ bs) =
      Guarded-bind _ _
        (Guarded-reply (Backend.remove_subsystem_from_port b) (λ e. tt)
          (λ log k. (clear log k, (meta.nvmeof_subsystem_id, seen log k))))
        (λ _. unbind-Guarded seen bs)

  unbind_queried-Guarded :
      ((log : List Event)
        → Knows known log
        → SubsystemSeen (volume_of true meta) meta.nvmeof_subsystem_id log)
      → (r : Result Err (List ℤ))
      → Guarded {B = B} (Needs (volume_of true meta)) known (unbind_queried r)
  unfolding unbind_queried
  unbind_queried-Guarded seen (err e) = Guarded-pure tt
  unbind_queried-Guarded seen (ok bs) = unbind-Guarded seen bs

  delete_owned_subsystem-Guarded :
      ((log : List Event)
        → Knows known log
        → SubsystemSeen (volume_of true meta) meta.nvmeof_subsystem_id log)
      → Guarded {B = B} (Needs (volume_of true meta)) known (delete_owned_subsystem meta)
  unfolding delete_owned_subsystem delete_subsystem_again
  delete_owned_subsystem-Guarded seen =
      Guarded-bind _ _
        (Guarded-call (Backend.query_nvmeof_namespaces meta.nvmeof_subsystem_id) (λ _ _. tt))
        (λ r.
          Guarded-if (attached meta.nvmeof_subsystem_id r) _ _ (λ _. Guarded-pure _)
            (λ _.
              Guarded-bind _ _
                (Guarded-bind _ _
                  (Guarded-call (Backend.query_subsystem_port_bindings meta.nvmeof_subsystem_id)
                    (λ _ _. tt))
                  (unbind_queried-Guarded seen))
                (λ _.
                  Guarded-bind _ _
                    (Guarded-with_deletion_retry _ _ (
                      Guarded-reply (Backend.delete_nvmeof_subsystem meta.nvmeof_subsystem_id)
                        ignore_not_found (λ log k. (clear log k, seen log k))))
                    (λ e. if_gone-Guarded _ (failed e) (forget_one property_nvme_subsystem_id)))))

  pub subsystem_looked_up-Guarded :
      (owned : Bool)
      → (owned ≡ true
          → (log : List Event) → Knows known log
          → SubsystemSeen (volume_of true meta) meta.nvmeof_subsystem_id log)
      → Guarded {B = B} (Needs (volume_of true meta)) known (subsystem_looked_up meta (ok owned))
  unfolding subsystem_looked_up
  subsystem_looked_up-Guarded true seen = delete_owned_subsystem-Guarded (seen refl)
  subsystem_looked_up-Guarded false seen = forget_one property_nvme_subsystem_id

  -- The ZVOL.
  retry_zvol-Guarded :
      Guarded {B = B} (Needs (volume_of true meta)) known (retry_zvol meta.dataset_id)
  unfolding retry_zvol
  retry_zvol-Guarded = Guarded-bind _ _ (delete_dataset_snapshots-Guarded meta known clear) (λ _.
      Guarded-bind _ _ (Guarded-with_deletion_retry _ _ (delete_again-Guarded meta known clear))
        (λ e. Guarded-pure _))

  delete_zvol-Guarded : Guarded {B = B} (Needs (volume_of true meta)) known (delete_zvol meta)
  unfolding delete_zvol
  delete_zvol-Guarded =
      Guarded-if (is_empty meta.dataset_id) _ _ (λ _. Guarded-pure none)
        (λ _.
          Guarded-bind _ _
            (Guarded-call (Backend.delete_dataset meta.dataset_id) (λ log k. (refl, clear log k)))
            (λ first.
              Guarded-if (not (fatal first)) _ _ (λ _. Guarded-pure none)
                (λ _.
                  Guarded-if (is_dependent_clones first) _ _
                    (λ _. Guarded-bind _ _ (try_promote-Guarded meta known clear) (λ gone.
                      Guarded-if gone _ _ (λ _. Guarded-pure none) (λ _. retry_zvol-Guarded)))
                    (λ _. retry_zvol-Guarded))))

  delete_nvmeof_zvol-Guarded :
      Guarded {B = B} (Needs (volume_of true meta)) known (delete_nvmeof_zvol meta)
  unfolding delete_nvmeof_zvol
  delete_nvmeof_zvol-Guarded =
      Guarded-if (is_empty meta.dataset_id) _ _ (λ _. Guarded-pure none)
        (λ _. Guarded-bind _ _ delete_zvol-Guarded (λ e. Guarded-pure _))

  pub after_subsystem-Guarded :
      (e : Option NvmeofError)
      → Guarded {B = B} (Needs (volume_of true meta)) known (after_subsystem meta e)
  unfolding after_subsystem
  after_subsystem-Guarded (some e) = Guarded-pure _
  after_subsystem-Guarded none = delete_nvmeof_zvol-Guarded
