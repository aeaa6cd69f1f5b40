-- ===== src/Delete/Authorized/Nvmeof.antt =====
-- The grounds of the calls of deleteNVMeOFVolume.
mod Objects
use tns_csi.Common.{
  Str, is_empty, get, ℤ, is_positive, Bool, true, false, not, Option, none, some, List, [], ◌∷◌,
  Result, ok, err, ◌≡◌, ◌⊎◌, refl, inl, inr, Bool-cases,
}
use mathlib.Core.Path.{subst}
use tns_csi.Codes.{Code}
use tns_csi.Errors.{Err, is_dependent_clones}
use tns_csi.Properties.{
  string_to_int, property_nvme_subsystem_id, property_nvme_namespace_id,
  property_nvme_subsystem_nqn,
}
use tns_csi.Backend
use tns_csi.Backend.{
  NvmeofNamespace, NvmeofSubsystem, Event, did, Backend, Driver, M, pure, ◌>>=◌, ◌>>◌, call,
}
use tns_csi.Backend.Guarded.{
  Happened, Justified, Knows, Guarded, Guarded-pure, Guarded-bind, Guarded-call, Guarded-reply,
  Guarded-if, Guarded-ask, Guarded-with_deletion_retry,
}
use tns_csi.Volume.{VolumeMetadata}
use tns_csi.Delete.Ownership.{
  VolumeOwnership, forget_presentation_ids, owned_nvmeof_namespace, owned_nvmeof_subsystem,
  owns_namespace, owns_subsystem, map_ok,
}
use tns_csi.Delete.Datasets.{fatal, ignore_not_found}
use tns_csi.Delete.Files.{is_retained}
use tns_csi.Delete.Nvmeof.{
  NvmeofError, stored_or, reconcile_nvmeof, attached, failed, if_gone, still_there,
  delete_namespace_again, delete_subsystem_again, verify_namespace_deletion, delete_owned_namespace,
  namespace_looked_up, delete_nvmeof_namespace, unbind, unbind_queried, delete_owned_subsystem,
  subsystem_looked_up, delete_nvmeof_subsystem, retry_zvol, delete_zvol, delete_nvmeof_zvol,
  after_subsystem, after_namespace, delete_nvmeof_resources, nvmeof_owned, delete_nvmeof_volume,
}
use tns_csi.Delete.Grounds.{volume_of, Owned, Cleared, NamespaceSeen, SubsystemSeen, Needs}
use tns_csi.Delete.Evidence.{owns_namespace-some, owns_subsystem-any}
use tns_csi.Delete.Authorized.Datasets.{
  forget-Guarded, snapshot_guard-Guarded, read_volume_ownership-Guarded, try_promote-Guarded,
  delete_again-Guarded, delete_dataset_snapshots-Guarded,
}
use tns_csi.Delete.Authorized.Nvmeof.Objects.{
  namespace_looked_up-Guarded, subsystem_looked_up-Guarded, after_subsystem-Guarded,
}

module _ {B : Backend} (meta : VolumeMetadata) where
  after_namespace_query :
      (known : List Event)
      → ((log : List Event) → Knows known log → Cleared (volume_of true meta) log)
      → (r : Result Err (Option NvmeofNamespace))
      → Guarded {B = B}
          (Needs (volume_of true meta))
          (did (Backend.query_nvmeof_namespace_by_id meta.nvmeof_namespace_id) r ∷ known)
          (namespace_looked_up meta (map_ok (owns_namespace meta) r))
  unfolding namespace_looked_up
  after_namespace_query known clear (err e) = Guarded-pure _
  after_namespace_query known clear (ok found) =
      namespace_looked_up-Guarded meta _ (λ log k. clear log k.1) (owns_namespace meta found)
        (λ owned log k.
          let (ns, e, device) = owns_namespace-some meta found owned in
          (
            ns,
            subst
                (λ f.
                  Happened
                    (did (Backend.query_nvmeof_namespace_by_id meta.nvmeof_namespace_id) (ok f))
                    log)
                e k.0,
            device,
          ))

  delete_nvmeof_namespace-Guarded :
      (known : List Event)
      → ((log : List Event) → Knows known log → Cleared (volume_of true meta) log)
      → Guarded {B = B} (Needs (volume_of true meta)) known (delete_nvmeof_namespace meta)
  unfolding delete_nvmeof_namespace owned_nvmeof_namespace
  delete_nvmeof_namespace-Guarded known clear =
      Guarded-if (not (is_positive meta.nvmeof_namespace_id)) _ _ (λ _. Guarded-pure none)
        (λ _.
          Guarded-ask (not (is_positive meta.nvmeof_namespace_id)) (ok false)
            (Backend.query_nvmeof_namespace_by_id meta.nvmeof_namespace_id)
            (map_ok (owns_namespace meta)) (namespace_looked_up meta) (λ _ _. tt)
            (namespace_looked_up-Guarded meta known clear false (λ e. cc))
            (after_namespace_query known clear))

  after_subsystem_query :
      (known : List Event)
      → ((log : List Event) → Knows known log → Cleared (volume_of true meta) log)
      → (r : Result Err (List NvmeofSubsystem))
      → Guarded {B = B}
          (Needs (volume_of true meta))
          (did (Backend.query_nvmeof_subsystems meta.nvmeof_subsystem_id) r ∷ known)
          (subsystem_looked_up meta (map_ok (owns_subsystem meta) r))
  unfolding subsystem_looked_up
  after_subsystem_query known clear (err e) = Guarded-pure _
  after_subsystem_query known clear (ok subs) =
      subsystem_looked_up-Guarded meta _ (λ log k. clear log k.1) (owns_subsystem meta subs)
        (λ owned log k. (subs, k.0, owns_subsystem-any meta subs owned))

  delete_nvmeof_subsystem-Guarded :
      (known : List Event)
      → ((log : List Event) → Knows known log → Cleared (volume_of true meta) log)
      → Guarded {B = B} (Needs (volume_of true meta)) known (delete_nvmeof_subsystem meta)
  unfolding delete_nvmeof_subsystem owned_nvmeof_subsystem
  delete_nvmeof_subsystem-Guarded known clear =
      Guarded-if (not (is_positive meta.nvmeof_subsystem_id)) _ _ (λ _. Guarded-pure none)
        (λ _.
          Guarded-ask (not (is_positive meta.nvmeof_subsystem_id)) (ok false)
            (Backend.query_nvmeof_subsystems meta.nvmeof_subsystem_id)
            (map_ok (owns_subsystem meta)) (subsystem_looked_up meta) (λ _ _. tt)
            (subsystem_looked_up-Guarded meta known clear false (λ e. cc))
            (after_subsystem_query known clear))

  after_namespace-Guarded :
      (known : List Event)
      → ((log : List Event) → Knows known log → Cleared (volume_of true meta) log)
      → (e : Option NvmeofError)
      → Guarded {B = B} (Needs (volume_of true meta)) known (after_namespace meta e)
  unfolding after_namespace
  after_namespace-Guarded known clear none =
      Guarded-bind _ _ (delete_nvmeof_subsystem-Guarded known clear)
        (after_subsystem-Guarded meta known clear)
  after_namespace-Guarded known clear (some e) =
      Guarded-if (is_positive meta.nvmeof_namespace_id) _ _ (λ _. Guarded-pure _)
        (λ _. Guarded-bind _ _ (delete_nvmeof_subsystem-Guarded known clear) (λ _. Guarded-pure _))

  delete_nvmeof_resources-Guarded :
      (known : List Event)
      → is_empty meta.dataset_id ≡ false
      → ((log : List Event) → Knows known log → Owned true meta.name meta.dataset_id log)
      → Guarded {B = B} (Needs (volume_of true meta)) known (delete_nvmeof_resources meta)
  unfolding delete_nvmeof_resources
  delete_nvmeof_resources-Guarded known named own = rw named (
      snapshot_guard-Guarded meta known own _ (λ known' clear.
        Guarded-bind _ _ (delete_nvmeof_namespace-Guarded known' clear)
          (after_namespace-Guarded known' clear)))

module _ {B : Backend} (meta : VolumeMetadata) (named : is_empty meta.dataset_id ≡ false) where
  -- The identity of the volume is the same for the reconciled IDs.
  reconciled-Guarded :
      (known : List Event) (o : VolumeOwnership)
      → ((log : List Event) → Knows known log → Owned true meta.name meta.dataset_id log)
      → Guarded {B = B}
          (Needs (volume_of true meta))
          known
          (delete_nvmeof_resources (reconcile_nvmeof meta o))
  unfolding reconcile_nvmeof
  reconciled-Guarded known o own = elim (Bool-cases o.not_found) [
    | inl gone ↦ rw gone (delete_nvmeof_resources-Guarded meta known named own)
    | inr there ↦ rw there (
        delete_nvmeof_resources-Guarded
          (record meta {
            nvmeof_subsystem_id =
                stored_or (string_to_int (get property_nvme_subsystem_id o.props))
                  meta.nvmeof_subsystem_id;
            nvmeof_namespace_id =
                stored_or (string_to_int (get property_nvme_namespace_id o.props))
                  meta.nvmeof_namespace_id;
          })
          known named own)
  ]

  nvmeof_owned-Guarded :
      (known : List Event) (o : VolumeOwnership)
      → ((true ≡ true) ⊎ (o.not_found ≡ false)
          → is_retained o.delete_strategy ≡ false
          → (log : List Event) → Knows known log
          → Owned true meta.name meta.dataset_id log)
      → Guarded {B = B} (Needs (volume_of true meta)) known (nvmeof_owned meta (ok o))
  unfolding nvmeof_owned
  nvmeof_owned-Guarded known o own =
      Guarded-if (is_retained o.delete_strategy) _ _ (λ _. Guarded-pure none)
        (λ kept. reconciled-Guarded known o (own (inl refl) kept))

  nvmeof_refused :
      (known : List Event) (c : Code)
      → Guarded {B = B} (Needs (volume_of true meta)) known (nvmeof_owned meta (err c))
  unfolding nvmeof_owned
  nvmeof_refused known c = Guarded-pure (some c)

  nvmeof-Guarded : Guarded {B = B} (Needs (volume_of true meta)) [] (delete_nvmeof_volume meta)
  unfolding delete_nvmeof_volume
  nvmeof-Guarded = rw named (
      read_volume_ownership-Guarded meta
        (property_nvme_subsystem_id ∷ property_nvme_namespace_id ∷ property_nvme_subsystem_nqn ∷ [])
        (nvmeof_owned meta) nvmeof_refused nvmeof_owned-Guarded)

-- Whatever the server answers, every call that deletes an NVMe-oF volume with a dataset ID has its
-- grounds in the replies before it: a namespace, a subsystem, a port binding or a snapshot is
-- deleted, a clone promoted and the ZVOL deleted only after the server had reported the ZVOL gone or
-- had returned its properties, in which the manager is this driver if one is recorded, the volume
-- name is this volume's if one is recorded, and the strategy is not to retain it, and had returned a
-- list of snapshots without a live CSI snapshot; a namespace only if the server had shown
-- it under its ID on the volume's ZVOL, a subsystem only if the server had shown it under its ID
-- with the volume's NQN, or with its name where no NQN is stored.
pub delete_nvmeof_volume-Justified :
    {B : Backend} (meta : VolumeMetadata) (s : Driver B)
    → is_empty meta.dataset_id ≡ false
    → s.log ≡ []
    → Justified (Needs (volume_of true meta)) (delete_nvmeof_volume meta s).1.log
delete_nvmeof_volume-Justified meta s named fresh =
    ((nvmeof-Guarded meta named).at s tt (rw fresh tt)).0
