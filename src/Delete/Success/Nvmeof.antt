-- ===== src/Delete/Success/Nvmeof.antt =====
-- What the success of deleteNVMeOFVolume means.
use tns_csi.Common.{
  Str, is_empty, get, is_positive, Bool, true, false, not, Option, none, some, List, [], ◌∷◌, ok,
  err, ◌≡◌, refl, ◌⊎◌, inl, inr, arith, Bool-cases, if◌then◌else◌,
}
use tns_csi.Codes.{Code}
use tns_csi.Errors.{Err, is_dependent_clones}
use tns_csi.Properties.{
  string_to_int, property_nvme_subsystem_id, property_nvme_namespace_id,
  property_nvme_subsystem_nqn,
}
use tns_csi.Backend
use tns_csi.Backend.{Event, did, Backend, Driver, M, pure, ◌>>=◌, ◌>>◌, call}
use tns_csi.Backend.Guarded.{Knows}
use tns_csi.Backend.Ends.{Ends, Ends-pure, Ends-bind, Ends-learn, Ends-if, Ends-result, Ends-weaken}
use tns_csi.Volume.{VolumeMetadata}
use tns_csi.Delete.Ownership.{VolumeOwnership}
use tns_csi.Delete.Datasets.{fatal, try_promote_and_delete_dataset}
use tns_csi.Delete.Files.{is_retained}
use tns_csi.Delete.Nvmeof.{
  NvmeofError, zvol_error, zvol_code, retry_zvol, delete_zvol, delete_nvmeof_zvol, after_subsystem,
  after_namespace, delete_nvmeof_resources, reconcile_nvmeof, nvmeof_owned, delete_nvmeof_volume,
  stored_or,
}
use tns_csi.Delete.Success.Datasets.{Gone, GoneIf, try_promote-Ends, again-Gone, guarded-Ends}
use tns_csi.Delete.Success.Ownership.{Spared, Meant, read_volume_ownership-Ends}

none_of_zvol : (B : Backend) (d : Str) (e : Option Err) → zvol_error B d e ≡ none → e ≡ none
unfolding zvol_error
none_of_zvol B d none h = refl
none_of_zvol B d (some e) h = cc

none_of_code : (e : Option Err) → zvol_code e ≡ none → e ≡ none
unfolding zvol_code
none_of_code none h = refl
none_of_code (some e) h = elim (Bool-cases (is_dependent_clones (some e))) [
  | inl clones ↦ cc (rw clones at h)
  | inr other ↦ cc (rw other at h)
]

module _ {B : Backend} (d : Str) where
  retry_zvol-Ends : Ends {B = B} (GoneIf none d) [] (retry_zvol d)
  unfolding retry_zvol
  retry_zvol-Ends =
      Ends-bind _ _
        (λ _. Ends-result _ (zvol_error B d) (λ s h. again-Gone d _ s (none_of_zvol B d _ h)))

  -- A promotion that deleted the dataset, or the retries.
  promoted-Ends :
      Ends {B = B}
        (GoneIf none d)
        []
        (try_promote_and_delete_dataset d >>= λ gone. if gone then pure none else retry_zvol d)
  unfolding ◌>>=◌ pure
  promoted-Ends = record {
    at = λ s k. after (try_promote_and_delete_dataset d s) ((try_promote-Ends d).at s tt);
  }
    where
      next : Bool × Driver B → Option Err × Driver B
      next r = (if r.0 then pure none else retry_zvol d) r.1

      after :
          (r : Bool × Driver B)
          → GoneIf true d r.0 r.1.log
          → GoneIf none d (next r).0 (next r).1.log
      after (true, s) g h = g refl
      after (false, s) g h = (retry_zvol-Ends).at s tt h

module _ {B : Backend} (meta : VolumeMetadata) (named : is_empty meta.dataset_id ≡ false) where
  delete_zvol-Ends : Ends {B = B} (GoneIf none meta.dataset_id) [] (delete_zvol meta)
  unfolding delete_zvol
  delete_zvol-Ends = rw named (
      Ends-learn (Backend.delete_dataset meta.dataset_id) _ (λ first.
        Ends-if (not (fatal first)) _ _
          (λ fine. Ends-pure none (λ log k h. (first, k.0, ground arith)))
          (λ bad.
            Ends-if (is_dependent_clones first) _ _
              (λ clones. Ends-weaken (promoted-Ends meta.dataset_id))
              (λ other. Ends-weaken (retry_zvol-Ends meta.dataset_id)))))

  delete_nvmeof_zvol-Ends : Ends {B = B} (GoneIf none meta.dataset_id) [] (delete_nvmeof_zvol meta)
  unfolding delete_nvmeof_zvol
  delete_nvmeof_zvol-Ends =
      rw named (Ends-result _ zvol_code (λ s h. delete_zvol-Ends.at s tt (none_of_code _ h)))

  after_subsystem-Ends :
      (e : Option NvmeofError)
      → Ends {B = B} (GoneIf none meta.dataset_id) [] (after_subsystem meta e)
  unfolding after_subsystem
  after_subsystem-Ends (some e) = Ends-pure _ (λ log k h. cc)
  after_subsystem-Ends none = delete_nvmeof_zvol-Ends

  after_namespace-Ends :
      (e : Option NvmeofError)
      → Ends {B = B} (GoneIf none meta.dataset_id) [] (after_namespace meta e)
  unfolding after_namespace
  after_namespace-Ends none = Ends-bind _ _ after_subsystem-Ends
  after_namespace-Ends (some e) =
      Ends-if (is_positive meta.nvmeof_namespace_id) _ _ (λ _. Ends-pure _ (λ log k h. cc))
        (λ _. Ends-bind _ _ (λ _. Ends-pure _ (λ log k h. cc)))

  delete_nvmeof_resources-Ends :
      Ends {B = B} (GoneIf none meta.dataset_id) [] (delete_nvmeof_resources meta)
  unfolding delete_nvmeof_resources
  delete_nvmeof_resources-Ends =
      Ends-bind _ _ (λ r. guarded-Ends meta.dataset_id _ r (Ends-bind _ _ after_namespace-Ends))

module _ {B : Backend} (meta : VolumeMetadata) (named : is_empty meta.dataset_id ≡ false) where
  reconciled-Ends :
      (o : VolumeOwnership)
      → Ends {B = B}
          (GoneIf none meta.dataset_id)
          []
          (delete_nvmeof_resources (reconcile_nvmeof meta o))
  unfolding reconcile_nvmeof
  reconciled-Ends o = elim (Bool-cases o.not_found) [
    | inl gone ↦ rw gone (delete_nvmeof_resources-Ends meta named)
    | inr there ↦ rw there (
        delete_nvmeof_resources-Ends
          (record meta {
            nvmeof_subsystem_id =
                stored_or (string_to_int (get property_nvme_subsystem_id o.props))
                  meta.nvmeof_subsystem_id;
            nvmeof_namespace_id =
                stored_or (string_to_int (get property_nvme_namespace_id o.props))
                  meta.nvmeof_namespace_id;
          })
          named)
  ]

  nvmeof_owned-Ends :
      (known : List Event) (o : VolumeOwnership)
      → ((o.not_found ≡ true) ⊎ (is_retained o.delete_strategy ≡ true)
          → (log : List Event) → Knows known log
          → Spared meta.dataset_id log)
      → Ends {B = B} (Meant meta.dataset_id) known (nvmeof_owned meta (ok o))
  unfolding nvmeof_owned
  nvmeof_owned-Ends known o spared =
      Ends-if (is_retained o.delete_strategy) _ _
        (λ kept. Ends-pure none (λ log k h. inr (spared (inr kept) log k)))
        (λ _. record { at = λ s k h. inl ((reconciled-Ends o).at s tt h) })

  refused_nvmeof :
      (known : List Event) (c : Code)
      → Ends {B = B} (Meant meta.dataset_id) known (nvmeof_owned meta (err c))
  unfolding nvmeof_owned
  refused_nvmeof known c = Ends-pure _ (λ log k h. cc)

-- deleteNVMeOFVolume, for a volume with a dataset ID, succeeds only if the server answered a
-- deletion of the ZVOL with success or "not found", or had reported the ZVOL gone or to be retained.
pub delete_nvmeof_volume-Meant :
    {B : Backend} (meta : VolumeMetadata) (s : Driver B)
    → is_empty meta.dataset_id ≡ false
    → (delete_nvmeof_volume meta s).0 ≡ none
    → Gone meta.dataset_id (delete_nvmeof_volume meta s).1.log
      ⊎ Spared meta.dataset_id (delete_nvmeof_volume meta s).1.log
unfolding delete_nvmeof_volume
delete_nvmeof_volume-Meant {B} meta s named = whole.at s tt
  where
    whole : Ends {B = B} (Meant meta.dataset_id) [] (delete_nvmeof_volume meta)
    whole = rw named (
        read_volume_ownership-Ends meta
          (property_nvme_subsystem_id ∷ property_nvme_namespace_id ∷ property_nvme_subsystem_nqn
            ∷ [])
          (nvmeof_owned meta) (refused_nvmeof meta named) (nvmeof_owned-Ends meta named))
