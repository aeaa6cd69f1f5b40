-- ===== src/Delete/Success/Datasets.antt =====
-- What the success of the deletion of a dataset means.
use tns_csi.Common.{
  Str, Bool, true, false, not, Option, none, some, List, [], ◌≡◌, refl, inl, arith, if◌then◌else◌,
}
use tns_csi.Codes.{Code, failed_precondition}
use tns_csi.Errors.{Err, is_dependent_clones}
use tns_csi.Backend
use tns_csi.Backend.{Event, did, Backend, Driver, M, pure, ◌>>=◌, ◌>>◌, call, with_deletion_retry}
use tns_csi.Backend.Keeps.{with_deletion_retry_good}
use tns_csi.Backend.Guarded.{Happened}
use tns_csi.Backend.Ends.{Ends, Ends-pure, Ends-bind, Ends-learn, Ends-if, Ends-result, Ends-weaken}
use tns_csi.Delete.Datasets.{
  fatal, ignore_not_found, internal_on_error, try_promote_and_delete_dataset, delete_dataset_again,
  retry_dataset_deletion, delete_dataset_with_fallback,
}
use tns_csi.Delete.Files.{if_none}

-- The server has answered a deletion of the dataset with success or "not found".
abbrev pub Gone : Str → List Event → Type 0
Gone dataset_id log =
    (e : Option Err) × Happened (did (Backend.delete_dataset dataset_id) e) log × (fatal e ≡ false)

abbrev pub GoneIf : {A : Type 0} → A → Str → A → List Event → Type 0
GoneIf good dataset_id r log = r ≡ good → Gone dataset_id log

ignored : (e : Option Err) → ignore_not_found e ≡ none → fatal e ≡ false
unfolding fatal
ignored none h = refl
ignored (some x) h = ground arith

none_of_internal : (e : Option Err) → internal_on_error e ≡ none → e ≡ none
none_of_internal none h = refl
none_of_internal (some e) h = cc

resolved_none :
    (b : Bool)
    → ◌≡◌ {A = Option Code} (if b then none else some failed_precondition) none
    → b ≡ true
resolved_none true h = refl
resolved_none false h = cc

module _ {B : Backend} (d : Str) where
  pub try_promote-Ends : Ends {B = B} (GoneIf true d) [] (try_promote_and_delete_dataset d)
  unfolding try_promote_and_delete_dataset
  try_promote-Ends = Ends-bind _ _ (λ promoted.
      Ends-if promoted _ _
        (λ _.
          Ends-learn (Backend.delete_dataset d) (λ e. pure (not (fatal e)))
            (λ e. Ends-pure _ (λ log k h. (e, k.0, ground arith))))
        (λ _. Ends-pure false (λ log k h. cc)))

  pub again-Gone :
      (name : Str) (s : Driver B)
      → (with_deletion_retry name (delete_dataset_again d) s).0 ≡ none
      → Gone d (with_deletion_retry name (delete_dataset_again d) s).1.log
  unfolding delete_dataset_again ◌>>=◌ pure call
  again-Gone name s h =
      with_deletion_retry_good (λ t. Gone d t.log) name (delete_dataset_again d)
        (λ t e. ((call (Backend.delete_dataset d) t).0, inl refl, ignored _ e)) s h

  retry_dataset_deletion-Ends :
      (name : Str) → Ends {B = B} (GoneIf none d) [] (retry_dataset_deletion name d)
  unfolding retry_dataset_deletion
  retry_dataset_deletion-Ends name =
      Ends-bind _ _
        (λ _. Ends-result _ internal_on_error (λ s h. again-Gone name s (none_of_internal _ h)))

  pub delete_dataset_with_fallback-Ends :
      (name : Str) → Ends {B = B} (GoneIf none d) [] (delete_dataset_with_fallback name d)
  unfolding delete_dataset_with_fallback
  delete_dataset_with_fallback-Ends name = Ends-learn (Backend.delete_dataset d) _ (λ first.
      Ends-if (not (fatal first)) _ _
        (λ fine. Ends-pure none (λ log k h. (first, k.0, ground arith)))
        (λ bad.
          Ends-if (is_dependent_clones first) _ _
            (λ clones. Ends-result _ _ (λ s h. try_promote-Ends.at s tt (resolved_none _ h)))
            (λ other. Ends-weaken (retry_dataset_deletion-Ends name))))

  pub guarded-Ends :
      (next : M B (Option Code)) (r : Option Code)
      → Ends (GoneIf none d) [] next
      → Ends (GoneIf none d) [] (if_none next r)
  guarded-Ends next none e = e
  guarded-Ends next (some c) e = Ends-pure (some c) (λ log k h. cc)
