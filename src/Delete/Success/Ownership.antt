-- ===== src/Delete/Success/Ownership.antt =====
-- What the success of a deletion means that the ownership alone decides.
use tns_csi.Common.{
  Str, str_eq, str_eq_iff, lookup, Map, get, Bool, true, false, Option, none, some, List, [], ◌∷◌,
  Result, ok, err, ◌≡◌, refl, sym, ap, ◌∙◌, ◌⊎◌, inl, inr, arith, Bool-cases, if◌then◌else◌,
}
use tns_csi.Codes.{Code}
use tns_csi.Errors.{Err, is_not_found}
use tns_csi.Properties.{
  property_delete_strategy, delete_strategy_retain, property_managed_by, property_csi_volume_name,
}
use tns_csi.Backend
use tns_csi.Backend.{Event, did, Backend, Driver, M, pure, ◌>>=◌, ◌>>◌, call}
use tns_csi.Backend.Guarded.{Happened, Knows}
use tns_csi.Backend.Ends.{Ends, Ends-pure, Ends-learn, Ends-if}
use tns_csi.Volume.{VolumeMetadata}
use tns_csi.Delete.Ownership.{
  VolumeOwnership, judge_ownership, ownership_names, read_volume_ownership, foreign_manager,
  other_volume, strategy_or_delete,
}
use tns_csi.Delete.Files.{is_retained}
use tns_csi.Delete.Success.Datasets.{Gone, GoneIf}

-- The answer on the ownership that lets a deletion succeed without doing anything.
abbrev pub SparedBy : Result Err (Map Str) → Type 0
SparedBy (err e) = is_not_found (some e) ≡ true
SparedBy (ok props) = get property_delete_strategy props ≡ delete_strategy_retain

abbrev pub Spared : Str → List Event → Type 0
Spared dataset_id log =
    (names : List Str) × (r : Result Err (Map Str)) × Happened
      (did (Backend.get_dataset_properties dataset_id names) r) log
    × SparedBy r

-- Success only if the dataset is gone, or the deletion has nothing to do.
abbrev pub Meant : Str → Option Code → List Event → Type 0
Meant dataset_id r log = r ≡ none → Gone dataset_id log ⊎ Spared dataset_id log

accepted :
    (f g : Bool) (a b : Code) (o' o : VolumeOwnership)
    → (if f then err a else if g then err b else ok o') ≡ ok o
    → o' ≡ o
accepted true g a b o' o h = cc
accepted false true a b o' o h = cc
accepted false false a b o' o h = cc

retained_strategy :
    (s : Str) → is_retained (strategy_or_delete s) ≡ true → s ≡ delete_strategy_retain
unfolding str_eq
retained_strategy [] h = cc
retained_strategy (c ∷ s) h = (str_eq_iff (c ∷ s) delete_strategy_retain).0 h

not_found_of :
    (f g : Bool) (a b : Code) (o' o : VolumeOwnership)
    → (if f then err a else if g then err b else ok o') ≡ ok o
    → o'.not_found ≡ false
    → o.not_found ≡ false
not_found_of f g a b o' o h k = ap (λ v. v.not_found) (sym (accepted f g a b o' o h)) ∙ k

-- A reply that marks the volume as gone or as retained.
pub judge_ownership-SparedBy :
    (name : Str) (r : Result Err (Map Str)) (o : VolumeOwnership)
    → judge_ownership name r ≡ ok o
    → (o.not_found ≡ true) ⊎ (is_retained o.delete_strategy ≡ true)
    → SparedBy r
unfolding judge_ownership
judge_ownership-SparedBy name (err e) o h k = elim (Bool-cases (is_not_found (some e))) [
  | inl gone ↦ gone
  | inr there ↦ cc
]
judge_ownership-SparedBy name (ok props) o h (inl k) = ground (
  arith,
  not_found_of (foreign_manager (lookup property_managed_by props))
      (other_volume name (lookup property_csi_volume_name props)) _ _ _ o h refl,
)
judge_ownership-SparedBy name (ok props) o h (inr k) =
    retained_strategy (get property_delete_strategy props) (
      ap (λ v. is_retained v.delete_strategy)
        (accepted (foreign_manager (lookup property_managed_by props))
          (other_volume name (lookup property_csi_volume_name props)) _ _ _ o h)
      ∙ k)

module _ {B : Backend} (meta : VolumeMetadata) (extra : List Str)
    (next : Result Code VolumeOwnership → M B (Option Code))
    (refused : (known : List Event) (c : Code) → Ends (Meant meta.dataset_id) known (next (err c)))
    (go : (known : List Event) (o : VolumeOwnership)
      → ((o.not_found ≡ true) ⊎ (is_retained o.delete_strategy ≡ true)
          → (log : List Event) → Knows known log
          → Spared meta.dataset_id log)
      → Ends (Meant meta.dataset_id) known (next (ok o))) where
  judged :
      (r : Result Err (Map Str)) (j : Result Code VolumeOwnership)
      → judge_ownership meta.name r ≡ j
      → Ends
          (Meant meta.dataset_id)
          (did (Backend.get_dataset_properties meta.dataset_id (ownership_names extra)) r ∷ [])
          (next j)
  judged r (err c) h = refused _ c
  judged r (ok o) h = go _ o (λ spared log k.
      (ownership_names extra, r, k.0, judge_ownership-SparedBy meta.name r o h spared))

  pub read_volume_ownership-Ends :
      Ends (Meant meta.dataset_id) [] (read_volume_ownership meta extra >>= next)
  unfolding read_volume_ownership ◌>>=◌ pure
  read_volume_ownership-Ends =
      Ends-learn (Backend.get_dataset_properties meta.dataset_id (ownership_names extra))
        (λ r. next (judge_ownership meta.name r)) (λ r. judged r _ refl)

module _ {B : Backend} (meta : VolumeMetadata) where
  -- The tests of the handlers on the ownership.
  pub unless-Spared :
      (known : List Event) (o : VolumeOwnership) (m : M B (Option Code))
      → ((o.not_found ≡ true) ⊎ (is_retained o.delete_strategy ≡ true)
          → (log : List Event) → Knows known log
          → Spared meta.dataset_id log)
      → Ends (GoneIf none meta.dataset_id) [] m
      → Ends (Meant meta.dataset_id) known (
          if o.not_found then pure none else if is_retained o.delete_strategy then pure none else m)
  unless-Spared known o m spared e =
      Ends-if o.not_found _ _ (λ gone. Ends-pure none (λ log k h. inr (spared (inl gone) log k)))
        (λ _.
          Ends-if (is_retained o.delete_strategy) _ _
            (λ kept. Ends-pure none (λ log k h. inr (spared (inr kept) log k)))
            (λ _. record { at = λ s k h. inl (e.at s tt h) }))
