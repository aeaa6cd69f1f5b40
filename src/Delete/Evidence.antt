-- ===== src/Delete/Evidence.antt =====
-- The tests of volume_delete.go give the grounds of Delete.Grounds.
use tns_csi.Common.{
  Str, str_eq, str_eq_iff, Map, lookup, get, Bool, true, false, not, ◌&&◌, Option, none, some, List,
  [], ◌∷◌, any, Result, ok, err, ◌≡◌, refl, ap, ◌∙◌, inl, inr, ◌≢◌, ◌⊎◌, arith, Bool-cases,
  if◌then◌else◌,
}
use tns_csi.Codes.{Code}
use tns_csi.Errors.{Err, is_not_found}
use tns_csi.Properties.{
  property_managed_by, managed_by_value, property_csi_volume_name, property_delete_strategy,
  delete_strategy_retain,
}
use tns_csi.Backend.{IscsiTarget, IscsiExtent, NvmeofNamespace, NvmeofSubsystem, Snapshot}
use tns_csi.Volume.{VolumeMetadata, is_dataset_path_volume_id}
use tns_csi.Delete.Datasets.{is_csi_snapshot, is_deferred, blocks_deletion}
use tns_csi.Delete.Ownership.{
  VolumeOwnership, judge_ownership, other_volume, foreign_manager, strategy_or_delete, owns_target,
  owns_extent, owns_subsystem, owns_namespace, presentation_volume_name, zvol_device,
}
use tns_csi.Delete.Files.{is_retained}
use tns_csi.Delete.Grounds.{
  volume_of, SameVolume, OwnManager, MayDelete, matches_target, matches_extent, matches_namespace,
  matches_subsystem,
}

own_manager : (m : Option Str) → foreign_manager m ≡ false → OwnManager m
own_manager none h = tt
own_manager (some m) h = ground (arith, str_eq_iff m managed_by_value)

same_volume : (name : Str) (v : Option Str) → other_volume name v ≡ false → SameVolume name v
unfolding other_volume is_dataset_path_volume_id
same_volume name none h = tt
same_volume name (some stored) h = elim (Bool-cases (str_eq stored name)) [
  | inl same ↦ inl ((str_eq_iff stored name).0 same)
  | inr other ↦ inr (ground arith)
]

accepted :
    (f g : Bool) (a b : Code) (o' o : VolumeOwnership)
    → (if f then err a else if g then err b else ok o') ≡ ok o
    → (f ≡ false) × (g ≡ false) × (o' ≡ o)
accepted true g a b o' o h = cc
accepted false true a b o' o h = cc
accepted false false a b o' o h = (refl, refl, ok_injective h)
  where
    ok_injective : ◌≡◌ {A = Result Code VolumeOwnership} (ok o') (ok o) → o' ≡ o
    ok_injective h = cc

not_retained : (s : Str) → is_retained (strategy_or_delete s) ≡ false → s ≢ delete_strategy_retain
not_retained [] h e = cc
not_retained (c ∷ s) h e = ground (arith, str_eq_iff (c ∷ s) delete_strategy_retain)

-- An answer that judge_ownership accepts, with a strategy other than "retain", permits deletion; a
-- dataset that is gone only where that suffices.
pub judge_ownership-MayDelete :
    {gone : Bool} (name : Str) (r : Result Err (Map Str)) (o : VolumeOwnership)
    → judge_ownership name r ≡ ok o
    → (gone ≡ true) ⊎ (o.not_found ≡ false)
    → is_retained o.delete_strategy ≡ false
    → MayDelete gone name r
unfolding judge_ownership
judge_ownership-MayDelete name (err e) o h there k = elim (Bool-cases (is_not_found (some e))) [
  | inl gone ↦ elim there [
    | inl enough ↦ (enough, gone)
    | inr other ↦ absurd (found o gone h other)
  ]
  | inr there ↦ cc
]
  where
    found :
        (o : VolumeOwnership)
        → is_not_found (some e) ≡ true
        → judge_ownership name (err e) ≡ ok o
        → o.not_found ≢ false
    found o gone h other = cc
judge_ownership-MayDelete name (ok props) o h there k =
    let (own, same, e) =
      accepted (foreign_manager (lookup property_managed_by props))
        (other_volume name (lookup property_csi_volume_name props)) _ _ _ _ h in
    (
      own_manager _ own,
      same_volume name _ same,
      not_retained (get property_delete_strategy props)
          (ap (λ v. is_retained v.delete_strategy) e ∙ k),
    )

pub blocks_deletion-any :
    (snaps : List Snapshot)
    → blocks_deletion snaps ≡ any (λ s. is_csi_snapshot s && not (is_deferred s)) snaps
unfolding blocks_deletion
blocks_deletion-any [] = refl
blocks_deletion-any (s ∷ snaps) = ground (arith, blocks_deletion-any snaps)

pub owns_target-any :
    (meta : VolumeMetadata) (ts : List IscsiTarget)
    → owns_target meta ts ≡ true
    → any (matches_target (volume_of false meta) meta.iscsi_target_id) ts ≡ true
unfolding owns_target presentation_volume_name
owns_target-any meta [] h = cc
owns_target-any meta (t ∷ ts) h = ground (arith, owns_target-any meta ts)

pub owns_extent-any :
    (meta : VolumeMetadata) (es : List IscsiExtent)
    → owns_extent meta es ≡ true
    → any (matches_extent (volume_of false meta) meta.iscsi_extent_id) es ≡ true
unfolding owns_extent zvol_device
owns_extent-any meta [] h = cc
owns_extent-any meta (e ∷ es) h = ground (arith, owns_extent-any meta es)

pub owns_subsystem-any :
    (meta : VolumeMetadata) (subs : List NvmeofSubsystem)
    → owns_subsystem meta subs ≡ true
    → any (matches_subsystem (volume_of false meta) meta.nvmeof_subsystem_id) subs ≡ true
unfolding owns_subsystem presentation_volume_name
owns_subsystem-any meta [] h = cc
owns_subsystem-any meta (s ∷ subs) h = ground (arith, owns_subsystem-any meta subs)

pub owns_namespace-some :
    (meta : VolumeMetadata) (found : Option NvmeofNamespace)
    → owns_namespace meta found ≡ true
    → (ns : NvmeofNamespace) × (found ≡ some ns)
      × (matches_namespace (volume_of false meta) ns ≡ true)
unfolding owns_namespace zvol_device
owns_namespace-some meta none h = cc
owns_namespace-some meta (some ns) h = (ns, refl, h)
