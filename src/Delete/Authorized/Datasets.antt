-- ===== src/Delete/Authorized/Datasets.antt =====
-- The grounds of the calls that the protocols share: reading the ownership, the guard on snapshots,
-- clearing the stored IDs, and the deletion of the dataset with its fallbacks.
use tns_csi.Common.{
  Str, str_eq_refl, is_empty, Map, Bool, true, false, not, Option, none, List, [], ◌∷◌, any, Result,
  ok, err, ◌≡◌, ◌⊎◌, refl, sym, ◌∙◌, arith, inl, inr, Bool-cases,
}
use tns_csi.Codes.{Code}
use tns_csi.Errors.{Err, is_dependent_clones}
use tns_csi.Backend
use tns_csi.Backend.{Snapshot, Event, did, Backend, M, pure, ◌>>=◌, ◌>>◌, call}
use tns_csi.Backend.Guarded.{
  Knows, Guarded, Guarded-pure, Guarded-bind, Guarded-call, Guarded-reply, Guarded-learn,
  Guarded-if, Guarded-with_deletion_retry,
}
use tns_csi.Volume.{VolumeMetadata}
use tns_csi.Delete.Ownership.{
  zeroed, forget_presentation_ids, read_volume_ownership, judge_ownership, ownership_names,
  VolumeOwnership,
}
use tns_csi.Delete.Datasets.{
  fatal, is_csi_snapshot, has_clones, clones_of, blocks_deletion, trim_space, succeeded, guard_code,
  blocked, dataset_has_csi_managed_snapshots, delete_snapshots, delete_dataset_snapshots,
  promote_clones, promote_of_snapshots, delete_queried, promote_queried,
  promote_clones_of_deferred_snapshots, try_promote_and_delete_dataset, delete_dataset_again,
  retry_dataset_deletion, delete_dataset_with_fallback, snapshot_guard, ignore_not_found,
}
use tns_csi.Delete.Files.{is_retained, if_none}
use tns_csi.Delete.Grounds.{volume_of, Owned, Cleared, Needs, disposable}
use tns_csi.Delete.Evidence.{judge_ownership-MayDelete, blocks_deletion-any}

module _ {B : Backend} {gone : Bool} (meta : VolumeMetadata) (known : List Event) where
  pub forget-Guarded :
      ((log : List Event) → Knows known log → Owned gone meta.name meta.dataset_id log)
      → (keys : List Str)
      → Guarded {B = B}
          (Needs (volume_of gone meta))
          known
          (forget_presentation_ids meta.dataset_id keys)
  unfolding forget_presentation_ids
  forget-Guarded own keys =
      Guarded-if (is_empty meta.dataset_id) _ _ (λ _. Guarded-pure tt)
        (λ _.
          Guarded-reply (Backend.set_dataset_properties meta.dataset_id (zeroed keys)) (λ e. tt)
            (λ log k. (refl, own log k)))

module _ {B : Backend} {gone : Bool} (meta : VolumeMetadata) (known : List Event)
    (clear : (log : List Event) → Knows known log → Cleared (volume_of gone meta) log) where
  promote_clones-Guarded :
      (clones : List Str) (promoted : Bool)
      → Guarded {B = B} (Needs (volume_of gone meta)) known (promote_clones clones promoted)
  unfolding promote_clones
  promote_clones-Guarded [] promoted = Guarded-pure promoted
  promote_clones-Guarded (c ∷ clones) promoted =
      Guarded-bind _ _
        (Guarded-if (is_empty (trim_space c)) _ _ (λ _. Guarded-pure promoted)
          (λ _.
            Guarded-reply (Backend.promote_dataset (trim_space c)) (λ e. succeeded e promoted)
              clear))
        (promote_clones-Guarded clones)

  promote_of_snapshots-Guarded :
      (snaps : List Snapshot) (promoted : Bool)
      → Guarded {B = B} (Needs (volume_of gone meta)) known (promote_of_snapshots snaps promoted)
  unfolding promote_of_snapshots
  promote_of_snapshots-Guarded [] promoted = Guarded-pure promoted
  promote_of_snapshots-Guarded (s ∷ snaps) promoted =
      Guarded-bind _ _ (promote_clones-Guarded (clones_of s) promoted)
        (promote_of_snapshots-Guarded snaps)

  promote_queried-Guarded :
      (r : Result Err (List Snapshot))
      → Guarded {B = B} (Needs (volume_of gone meta)) known (promote_queried r)
  unfolding promote_queried
  promote_queried-Guarded (err e) = Guarded-pure false
  promote_queried-Guarded (ok snaps) = promote_of_snapshots-Guarded snaps false

  pub try_promote-Guarded :
      Guarded {B = B}
        (Needs (volume_of gone meta))
        known
        (try_promote_and_delete_dataset meta.dataset_id)
  unfolding try_promote_and_delete_dataset promote_clones_of_deferred_snapshots
  try_promote-Guarded =
      Guarded-bind _ _
        (Guarded-bind _ _
          (Guarded-call (Backend.query_snapshots_with_properties meta.dataset_id) (λ _ _. tt))
          promote_queried-Guarded)
        (λ promoted.
          Guarded-if promoted _ _
            (λ _.
              Guarded-reply (Backend.delete_dataset meta.dataset_id) (λ e. not (fatal e))
                (λ log k. (refl, clear log k)))
            (λ _. Guarded-pure false))

  pub delete_again-Guarded :
      Guarded {B = B} (Needs (volume_of gone meta)) known (delete_dataset_again meta.dataset_id)
  unfolding delete_dataset_again
  delete_again-Guarded =
      Guarded-reply (Backend.delete_dataset meta.dataset_id) ignore_not_found
        (λ log k. (refl, clear log k))

abbrev shown : VolumeMetadata → List Event → List Snapshot → List Event
shown meta known snaps =
    did (Backend.query_snapshots_with_properties meta.dataset_id) (ok snaps) ∷ known

-- The snapshots that are deleted are among those of the reply.
module _ {B : Backend} {gone : Bool} (meta : VolumeMetadata) (known : List Event)
    (clear : (log : List Event) → Knows known log → Cleared (volume_of gone meta) log)
    (whole : List Snapshot) where
  delete_snapshots-Guarded :
      (snaps : List Snapshot)
      → ((p : Snapshot → Bool) → any p snaps ≡ true → any p whole ≡ true)
      → Guarded {B = B}
          (Needs (volume_of gone meta))
          (shown meta known whole)
          (delete_snapshots snaps)
  unfolding delete_snapshots
  delete_snapshots-Guarded [] among = Guarded-pure tt
  delete_snapshots-Guarded (s ∷ snaps) among =
      Guarded-bind _ _
        (Guarded-if (is_csi_snapshot s) _ _ (λ _. Guarded-pure tt)
          (λ other.
            Guarded-if (has_clones s) _ _ (λ _. Guarded-pure tt)
              (λ free.
                Guarded-reply (Backend.delete_snapshot s.id) (λ e. tt)
                  (λ log k. (
                    clear log k.1,
                    (whole, k.0, among (disposable s.id) (is_disposable other free)),
                  )))))
        (λ _. delete_snapshots-Guarded snaps (λ p h. among p (later p h)))
    where
      is_disposable :
          is_csi_snapshot s ≡ false
          → has_clones s ≡ false
          → any (disposable s.id) (s ∷ snaps) ≡ true
      is_disposable other free = rw (str_eq_refl s.id, other, free) refl

      later : (p : Snapshot → Bool) → any p snaps ≡ true → any p (s ∷ snaps) ≡ true
      later p h = ground arith

module _ {B : Backend} {gone : Bool} (meta : VolumeMetadata) (known : List Event)
    (clear : (log : List Event) → Knows known log → Cleared (volume_of gone meta) log) where
  delete_queried-Guarded :
      (r : Result Err (List Snapshot))
      → Guarded {B = B}
          (Needs (volume_of gone meta))
          (did (Backend.query_snapshots_with_properties meta.dataset_id) r ∷ known)
          (delete_queried r)
  unfolding delete_queried
  delete_queried-Guarded (err e) = Guarded-pure tt
  delete_queried-Guarded (ok snaps) =
      delete_snapshots-Guarded meta known clear snaps snaps (λ p h. h)

  pub delete_dataset_snapshots-Guarded :
      Guarded {B = B} (Needs (volume_of gone meta)) known (delete_dataset_snapshots meta.dataset_id)
  unfolding delete_dataset_snapshots
  delete_dataset_snapshots-Guarded =
      Guarded-learn (Backend.query_snapshots_with_properties meta.dataset_id) delete_queried
        (λ _ _. tt) delete_queried-Guarded

  pub delete_dataset_with_fallback-Guarded :
      (name : Str)
      → Guarded {B = B}
          (Needs (volume_of gone meta))
          known
          (delete_dataset_with_fallback name meta.dataset_id)
  unfolding delete_dataset_with_fallback retry_dataset_deletion
  delete_dataset_with_fallback-Guarded name =
      Guarded-bind _ _
        (Guarded-call (Backend.delete_dataset meta.dataset_id) (λ log k. (refl, clear log k)))
        (λ first.
          Guarded-if (not (fatal first)) _ _ (λ _. Guarded-pure none)
            (λ _.
              Guarded-if (is_dependent_clones first) _ _
                (λ _. Guarded-bind _ _ (try_promote-Guarded meta known clear) (λ _. Guarded-pure _))
                (λ _. Guarded-bind _ _ delete_dataset_snapshots-Guarded (λ _.
                  Guarded-bind _ _
                    (Guarded-with_deletion_retry name _ (delete_again-Guarded meta known clear))
                    (λ e. Guarded-pure _)))))

-- What follows the guard may delete.
module _ {B : Backend} {gone : Bool} (meta : VolumeMetadata) (known : List Event)
    (own : (log : List Event) → Knows known log → Owned gone meta.name meta.dataset_id log)
    (next : M B (Option Code))
    (go : (known' : List Event)
      → ((log : List Event) → Knows known' log → Cleared (volume_of gone meta) log)
      → Guarded (Needs (volume_of gone meta)) known' next) where
  Guarded-next :
      (r : Result Err (List Snapshot))
      → Guarded
          (Needs (volume_of gone meta))
          (did (Backend.query_snapshots_with_properties meta.dataset_id) r ∷ known)
          (if_none next (guard_code (blocked r)))
  unfolding guard_code
  Guarded-next (err e) = Guarded-pure _
  Guarded-next (ok snaps) = elim (Bool-cases (blocks_deletion snaps)) [
    | inl held ↦ rw held (Guarded-pure _)
    | inr free ↦
        rw free
          (go _ (λ log k. (own log k.1, (snaps, k.0, sym (blocks_deletion-any snaps) ∙ free))))
  ]

  pub snapshot_guard-Guarded :
      Guarded (Needs (volume_of gone meta)) known (snapshot_guard meta.dataset_id >>= if_none next)
  unfolding snapshot_guard dataset_has_csi_managed_snapshots ◌>>=◌ pure
  snapshot_guard-Guarded =
      Guarded-learn (Backend.query_snapshots_with_properties meta.dataset_id)
        (λ r. if_none next (guard_code (blocked r))) (λ _ _. tt) Guarded-next

-- What follows the reading of the ownership may change the server where the answer permits it.
module _ {B : Backend} {gone : Bool} (meta : VolumeMetadata) (extra : List Str)
    (next : Result Code VolumeOwnership → M B (Option Code))
    (refused : (known : List Event) (c : Code)
      → Guarded (Needs (volume_of gone meta)) known (next (err c)))
    (go : (known : List Event) (o : VolumeOwnership)
      → ((gone ≡ true) ⊎ (o.not_found ≡ false)
          → is_retained o.delete_strategy ≡ false
          → (log : List Event) → Knows known log
          → Owned gone meta.name meta.dataset_id log)
      → Guarded (Needs (volume_of gone meta)) known (next (ok o))) where
  judged :
      (known : List Event) (r : Result Err (Map Str)) (j : Result Code VolumeOwnership)
      → judge_ownership meta.name r ≡ j
      → Guarded
          (Needs (volume_of gone meta))
          (did (Backend.get_dataset_properties meta.dataset_id (ownership_names extra)) r ∷ known)
          (next j)
  judged known r (err c) h = refused _ c
  judged known r (ok o) h =
      go _ o
        (λ there kept log k. (extra, r, k.0, judge_ownership-MayDelete meta.name r o h there kept))

  pub read_volume_ownership-Guarded :
      Guarded (Needs (volume_of gone meta)) [] (read_volume_ownership meta extra >>= next)
  unfolding read_volume_ownership ◌>>=◌ pure
  read_volume_ownership-Guarded =
      Guarded-learn (Backend.get_dataset_properties meta.dataset_id (ownership_names extra))
        (λ r. next (judge_ownership meta.name r)) (λ _ _. tt) (λ r. judged [] r _ refl)
