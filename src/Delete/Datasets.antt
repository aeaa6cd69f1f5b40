-- ===== src/Delete/Datasets.antt =====
-- pkg/driver/controller.go: the snapshots that hold a dataset back, the clones that are promoted,
-- and the deletion of a dataset with its fallbacks, which the four protocols share.
use tns_csi.Common.{
  ℕ, Str, str, str_eq, is_empty, lookup, Option, none, some, Bool, true, false, not, ◌&&◌, ◌||◌,
  List, [], ◌∷◌, ◌==◌, leb, Result, ok, err, if◌then◌else◌,
}
use tns_csi.Codes.{Code, failed_precondition, unavailable, internal}
use tns_csi.Errors.{Err, is_not_found, is_dependent_clones}
use tns_csi.Properties.{property_snapshot_id}
use tns_csi.Backend
use tns_csi.Backend.{Snapshot, Backend, M, pure, ◌>>=◌, ◌>>◌, call, with_deletion_retry}

-- `err != nil && !tnsapi.IsNotFound(err)`
unfoldable pub fatal : Option Err → Bool
fatal none = false
fatal (some e) = not (is_not_found (some e))

-- GetSnapshotPropertyValue (pkg/tnsapi/client.go): a value that is no string counts as missing.
abbrev join : Option (Option Str) → Option Str
join none = none
join (some v) = v

unfoldable pub get_snapshot_property_value : Snapshot → Str → Option Str
get_snapshot_property_value snap name = join (lookup name snap.properties)

abbrev is_present : Option Str → Bool
is_present none = false
is_present (some v) = true

abbrev equals : Str → Option Str → Bool
equals s none = false
equals s (some v) = str_eq v s

abbrev has_text : Option Str → Bool
has_text none = false
has_text (some v) = not (is_empty v)

-- The snapshot was made by CreateSnapshot.
unfoldable pub is_csi_snapshot : Snapshot → Bool
is_csi_snapshot snap = is_present (get_snapshot_property_value snap property_snapshot_id)

unfoldable pub is_deferred : Snapshot → Bool
is_deferred snap = equals (str "on") (get_snapshot_property_value snap (str "defer_destroy"))

unfoldable pub has_clones : Snapshot → Bool
has_clones snap = has_text (get_snapshot_property_value snap (str "clones"))

-- The loop of datasetHasCSIManagedSnapshots.
unfoldable pub blocks_deletion : List Snapshot → Bool
blocks_deletion [] = false
blocks_deletion (snap ∷ snaps) =
    if is_csi_snapshot snap && not (is_deferred snap) then true else blocks_deletion snaps

abbrev pub blocked : Result Err (List Snapshot) → Result Err Bool
blocked (err e) = err e
blocked (ok snaps) = ok (blocks_deletion snaps)

-- strings.TrimSpace on the ASCII spaces, and strings.Split(s, ",").
abbrev is_space : ℕ → Bool
is_space c = c == b' ' || (leb 9 c && leb c 13)

abbrev trim_left_space : Str → Str
trim_left_space [] = []
trim_left_space (c ∷ s) = let rest = trim_left_space s in if is_space c then rest else c ∷ s

abbrev trim_right_space : Str → Str
trim_right_space [] = []
trim_right_space (c ∷ s) = elim (trim_right_space s) [
  | [] ↦ if is_space c then [] else c ∷ []
  | x ∷ r ↦ c ∷ x ∷ r
]

unfoldable pub trim_space : Str → Str
trim_space s = trim_right_space (trim_left_space s)

abbrev cons_first : ℕ → List Str → List Str
cons_first c [] = (c ∷ []) ∷ []
cons_first c (w ∷ ws) = (c ∷ w) ∷ ws

unfoldable pub split_comma : Str → List Str
split_comma [] = [] ∷ []
split_comma (c ∷ s) = let rest = split_comma s in if c == b',' then [] ∷ rest else cons_first c rest

-- The clones of a deferred-destroy snapshot, as its "clones" property lists them.
abbrev text_of : Option Str → Str
text_of none = []
text_of (some v) = v

unfoldable pub clones_of : Snapshot → List Str
clones_of snap =
    if is_deferred snap && has_clones snap
    then split_comma (text_of (get_snapshot_property_value snap (str "clones")))
    else []

-- The function that is retried: a dataset that is gone is deleted.
abbrev pub ignore_not_found : Option Err → Option Err
ignore_not_found e = if fatal e then e else none

abbrev pub internal_on_error : Option Err → Option Code
internal_on_error none = none
internal_on_error (some e) = some internal

unfoldable pub guard_code : Result Err Bool → Option Code
guard_code (err e) = some unavailable
guard_code (ok true) = some failed_precondition
guard_code (ok false) = none

-- `promoted = true` unless the promotion failed.
abbrev pub succeeded : Option Err → Bool → Bool
succeeded none promoted = true
succeeded (some e) promoted = promoted

module _ {B : Backend} where
  unfoldable pub dataset_has_csi_managed_snapshots : Str → M B (Result Err Bool)
  dataset_has_csi_managed_snapshots dataset_id =
      call (Backend.query_snapshots_with_properties dataset_id) >>= λ r. pure (blocked r)

  unfoldable pub delete_snapshots : List Snapshot → M B (Unit {0})
  delete_snapshots [] = pure tt
  delete_snapshots (snap ∷ snaps) =
      (if is_csi_snapshot snap
        then pure tt
        else if has_clones snap
        then pure tt
        else call (Backend.delete_snapshot snap.id) >>= λ e. pure tt)
      >> delete_snapshots snaps

  unfoldable pub delete_queried : Result Err (List Snapshot) → M B (Unit {0})
  unfolding delete_snapshots
  delete_queried (err e) = pure tt
  delete_queried (ok snaps) = delete_snapshots snaps

  -- Best effort: failures are only logged.
  unfoldable pub delete_dataset_snapshots : Str → M B (Unit {0})
  unfolding delete_queried
  delete_dataset_snapshots dataset_id =
      call (Backend.query_snapshots_with_properties dataset_id) >>= delete_queried

  -- Whether any of the clones was promoted.
  unfoldable pub promote_clones : List Str → Bool → M B Bool
  promote_clones [] promoted = pure promoted
  promote_clones (clone ∷ clones) promoted =
      (if is_empty (trim_space clone)
        then pure promoted
        else (call (Backend.promote_dataset (trim_space clone)) >>= λ e.
            pure (succeeded e promoted)))
      >>= promote_clones clones

  unfoldable pub promote_of_snapshots : List Snapshot → Bool → M B Bool
  promote_of_snapshots [] promoted = pure promoted
  promote_of_snapshots (snap ∷ snaps) promoted =
      promote_clones (clones_of snap) promoted >>= promote_of_snapshots snaps

  unfoldable pub promote_queried : Result Err (List Snapshot) → M B Bool
  unfolding promote_of_snapshots promote_clones
  promote_queried (err e) = pure false
  promote_queried (ok snaps) = promote_of_snapshots snaps false

  unfoldable pub promote_clones_of_deferred_snapshots : Str → M B Bool
  unfolding promote_queried
  promote_clones_of_deferred_snapshots dataset_id =
      call (Backend.query_snapshots_with_properties dataset_id) >>= promote_queried

  -- Whether the dataset is gone: after a promotion its deletion is tried again, once.
  unfoldable pub try_promote_and_delete_dataset : Str → M B Bool
  try_promote_and_delete_dataset dataset_id =
      promote_clones_of_deferred_snapshots dataset_id >>= λ promoted.
      if promoted
      then (call (Backend.delete_dataset dataset_id) >>= λ e. pure (not (fatal e)))
      else pure false

  unfoldable pub delete_dataset_again : Str → M B (Option Err)
  delete_dataset_again dataset_id =
      call (Backend.delete_dataset dataset_id) >>= λ e. pure (ignore_not_found e)

  -- The snapshots are cleaned up, and the deletion is retried.
  unfoldable pub retry_dataset_deletion : Str → Str → M B (Option Code)
  unfolding delete_dataset_snapshots
  retry_dataset_deletion name dataset_id =
      delete_dataset_snapshots dataset_id
      >> (with_deletion_retry name (delete_dataset_again dataset_id) >>= λ e.
          pure (internal_on_error e))

  -- The deletion of the dataset in deleteNFSVolume, deleteSMBVolume and deleteISCSIVolume; `none`
  -- where it is gone.
  unfoldable pub delete_dataset_with_fallback : Str → Str → M B (Option Code)
  delete_dataset_with_fallback name dataset_id =
      call (Backend.delete_dataset dataset_id) >>= λ first.
      if not (fatal first)
      then pure none
      else if is_dependent_clones first
      then (try_promote_and_delete_dataset dataset_id >>= λ resolved.
          pure (if resolved then none else some failed_precondition))
      else retry_dataset_deletion name dataset_id

  -- The guard before it: `none` where no CSI snapshot holds the dataset back.
  unfoldable pub snapshot_guard : Str → M B (Option Code)
  unfolding guard_code
  snapshot_guard dataset_id =
      dataset_has_csi_managed_snapshots dataset_id >>= λ r. pure (guard_code r)
