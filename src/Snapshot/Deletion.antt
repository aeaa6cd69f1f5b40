-- ===== src/Snapshot/Deletion.antt =====
-- DeleteSnapshot (pkg/driver/controller_snapshot.go), with deleteDetachedSnapshot
-- (pkg/driver/controller_snapshot_detached.go) and lookupSnapshotByCSIName
-- (pkg/driver/controller.go). A handler's result is `none` for success.
pub mod Authorized
pub mod Success
use tns_csi.Common.{
  Str, str, str_eq, is_empty, has_suffix, contains, lookup, get, Map, pos, Option, none, some, Bool,
  true, false, not, ◌-◌, List, [], ◌∷◌, ◌++◌, length, take, Result, ok, err, if◌then◌else◌,
}
use tns_csi.Codes.{Code, invalid_argument, failed_precondition, internal}
use tns_csi.Errors.{Err, is_not_found}
use tns_csi.Properties.{
  property_managed_by, managed_by_value, property_detached_snapshot, property_snapshot_id,
  property_source_volume_id, property_protocol,
}
use tns_csi.Backend
use tns_csi.Backend.{Backend, Dataset, Snapshot, M, pure, ◌>>=◌, call}
use tns_csi.Snapshot.Id.{SnapshotMetadata, IdError, decode_snapshot_id}

-- props[name], and the value or "".
abbrev user_property : Str → Option (Map Str) → Option Str
user_property name none = none
user_property name (some props) = lookup name props

abbrev text_or_empty : Option Str → Str
text_or_empty none = []
text_or_empty (some v) = v

abbrev is_text : Str → Option Str → Bool
is_text s none = false
is_text s (some v) = str_eq v s

abbrev pub is_managed_dataset : Dataset → Bool
is_managed_dataset d =
    is_text managed_by_value (user_property property_managed_by d.user_properties)

abbrev snapshot_of : Str → Dataset → SnapshotMetadata
snapshot_of name d = record {
  snapshot_name = name;
  source_volume = text_or_empty (user_property property_source_volume_id d.user_properties);
  dataset_name = d.id;
  protocol = text_or_empty (user_property property_protocol d.user_properties);
  created_at = pos 0;
  detached = is_text (str "true") (user_property property_detached_snapshot d.user_properties);
}

abbrev first_managed : Str → List Dataset → Option SnapshotMetadata
first_managed name [] = none
first_managed name (d ∷ ds) = if is_managed_dataset d then some (snapshot_of name d) else none

abbrev datasets_found : Str → Result Err (List Dataset) → Result Err (Option SnapshotMetadata)
datasets_found name (err e) = err e
datasets_found name (ok ds) = ok (first_managed name ds)

-- The result of a deletion: what is not there counts as deleted.
abbrev pub deletion_code : Option Err → Option Code
deletion_code none = none
deletion_code (some e) = if is_not_found (some e) then none else some internal

-- The checks on the properties of the dataset: `none` to go on with the deletion, else the result.
-- If the properties cannot be read, the deletion goes on.
abbrev check_detached : Result Err (Map Str) → Option (Option Code)
check_detached (err e) = if is_not_found (some e) then some none else none
check_detached (ok props) =
    if not (str_eq (get property_managed_by props) managed_by_value)
    then some (some failed_precondition)
    else if not (str_eq (get property_detached_snapshot props) (str "true"))
    then some (some failed_precondition)
    else none

-- The dataset that the lookup gives, or "".
abbrev found_path : Result Err (Option SnapshotMetadata) → Str
found_path (err e) = []
found_path (ok none) = []
found_path (ok (some m)) = m.dataset_name

-- strings.TrimSuffix(s, suffix)
abbrev pub trim_suffix : Str → Str → Str
trim_suffix s suffix = if has_suffix s suffix then take (length s - length suffix) s else s

-- The snapshot has the name, on a dataset whose path contains the volume ID.
abbrev pub is_on_volume : Str → Str → Snapshot → Bool
is_on_volume name volume snap =
    if has_suffix snap.id (str "@" ++ name)
    then contains (trim_suffix snap.id (str "@" ++ name)) volume
    else false

-- The loop of resolveZFSSnapshotName.
unfoldable pub find_on_volume : Str → Str → List Snapshot → Option Str
find_on_volume name volume [] = none
find_on_volume name volume (snap ∷ snaps) =
    if is_on_volume name volume snap then some snap.id else find_on_volume name volume snaps

abbrev resolved : Str → Str → Result Err (List Snapshot) → Option Str
resolved name volume (err e) = none
resolved name volume (ok snaps) = find_on_volume name volume snaps

abbrev pub detached_names : List Str
detached_names = property_detached_snapshot ∷ property_managed_by ∷ []

module _ {B : Backend} where
  unfoldable pub lookup_snapshot_by_csi_name :
      Str → Str → M B (Result Err (Option SnapshotMetadata))
  lookup_snapshot_by_csi_name prefix name =
      call (Backend.find_datasets_by_property prefix property_snapshot_id name) >>= λ r.
      pure (datasets_found name r)

  unfoldable pub checked : Str → Option (Option Code) → M B (Option Code)
  checked path (some c) = pure c
  checked path none = call (Backend.delete_dataset path) >>= λ e. pure (deletion_code e)

  unfoldable pub delete_detached_dataset : Str → M B (Option Code)
  delete_detached_dataset path =
      if is_empty path
      then pure none
      else call (Backend.get_dataset_properties path detached_names) >>= λ r.
          checked path (check_detached r)

  unfoldable pub delete_detached_snapshot : SnapshotMetadata → M B (Option Code)
  delete_detached_snapshot m =
      if is_empty m.dataset_name
      then (lookup_snapshot_by_csi_name [] m.snapshot_name >>= λ r.
          delete_detached_dataset (found_path r))
      else delete_detached_dataset m.dataset_name

  unfoldable pub resolve_zfs_snapshot_name : SnapshotMetadata → M B (Option Str)
  resolve_zfs_snapshot_name m =
      if contains m.snapshot_name (str "@")
      then pure (some m.snapshot_name)
      else if contains m.source_volume (str "/")
      then pure (some (m.source_volume ++ str "@" ++ m.snapshot_name))
      else call (Backend.query_snapshots m.snapshot_name) >>= λ r.
          pure (resolved m.snapshot_name m.source_volume r)

  unfoldable pub delete_zfs_snapshot : Option Str → M B (Option Code)
  delete_zfs_snapshot none = pure none
  delete_zfs_snapshot (some id) = call (Backend.delete_snapshot id) >>= λ e. pure (deletion_code e)

  unfoldable pub delete_regular_snapshot : SnapshotMetadata → M B (Option Code)
  delete_regular_snapshot m = resolve_zfs_snapshot_name m >>= delete_zfs_snapshot

  unfoldable pub delete_decoded_snapshot : Result IdError SnapshotMetadata → M B (Option Code)
  delete_decoded_snapshot (err e) = pure none
  delete_decoded_snapshot (ok m) =
      if m.detached then delete_detached_snapshot m else delete_regular_snapshot m

  unfoldable pub delete_snapshot : Str → M B (Option Code)
  delete_snapshot snapshot_id =
      if is_empty snapshot_id
      then pure (some invalid_argument)
      else delete_decoded_snapshot (decode_snapshot_id snapshot_id)
