-- ===== src/Snapshot/Creation.antt =====
-- createRegularSnapshot (pkg/driver/controller_snapshot.go), the creation of a snapshot of a dataset
-- that CreateSnapshot has found.
pub mod Marked
pub mod Made
use tns_csi.Common.{
  Str, str, str_eq, is_empty, contains, cut, Map, ℤ, Option, none, some, Bool, true, false, List,
  [], ◌∷◌, Result, ok, err, if◌then◌else◌,
}
use tns_csi.Codes.{Code, already_exists, internal}
use tns_csi.Errors.{Err}
use tns_csi.Properties.{
  property_managed_by, managed_by_value, property_detached_snapshot, property_snapshot_id,
  property_source_volume_id, property_protocol, property_delete_strategy, delete_strategy_delete,
  property_cluster_id,
}
use tns_csi.Backend
use tns_csi.Backend.{Backend, Snapshot, M, pure, ◌>>=◌, call}
use tns_csi.Snapshot.Id.{SnapshotMetadata, IdError, encode_snapshot_id}

-- The arguments, with the cluster ID of the service.
pub record SnapshotRequest : Type 0 where
  pub name : Str
  pub source_volume_id : Str
  pub dataset_name : Str
  pub protocol : Str
  pub size_bytes : ℤ
  pub cluster_id : Str

-- csi.Snapshot
pub record CsiSnapshot : Type 0 where
  pub snapshot_id : Str
  pub source_volume_id : Str
  pub creation_time : ℤ
  pub ready_to_use : Bool
  pub size_bytes : ℤ

-- strings.Split(id, "@") with two parts: the first one.
unfoldable pub dataset_of_id : Str → Option Str
dataset_of_id id = elim (cut b'@' id) [
  | none ↦ none
  | some (dataset, name) ↦ if contains name (str "@") then none else some dataset
]

-- What the snapshots of the name say: the first with a valid ID decides.
pub data Existing : Type 0 where
  no_snapshot conflict : Existing
  same : Str → Existing

abbrev pub judge : Str → Str → Option Str → Existing → Existing
judge dataset id none rest = rest
judge dataset id (some d) rest = if str_eq d dataset then same id else conflict

unfoldable pub find_existing : Str → List Snapshot → Existing
unfolding dataset_of_id
find_existing dataset [] = no_snapshot
find_existing dataset (snap ∷ snaps) =
    judge dataset snap.id (dataset_of_id snap.id) (find_existing dataset snaps)

abbrev pub existing_in : Str → Result Err (List Snapshot) → Existing
existing_in dataset (err e) = no_snapshot
existing_in dataset (ok snaps) = find_existing dataset snaps

-- The properties that are set on a new snapshot.
unfoldable pub snapshot_properties : SnapshotRequest → Map Str
snapshot_properties req =
    (property_managed_by, managed_by_value)
    ∷ (property_snapshot_id, req.name)
    ∷ (property_source_volume_id, req.source_volume_id)
    ∷ (property_detached_snapshot, str "false")
    ∷ (property_protocol, req.protocol)
    ∷ (property_delete_strategy, delete_strategy_delete)
    ∷ (if is_empty req.cluster_id then [] else (property_cluster_id, req.cluster_id) ∷ [])

abbrev pub snapshot_metadata : SnapshotRequest → Str → ℤ → SnapshotMetadata
snapshot_metadata req id now = record {
  snapshot_name = id;
  source_volume = req.source_volume_id;
  dataset_name = req.dataset_name;
  protocol = req.protocol;
  created_at = now;
  detached = false;
}

abbrev pub encoded_response : SnapshotRequest → ℤ → Result IdError Str → Result Code CsiSnapshot
encoded_response req now (err e) = err internal
encoded_response req now (ok snapshot_id) = ok (record {
  snapshot_id = snapshot_id;
  source_volume_id = req.source_volume_id;
  creation_time = now;
  ready_to_use = true;
  size_bytes = req.size_bytes;
})

unfoldable pub snapshot_response : SnapshotRequest → Str → ℤ → Result Code CsiSnapshot
snapshot_response req id now =
    encoded_response req now (encode_snapshot_id (snapshot_metadata req id now))

module _ {B : Backend} (req : SnapshotRequest) where
  unfoldable pub respond : Str → M B (Result Code CsiSnapshot)
  respond id = call Backend.unix_time >>= λ now. pure (snapshot_response req id now)

  -- Without its properties a new snapshot is deleted again.
  unfoldable pub after_marking : Str → Option Err → M B (Result Code CsiSnapshot)
  after_marking id none = respond id
  after_marking id (some e) = call (Backend.delete_snapshot id) >>= λ e. pure (err internal)

  unfoldable pub after_creation : Result Err Snapshot → M B (Result Code CsiSnapshot)
  after_creation (err e) = pure (err internal)
  after_creation (ok snap) =
      call (Backend.set_snapshot_properties snap.id (snapshot_properties req))
      >>= after_marking snap.id

  unfoldable pub after_query : Existing → M B (Result Code CsiSnapshot)
  after_query no_snapshot =
      call (Backend.create_snapshot req.dataset_name req.name) >>= after_creation
  after_query (same id) = respond id
  after_query conflict = pure (err already_exists)

  unfoldable pub create_regular_snapshot : M B (Result Code CsiSnapshot)
  create_regular_snapshot =
      call (Backend.query_snapshots req.name) >>= λ r. after_query (existing_in req.dataset_name r)
