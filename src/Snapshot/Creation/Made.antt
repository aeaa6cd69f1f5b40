-- ===== src/Snapshot/Creation/Made.antt =====
-- What a success of createRegularSnapshot (pkg/driver/controller_snapshot.go) means.
use mathlib.Core.Path.{subst}
use tns_csi.Common.{
  Str, str_eq, str_eq_iff, str_eq_refl, ℤ, Option, none, some, true, List, [], ◌∷◌, any, ok, err,
  Result, ◌≡◌, ◌⊎◌, refl, sym, arith, inl, inr, Bool-cases,
}
use tns_csi.Errors.{Err}
use tns_csi.Codes.{Code, internal, already_exists}
use tns_csi.Backend
use tns_csi.Backend.{Backend, Snapshot, Event, did, Driver, M, pure, ◌>>=◌, call}
use tns_csi.Backend.Guarded.{Happened, Knows}
use tns_csi.Backend.Ends.{Ends, Ends-pure, Ends-learn}
use tns_csi.Snapshot.Id.{IdError, encode_snapshot_id}
use tns_csi.Snapshot.Creation.{
  SnapshotRequest, CsiSnapshot, Existing, no_snapshot, same, conflict, existing_in, find_existing,
  dataset_of_id, judge, snapshot_properties, snapshot_metadata, snapshot_response, encoded_response,
  respond, after_marking, after_creation, after_query, create_regular_snapshot,
}

abbrev pub Lists : Str → List Snapshot → Type 0
Lists id snaps = any (λ (s : Snapshot). str_eq s.id id) snaps ≡ true

-- The server has listed the snapshot under the name, on the dataset.
abbrev pub Found : SnapshotRequest → Str → List Event → Type 0
Found req id log =
    (snaps : List Snapshot) × Happened (did (Backend.query_snapshots req.name) (ok snaps)) log
    × Lists id snaps
    × (dataset_of_id id ≡ some req.dataset_name)

-- The server has created the snapshot and accepted its properties.
abbrev pub Created : SnapshotRequest → Str → List Event → Type 0
Created req id log =
    (snap : Snapshot) × (snap.id ≡ id)
    × Happened (did (Backend.create_snapshot req.dataset_name req.name) (ok snap)) log
    × Happened (did (Backend.set_snapshot_properties id (snapshot_properties req)) none) log

-- The response names the snapshot, and carries the clock's answer.
abbrev pub Names : SnapshotRequest → Str → CsiSnapshot → List Event → Type 0
Names req id r log =
    Happened (did Backend.unix_time r.creation_time) log
    × (encode_snapshot_id (snapshot_metadata req id r.creation_time) ≡ ok r.snapshot_id)
    × (r.source_volume_id ≡ req.source_volume_id)
    × (r.size_bytes ≡ req.size_bytes)
    × (r.ready_to_use ≡ true)

abbrev pub Made : SnapshotRequest → CsiSnapshot → List Event → Type 0
Made req r log = (id : Str) × (Found req id log ⊎ Created req id log) × Names req id r log

abbrev MadeBy : SnapshotRequest → Result Code CsiSnapshot → List Event → Type 0
MadeBy req (err c) log = Unit
MadeBy req (ok r) log = Made req r log

judge-same :
    (dataset i id : Str) (o : Option Str) (rest : Existing)
    → judge dataset i o rest ≡ same id
    → ((o ≡ some dataset) × (i ≡ id)) ⊎ (rest ≡ same id)
judge-same dataset i id none rest h = inr h
judge-same dataset i id (some d) rest h = elim (Bool-cases (str_eq d dataset)) [
  | inl e ↦ inl (ground (arith, str_eq_iff d dataset))
  | inr e ↦ absurd (ground arith)
]

find_existing-same :
    (dataset id : Str) (snaps : List Snapshot)
    → find_existing dataset snaps ≡ same id
    → Lists id snaps × (dataset_of_id id ≡ some dataset)
unfolding find_existing
find_existing-same dataset id [] h = absurd (ground arith)
find_existing-same dataset id (snap ∷ snaps) h =
    elim (judge-same dataset snap.id id (dataset_of_id snap.id) (find_existing dataset snaps) h) [
      | inl first ↦ (rw (first.1, str_eq_refl id) refl, rw (sym first.1) first.0)
      | inr later ↦
          let (listed, on) = find_existing-same dataset id snaps later in (ground arith, on)
    ]

existing_in-same :
    (req : SnapshotRequest) (r : Result Err (List Snapshot)) (id : Str) (log : List Event)
    → existing_in req.dataset_name r ≡ same id
    → Happened (did (Backend.query_snapshots req.name) r) log
    → Found req id log
existing_in-same req (err e) id log h p = absurd (ground arith)
existing_in-same req (ok snaps) id log h p =
    let (listed, on) = find_existing-same req.dataset_name id snaps h in (snaps, p, listed, on)

encoded-MadeBy :
    (req : SnapshotRequest) (id : Str) (now : ℤ) (log : List Event) (x : Result IdError Str)
    → encode_snapshot_id (snapshot_metadata req id now) ≡ x
    → Found req id log ⊎ Created req id log
    → Happened (did Backend.unix_time now) log
    → MadeBy req (encoded_response req now x) log
encoded-MadeBy req id now log (err e) h made told = tt
encoded-MadeBy req id now log (ok snapshot_id) h made told = (id, made, (told, h, refl, refl, refl))

response-MadeBy :
    (req : SnapshotRequest) (id : Str) (now : ℤ) (log : List Event)
    → Found req id log ⊎ Created req id log
    → Happened (did Backend.unix_time now) log
    → MadeBy req (snapshot_response req id now) log
unfolding snapshot_response
response-MadeBy req id now log made told =
    encoded-MadeBy req id now log (encode_snapshot_id (snapshot_metadata req id now)) refl made told

module _ {B : Backend} (req : SnapshotRequest) {known : List Event} where
  respond-Ends :
      (id : Str)
      → ((log : List Event) → Knows known log → Found req id log ⊎ Created req id log)
      → Ends {B = B} (MadeBy req) known (respond req id)
  unfolding respond
  respond-Ends id made =
      Ends-learn Backend.unix_time (λ now. pure (snapshot_response req id now))
        (λ now.
          Ends-pure (snapshot_response req id now)
            (λ log k. response-MadeBy req id now log (made log k.1) k.0))

module _ {B : Backend} (req : SnapshotRequest) {known : List Event} where
  after_marking-Ends :
      (snap : Snapshot) (o : Option Err)
      → Ends {B = B}
          (MadeBy req)
          (did (Backend.set_snapshot_properties snap.id (snapshot_properties req)) o
            ∷ did (Backend.create_snapshot req.dataset_name req.name) (ok snap)
            ∷ known)
          (after_marking req snap.id o)
  unfolding after_marking
  after_marking-Ends snap none = respond-Ends req snap.id (λ log k. inr (snap, refl, k.1.0, k.0))
  after_marking-Ends snap (some e) =
      Ends-learn (Backend.delete_snapshot snap.id) (λ e. pure (err internal))
        (λ e. Ends-pure (err internal) (λ log k. tt))

  after_creation-Ends :
      (r : Result Err Snapshot)
      → Ends {B = B}
          (MadeBy req)
          (did (Backend.create_snapshot req.dataset_name req.name) r ∷ known)
          (after_creation req r)
  unfolding after_creation
  after_creation-Ends (err e) = Ends-pure (err internal) (λ log k. tt)
  after_creation-Ends (ok snap) =
      Ends-learn (Backend.set_snapshot_properties snap.id (snapshot_properties req))
        (after_marking req snap.id) (after_marking-Ends snap)

  after_query-Ends :
      (x : Existing)
      → ((id : Str) (log : List Event) → x ≡ same id → Knows known log → Found req id log)
      → Ends {B = B} (MadeBy req) known (after_query req x)
  unfolding after_query
  after_query-Ends no_snapshot found =
      Ends-learn (Backend.create_snapshot req.dataset_name req.name) (after_creation req)
        after_creation-Ends
  after_query-Ends (same id) found = respond-Ends req id (λ log k. inl (found id log refl k))
  after_query-Ends conflict found = Ends-pure (err already_exists) (λ log k. tt)

create_regular_snapshot-Ends :
    {B : Backend} (req : SnapshotRequest)
    → Ends {B = B} (MadeBy req) [] (create_regular_snapshot req)
unfolding create_regular_snapshot
create_regular_snapshot-Ends req =
    Ends-learn (Backend.query_snapshots req.name)
      (λ r. after_query req (existing_in req.dataset_name r))
      (λ r.
        after_query-Ends req (existing_in req.dataset_name r)
          (λ id log h k. existing_in-same req r id log h k.0))

-- If createRegularSnapshot succeeds, then the response carries the arguments' volume and size and
-- the time that the clock gave, and its ID encodes a snapshot that the server either has listed
-- under the name and on the dataset, or has created there and given the properties of a CSI snapshot.
pub create_regular_snapshot-Made :
    {B : Backend} (req : SnapshotRequest) (r : CsiSnapshot) (s : Driver B)
    → (create_regular_snapshot req s).0 ≡ ok r
    → Made req r (create_regular_snapshot req s).1.log
create_regular_snapshot-Made req r s h =
    subst (λ x. MadeBy req x (create_regular_snapshot req s).1.log) h
      ((create_regular_snapshot-Ends req).at s tt)
