-- ===== src/Snapshot/Creation/Marked.antt =====
-- No snapshot that createRegularSnapshot (pkg/driver/controller_snapshot.go) has created is left where
-- the guard of the deletion of volumes, is_csi_snapshot of Delete.Datasets, does not see it.
use tns_csi.Common.{
  Str, str_eq, str_eq_refl, Map, lookup, Option, none, some, true, List, [], ◌∷◌, ok, err, Result,
  ◌≡◌, refl, ap, if◌then◌else◌,
}
use tns_csi.Errors.{Err}
use tns_csi.Backend
use tns_csi.Backend.{Backend, Snapshot, Event, did, Driver, M, pure, ◌>>=◌, call}
use tns_csi.Delete.Datasets.{is_csi_snapshot, get_snapshot_property_value}
use tns_csi.Snapshot.Creation.{
  SnapshotRequest, Existing, no_snapshot, same, conflict, existing_in, snapshot_properties, respond,
  after_marking, after_creation, after_query, create_regular_snapshot,
}

-- The snapshot as it is read back once the properties are set.
abbrev values : Map Str → Map (Option Str)
values [] = []
values ((k, v) ∷ props) = (k, some v) ∷ values props

abbrev with_properties : Str → Map Str → Snapshot
with_properties id props = record { id = id; properties = values props }

unfoldable pub without : Str → List Str → List Str
without id [] = []
without id (i ∷ ids) = let rest = without id ids in if str_eq i id then rest else i ∷ rest

-- The snapshots that a run has created, less those that were given properties by which the guard
-- sees them, and those that it has asked the server to delete.
unfoldable pub unseen : List Event → List Str
unfolding without
unseen [] = []
unseen (did (Backend.create_snapshot dataset name) (ok snap) ∷ log) = snap.id ∷ unseen log
unseen (did (Backend.set_snapshot_properties id props) none ∷ log) =
    let ids = unseen log in
    if is_csi_snapshot (with_properties id props) then without id ids else ids
unseen (did (Backend.delete_snapshot id) r ∷ log) = without id (unseen log)
unseen (e ∷ log) = unseen log

-- What is unseen once the server has answered.
abbrev created : Result Err Snapshot → List Str
created (err e) = []
created (ok snap) = snap.id ∷ []

abbrev unmarked : Str → Option Err → List Str
unmarked id none = []
unmarked id (some e) = id ∷ []

without_self : (id : Str) → without id (id ∷ []) ≡ []
unfolding without
without_self id = rw (str_eq_refl id) refl

snapshot_properties_seen :
    (req : SnapshotRequest) (id : Str)
    → is_csi_snapshot (with_properties id (snapshot_properties req)) ≡ true
unfolding is_csi_snapshot snapshot_properties get_snapshot_property_value lookup str_eq
snapshot_properties_seen req id = refl

unseen-created :
    (dataset name : Str) (r : Result Err Snapshot) (log : List Event)
    → unseen log ≡ []
    → unseen (did (Backend.create_snapshot dataset name) r ∷ log) ≡ created r
unfolding unseen
unseen-created dataset name (err e) log h = h
unseen-created dataset name (ok snap) log h = ap (◌∷◌ snap.id) h

unseen-unmarked :
    (req : SnapshotRequest) (id : Str) (o : Option Err) (log : List Event)
    → unseen log ≡ id ∷ []
    → unseen (did (Backend.set_snapshot_properties id (snapshot_properties req)) o ∷ log)
      ≡ unmarked id o
unfolding unseen
unseen-unmarked req id (some e) log h = h
unseen-unmarked req id none log h = rw (snapshot_properties_seen req id) (rw h (without_self id))

module _ {B : Backend} (req : SnapshotRequest) where
  respond_lem : (id : Str) (s : Driver B) → unseen s.log ≡ [] → unseen (respond req id s).1.log ≡ []
  unfolding respond unseen ◌>>=◌ call pure
  respond_lem id s h = h

  after_marking_lem :
      (id : Str) (o : Option Err) (s : Driver B)
      → unseen s.log ≡ unmarked id o
      → unseen (after_marking req id o s).1.log ≡ []
  unfolding after_marking unseen ◌>>=◌ call pure
  after_marking_lem id none s h = respond_lem id s h
  after_marking_lem id (some e) s h = rw h (without_self id)

  after_creation_lem :
      (r : Result Err Snapshot) (s : Driver B)
      → unseen s.log ≡ created r
      → unseen (after_creation req r s).1.log ≡ []
  unfolding after_creation ◌>>=◌ call pure
  after_creation_lem (err e) s h = h
  after_creation_lem (ok snap) s h =
      let c = Backend.set_snapshot_properties snap.id (snapshot_properties req) in
      let (o, s') = call c s in
      after_marking_lem snap.id o s' (unseen-unmarked req snap.id o s.log h)

  after_query_lem :
      (x : Existing) (s : Driver B) → unseen s.log ≡ [] → unseen (after_query req x s).1.log ≡ []
  unfolding after_query ◌>>=◌ call pure
  after_query_lem no_snapshot s h =
      let (r, s') = call (Backend.create_snapshot req.dataset_name req.name) s in
      after_creation_lem r s' (unseen-created req.dataset_name req.name r s.log h)
  after_query_lem (same id) s h = respond_lem id s h
  after_query_lem conflict s h = h

-- Whatever the server answers and whatever createRegularSnapshot returns: of the snapshots that it
-- has created it leaves none that the guard of the deletion of volumes would overlook. Each was
-- given, with the server's consent, properties by which the guard knows it as a CSI snapshot, or the
-- server was asked to delete it again.
pub create_regular_snapshot-unseen :
    {B : Backend} (req : SnapshotRequest) (s : Driver B)
    → unseen s.log ≡ []
    → unseen (create_regular_snapshot req s).1.log ≡ []
unfolding create_regular_snapshot unseen ◌>>=◌ call pure
create_regular_snapshot-unseen req s h =
    let (r, s') = call (Backend.query_snapshots req.name) s in
    after_query_lem req (existing_in req.dataset_name r) s' h
