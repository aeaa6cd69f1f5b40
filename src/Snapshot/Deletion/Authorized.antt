-- ===== src/Snapshot/Deletion/Authorized.antt =====
-- Which replies of the server authorize the calls of DeleteSnapshot.
use tns_csi.Common.{
  Str, str, str_eq, str_eq_iff, is_empty, contains, get, Map, Option, none, some, Bool, true, false,
  ◌&&◌, List, [], ◌∷◌, ◌++◌, any, Result, ok, err, if◌then◌else◌, ◌≡◌, refl, ◌⊎◌, inl, inr, arith,
  Bool-cases,
}
use tns_csi.Codes.{Code}
use tns_csi.Errors.{Err, is_not_found}
use tns_csi.Properties.{
  property_managed_by, managed_by_value, property_detached_snapshot, property_snapshot_id,
}
use tns_csi.Backend
use tns_csi.Backend.{
  Backend, Dataset, Snapshot, Call, Reply, Event, did, Driver, M, pure, ◌>>=◌, call,
}
use tns_csi.Backend.Guarded.{
  Happened, Knows, Justified, Guarded, Grounds, Guarded-pure, Guarded-if, Guarded-learn,
  Guarded-reply,
}
use tns_csi.Snapshot.Id.{SnapshotMetadata, decode_snapshot_id}
use tns_csi.Snapshot.Deletion.{
  is_managed_dataset, is_on_volume, detached_names, check_detached, checked, deletion_code,
  datasets_found, found_path, snapshot_of, resolved, find_on_volume, lookup_snapshot_by_csi_name,
  delete_detached_dataset, delete_detached_snapshot, resolve_zfs_snapshot_name, delete_zfs_snapshot,
  delete_regular_snapshot, delete_decoded_snapshot, delete_snapshot,
}

-- The ZFS snapshot is the one that the ID names: by the full path of its volume, or the server has
-- listed it with the name, on a dataset whose path contains the volume ID.
abbrev pub NamedBy : SnapshotMetadata → Str → List Event → Type 0
NamedBy m id log =
    ((contains m.snapshot_name (str "@") ≡ true) × (id ≡ m.snapshot_name))
    ⊎ (((contains m.source_volume (str "/") ≡ true)
          × (id ≡ m.source_volume ++ str "@" ++ m.snapshot_name))
        ⊎ ((snaps : List Snapshot) × Happened
              (did (Backend.query_snapshots m.snapshot_name) (ok snaps)) log
            × (any (λ s. str_eq s.id id && is_on_volume m.snapshot_name m.source_volume s) snaps
                ≡ true)))

-- The dataset is named by the ID, or is the first that the server has found by the snapshot's name,
-- and is managed by this driver.
abbrev pub FoundBy : SnapshotMetadata → Str → List Event → Type 0
FoundBy m id log =
    (id ≡ m.dataset_name)
    ⊎ ((d : Dataset) × (ds : List Dataset) × Happened
          (did (Backend.find_datasets_by_property [] property_snapshot_id m.snapshot_name)
            (ok (d ∷ ds)))
          log
        × (d.id ≡ id)
        × (is_managed_dataset d ≡ true))

-- The properties say that this driver keeps a detached snapshot there, or could not be read.
abbrev pub MayBeDetached : Result Err (Map Str) → Type 0
MayBeDetached (err e) = is_not_found (some e) ≡ false
MayBeDetached (ok props) =
    (get property_managed_by props ≡ managed_by_value)
    × (get property_detached_snapshot props ≡ str "true")

abbrev pub ReadAs : Str → List Event → Type 0
ReadAs id log =
    (r : Result Err (Map Str)) × Happened (did (Backend.get_dataset_properties id detached_names) r)
      log
    × MayBeDetached r

-- What each call of the deletion of the snapshot needs: no call but these is made.
abbrev pub SnapshotNeeds : SnapshotMetadata → Call → List Event → Type 0
SnapshotNeeds m (Backend.delete_snapshot id) log = (m.detached ≡ false) × NamedBy m id log
SnapshotNeeds m (Backend.delete_dataset id) log =
    (m.detached ≡ true) × FoundBy m id log × ReadAs id log
SnapshotNeeds m (Backend.query_snapshots name) log = Unit
SnapshotNeeds m (Backend.find_datasets_by_property prefix name value) log = Unit
SnapshotNeeds m (Backend.get_dataset_properties id names) log = Unit
SnapshotNeeds m c log = true ≡ false

check_detached-none : (r : Result Err (Map Str)) → check_detached r ≡ none → MayBeDetached r
check_detached-none (err e) h = ground arith
check_detached-none (ok props) h = ground (
  arith,
  str_eq_iff (get property_managed_by props) managed_by_value,
  str_eq_iff (get property_detached_snapshot props) (str "true"),
)

find_on_volume-some :
    (name volume id : Str) (snaps : List Snapshot)
    → find_on_volume name volume snaps ≡ some id
    → any (λ s. str_eq s.id id && is_on_volume name volume s) snaps ≡ true
unfolding find_on_volume
find_on_volume-some name volume id [] h = cc
find_on_volume-some name volume id (s ∷ snaps) h =
    ground (arith, str_eq_iff s.id id, find_on_volume-some name volume id snaps)

-- What the lookup finds, the server has shown.
module _ (m : SnapshotMetadata) (log : List Event) where
  managed-FoundBy :
      (d : Dataset) (ds : List Dataset) (b : Bool)
      → is_managed_dataset d ≡ b
      → Happened
          (did
            (Backend.find_datasets_by_property [] property_snapshot_id m.snapshot_name)
            (ok (d ∷ ds)))
          log
      → let o = if b then some (snapshot_of m.snapshot_name d) else none in
        is_empty (found_path (ok o)) ≡ false → FoundBy m (found_path (ok o)) log
  managed-FoundBy d ds true e h n = inr (d, ds, h, refl, e)
  managed-FoundBy d ds false e h n = cc

  found_path-FoundBy :
      (r : Result Err (List Dataset))
      → Happened
          (did (Backend.find_datasets_by_property [] property_snapshot_id m.snapshot_name) r)
          log
      → is_empty (found_path (datasets_found m.snapshot_name r)) ≡ false
      → FoundBy m (found_path (datasets_found m.snapshot_name r)) log
  found_path-FoundBy (err e) h n = cc
  found_path-FoundBy (ok []) h n = cc
  found_path-FoundBy (ok (d ∷ ds)) h n = managed-FoundBy d ds (is_managed_dataset d) refl h n

module _ {B : Backend} {G : Call → List Event → Type 0} {known : List Event} where
  Guarded-next :
      {A C : Type 0} (a : A) (f : A → M B C)
      → Guarded G known (f a)
      → Guarded G known (pure a >>= f)
  unfolding ◌>>=◌ pure
  Guarded-next a f g = g

  Guarded-asked :
      {A C : Type 0} (c : Call) (f : Reply c → A) (next : A → M B C)
      → Grounds G known c
      → ((r : Reply c) → Guarded G (did c r ∷ known) (next (f r)))
      → Guarded G known ((call c >>= λ r. pure (f r)) >>= next)
  unfolding ◌>>=◌ pure
  Guarded-asked c f next g gf = Guarded-learn c (λ r. next (f r)) g gf

module _ {B : Backend} (m : SnapshotMetadata) (detached : m.detached ≡ true) (known : List Event)
    (path : Str)
    (seen : is_empty path ≡ false → (log : List Event) → Knows known log → FoundBy m path log) where
  checked-Guarded :
      (r : Result Err (Map Str)) (o : Option (Option Code))
      → check_detached r ≡ o
      → is_empty path ≡ false
      → Guarded {B = B}
          (SnapshotNeeds m)
          (did (Backend.get_dataset_properties path detached_names) r ∷ known)
          (checked path o)
  unfolding checked
  checked-Guarded r (some c) e n = Guarded-pure c
  checked-Guarded r none e n =
      Guarded-reply (Backend.delete_dataset path) deletion_code
        (λ log k. (detached, seen n log k.1, (r, k.0, check_detached-none r e)))

  delete_detached_dataset-Guarded :
      Guarded {B = B} (SnapshotNeeds m) known (delete_detached_dataset path)
  unfolding delete_detached_dataset
  delete_detached_dataset-Guarded =
      Guarded-if (is_empty path) _ _ (λ _. Guarded-pure none)
        (λ n.
          Guarded-learn (Backend.get_dataset_properties path detached_names)
            (λ r. checked path (check_detached r)) (λ log k. tt)
            (λ r. checked-Guarded r (check_detached r) refl n))

resolved-NamedBy :
    (m : SnapshotMetadata) (r : Result Err (List Snapshot)) (id : Str) (log : List Event)
    → resolved m.snapshot_name m.source_volume r ≡ some id
    → Happened (did (Backend.query_snapshots m.snapshot_name) r) log
    → NamedBy m id log
resolved-NamedBy m (err e) id log h k = cc
resolved-NamedBy m (ok snaps) id log h k =
    inr (inr (snaps, k, find_on_volume-some m.snapshot_name m.source_volume id snaps h))

module _ {B : Backend} (m : SnapshotMetadata) where
  delete_detached_snapshot-Guarded :
      m.detached ≡ true → Guarded {B = B} (SnapshotNeeds m) [] (delete_detached_snapshot m)
  unfolding delete_detached_snapshot lookup_snapshot_by_csi_name
  delete_detached_snapshot-Guarded d =
      Guarded-if (is_empty m.dataset_name) _ _
        (λ _.
          Guarded-asked (Backend.find_datasets_by_property [] property_snapshot_id m.snapshot_name)
            (datasets_found m.snapshot_name) (λ r. delete_detached_dataset (found_path r))
            (λ log k. tt)
            (λ r.
              delete_detached_dataset-Guarded m d _ (found_path (datasets_found m.snapshot_name r))
                (λ n log k. found_path-FoundBy m log r k.0 n)))
        (λ _. delete_detached_dataset-Guarded m d [] m.dataset_name (λ n log k. inl refl))

  delete_zfs_snapshot-Guarded :
      (known : List Event) (o : Option Str)
      → m.detached ≡ false
      → ((id : Str) → o ≡ some id → (log : List Event) → Knows known log → NamedBy m id log)
      → Guarded {B = B} (SnapshotNeeds m) known (delete_zfs_snapshot o)
  unfolding delete_zfs_snapshot
  delete_zfs_snapshot-Guarded known none d seen = Guarded-pure none
  delete_zfs_snapshot-Guarded known (some id) d seen =
      Guarded-reply (Backend.delete_snapshot id) deletion_code (λ log k. (d, seen id refl log k))

  delete_regular_snapshot-Guarded :
      m.detached ≡ false → Guarded {B = B} (SnapshotNeeds m) [] (delete_regular_snapshot m)
  unfolding delete_regular_snapshot resolve_zfs_snapshot_name
  delete_regular_snapshot-Guarded d = elim (Bool-cases (contains m.snapshot_name (str "@"))) [
    | inl f ↦ rw f (
        Guarded-next (some m.snapshot_name) delete_zfs_snapshot
          (delete_zfs_snapshot-Guarded [] (some m.snapshot_name) d (λ id e log k. inl (f, cc))))
    | inr f ↦ rw f (elim (Bool-cases (contains m.source_volume (str "/"))) [
      | inl g ↦ rw g (
          Guarded-next (some (m.source_volume ++ str "@" ++ m.snapshot_name)) delete_zfs_snapshot (
            delete_zfs_snapshot-Guarded [] (some (m.source_volume ++ str "@" ++ m.snapshot_name)) d
              (λ id e log k. inr (inl (g, cc)))))
      | inr g ↦ rw g (
          Guarded-asked (Backend.query_snapshots m.snapshot_name)
            (resolved m.snapshot_name m.source_volume) delete_zfs_snapshot (λ log k. tt)
            (λ r.
              delete_zfs_snapshot-Guarded _ (resolved m.snapshot_name m.source_volume r) d
                (λ id e log k. resolved-NamedBy m r id log e k.0)))
    ])
  ]

  delete_decoded_snapshot-Guarded :
      Guarded {B = B} (SnapshotNeeds m) [] (delete_decoded_snapshot (ok m))
  unfolding delete_decoded_snapshot
  delete_decoded_snapshot-Guarded =
      Guarded-if m.detached _ _ delete_detached_snapshot-Guarded delete_regular_snapshot-Guarded

  delete_snapshot-Guarded :
      (id : Str)
      → decode_snapshot_id id ≡ ok m
      → Guarded {B = B} (SnapshotNeeds m) [] (delete_snapshot id)
  unfolding delete_snapshot
  delete_snapshot-Guarded id e =
      Guarded-if (is_empty id) _ _ (λ _. Guarded-pure _) (λ _. rw e delete_decoded_snapshot-Guarded)

-- Whatever the server answers, every call of DeleteSnapshot for an ID that decodes has its grounds
-- in the replies before it. For an ordinary snapshot only the ZFS snapshot is deleted that the ID
-- names in full, by a snapshot name with an @ or by a volume with a slash, or one that the server
-- has listed with the name on a dataset whose path contains the volume ID. For a detached snapshot
-- only a dataset is deleted that the ID names, or that the server has found first by the snapshot's
-- name and that this driver manages, and only after its properties were read that mark it as a
-- detached snapshot of this driver, or after reading them failed with an error other than not
-- found. No other call that changes the server is made.
pub delete_snapshot-Justified :
    {B : Backend} (m : SnapshotMetadata) (id : Str) (s : Driver B)
    → decode_snapshot_id id ≡ ok m
    → s.log ≡ []
    → Justified (SnapshotNeeds m) (delete_snapshot id s).1.log
delete_snapshot-Justified m id s e fresh =
    ((delete_snapshot-Guarded m id e).at s tt (rw fresh tt)).0
