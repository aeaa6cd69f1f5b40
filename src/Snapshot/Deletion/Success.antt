-- ===== src/Snapshot/Deletion/Success.antt =====
-- What a success of DeleteSnapshot means.
use tns_csi.Common.{
  Str, str, is_empty, contains, Map, Option, none, some, Bool, true, false, List, [], ◌∷◌, ◌++◌,
  any, Result, ok, err, if◌then◌else◌, ◌≡◌, ◌≢◌, refl, ap, ◌∙◌, ◌⊎◌, inl, inr, arith, Bool-cases,
}
use tns_csi.Codes.{Code}
use tns_csi.Errors.{Err, is_not_found}
use tns_csi.Properties.{property_snapshot_id}
use tns_csi.Backend
use tns_csi.Backend.{
  Backend, Dataset, Snapshot, Call, Reply, Event, did, Driver, M, pure, ◌>>=◌, call,
}
use tns_csi.Backend.Guarded.{Happened, Knows}
use tns_csi.Backend.Ends.{Ends, Ends-pure, Ends-learn, Ends-if}
use tns_csi.Snapshot.Id.{SnapshotMetadata, decode_snapshot_id}
use tns_csi.Snapshot.Deletion.{
  is_managed_dataset, is_on_volume, detached_names, check_detached, checked, deletion_code,
  datasets_found, found_path, snapshot_of, resolved, find_on_volume, lookup_snapshot_by_csi_name,
  delete_detached_dataset, delete_detached_snapshot, resolve_zfs_snapshot_name, delete_zfs_snapshot,
  delete_regular_snapshot, delete_decoded_snapshot, delete_snapshot,
}

-- The server has deleted the object, or said that it is not there.
abbrev pub Done : Option Err → Type 0
Done none = Unit
Done (some e) = is_not_found (some e) ≡ true

abbrev pub SnapshotDeleted : List Event → Type 0
SnapshotDeleted log =
    (id : Str) × (e : Option Err) × Happened (did (Backend.delete_snapshot id) e) log × Done e

-- The snapshots of the name could not be listed, or none is on a dataset of the volume.
abbrev pub Unlisted : SnapshotMetadata → Result Err (List Snapshot) → Type 0
Unlisted m (err e) = Unit
Unlisted m (ok snaps) = any (is_on_volume m.snapshot_name m.source_volume) snaps ≡ false

abbrev pub Unresolved : SnapshotMetadata → List Event → Type 0
Unresolved m log =
    (r : Result Err (List Snapshot)) × Happened (did (Backend.query_snapshots m.snapshot_name) r)
      log
    × Unlisted m r

-- The dataset was deleted, or the server has said that it is not there.
abbrev pub DatasetGone : List Event → Type 0
DatasetGone log =
    (path : Str) × (((e : Option Err) × Happened (did (Backend.delete_dataset path) e) log × Done e)
      ⊎ ((e : Err) × Happened (did (Backend.get_dataset_properties path detached_names) (err e)) log
          × (is_not_found (some e) ≡ true)))

-- The search for the snapshot's dataset failed, or its first result is not there or is none that
-- this driver manages.
abbrev pub Unfound : Result Err (List Dataset) → Type 0
Unfound (err e) = Unit
Unfound (ok []) = Unit
Unfound (ok (d ∷ ds)) = (is_managed_dataset d ≡ false) ⊎ (is_empty d.id ≡ true)

abbrev pub NotFound : SnapshotMetadata → List Event → Type 0
NotFound m log =
    (r : Result Err (List Dataset)) × Happened
      (did (Backend.find_datasets_by_property [] property_snapshot_id m.snapshot_name) r) log
    × Unfound r

abbrev pub MeantBy : SnapshotMetadata → Option Code → List Event → Type 0
MeantBy m (some c) log = Unit
MeantBy m none log =
    ((m.detached ≡ false) × (SnapshotDeleted log ⊎ Unresolved m log))
    ⊎ ((m.detached ≡ true) × (DatasetGone log ⊎ NotFound m log))

find_on_volume-none :
    (name volume : Str) (snaps : List Snapshot)
    → find_on_volume name volume snaps ≡ none
    → any (is_on_volume name volume) snaps ≡ false
unfolding find_on_volume
find_on_volume-none name volume [] h = refl
find_on_volume-none name volume (s ∷ snaps) h =
    ground (arith, find_on_volume-none name volume snaps)

resolved-Unlisted :
    (m : SnapshotMetadata) (r : Result Err (List Snapshot))
    → resolved m.snapshot_name m.source_volume r ≡ none
    → Unlisted m r
resolved-Unlisted m (err e) h = tt
resolved-Unlisted m (ok snaps) h = find_on_volume-none m.snapshot_name m.source_volume snaps h

managed-Unfound :
    (name : Str) (d : Dataset) (ds : List Dataset) (b : Bool)
    → is_managed_dataset d ≡ b
    → is_empty (found_path (ok (if b then some (snapshot_of name d) else none))) ≡ true
    → Unfound (ok (d ∷ ds))
managed-Unfound name d ds true e h = inr h
managed-Unfound name d ds false e h = inl e

found_path-Unfound :
    (name : Str) (r : Result Err (List Dataset))
    → is_empty (found_path (datasets_found name r)) ≡ true
    → Unfound r
found_path-Unfound name (err e) h = tt
found_path-Unfound name (ok []) h = tt
found_path-Unfound name (ok (d ∷ ds)) h = managed-Unfound name d ds (is_managed_dataset d) refl h

deletion_code-Done : (e : Option Err) → deletion_code e ≡ none → Done e
deletion_code-Done none h = tt
deletion_code-Done (some e) h = ground arith

check_detached-refuses : (props : Map Str) → check_detached (ok props) ≢ some none
check_detached-refuses props h = ground arith

-- Where the property follows if the result is `none`, it holds of any result.
MeantBy-of_none :
    (m : SnapshotMetadata) (o : Option Code) (log : List Event)
    → (o ≡ none → MeantBy m none log)
    → MeantBy m o log
MeantBy-of_none m none log h = h refl
MeantBy-of_none m (some c) log h = tt

module _ {B : Backend} {Q : Option Code → List Event → Type 0} {known : List Event} where
  Ends-asked :
      {A : Type 0} (c : Call) (f : Reply c → A) (next : A → M B (Option Code))
      → ((r : Reply c) → Ends Q (did c r ∷ known) (next (f r)))
      → Ends Q known ((call c >>= λ r. pure (f r)) >>= next)
  unfolding ◌>>=◌ pure
  Ends-asked c f next e = Ends-learn c (λ r. next (f r)) e

  Ends-next :
      {A : Type 0} (a : A) (next : A → M B (Option Code))
      → Ends Q known (next a)
      → Ends Q known (pure a >>= next)
  unfolding ◌>>=◌ pure
  Ends-next a next e = e

module _ {B : Backend} (m : SnapshotMetadata) (known : List Event) where
  checked-Ends :
      (detached : m.detached ≡ true) (path : Str) (r : Result Err (Map Str))
      (o : Option (Option Code))
      → check_detached r ≡ o
      → Ends {B = B}
          (MeantBy m)
          (did (Backend.get_dataset_properties path detached_names) r ∷ known)
          (checked path o)
  unfolding checked
  checked-Ends d path (ok props) (some c) h = Ends-pure c (λ log k.
      MeantBy-of_none m c log (λ e. elim (check_detached-refuses props (h ∙ ap some e)) [ ]))
  checked-Ends d path (err e) (some c) h =
      Ends-pure c
        (λ log k. MeantBy-of_none m c log (λ n. inr (d, inl (path, inr (e, k.0, ground arith)))))
  checked-Ends d path r none h =
      Ends-learn (Backend.delete_dataset path) (λ e. pure (deletion_code e))
        (λ e. Ends-pure (deletion_code e) (λ log k.
          MeantBy-of_none m (deletion_code e) log
            (λ n. inr (d, inl (path, inl (e, k.0, deletion_code-Done e n))))))

  delete_detached_dataset-Ends :
      (detached : m.detached ≡ true) (path : Str)
      → (is_empty path ≡ true → (log : List Event) → Knows known log → NotFound m log)
      → Ends {B = B} (MeantBy m) known (delete_detached_dataset path)
  unfolding delete_detached_dataset
  delete_detached_dataset-Ends d path absent =
      Ends-if (is_empty path) _ _ (λ e. Ends-pure none (λ log k. inr (d, inr (absent e log k))))
        (λ _.
          Ends-learn (Backend.get_dataset_properties path detached_names)
            (λ r. checked path (check_detached r))
            (λ r. checked-Ends d path r (check_detached r) refl))

  delete_zfs_snapshot-Ends :
      (regular : m.detached ≡ false) (o : Option Str)
      → (o ≡ none → (log : List Event) → Knows known log → Unresolved m log)
      → Ends {B = B} (MeantBy m) known (delete_zfs_snapshot o)
  unfolding delete_zfs_snapshot
  delete_zfs_snapshot-Ends d none absent =
      Ends-pure none (λ log k. inl (d, inr (absent refl log k)))
  delete_zfs_snapshot-Ends d (some id) absent =
      Ends-learn (Backend.delete_snapshot id) (λ e. pure (deletion_code e))
        (λ e. Ends-pure (deletion_code e) (λ log k.
          MeantBy-of_none m (deletion_code e) log
            (λ n. inl (d, inl (id, e, k.0, deletion_code-Done e n)))))

module _ {B : Backend} (m : SnapshotMetadata) where
  delete_detached_snapshot-Ends :
      m.detached ≡ true → Ends {B = B} (MeantBy m) [] (delete_detached_snapshot m)
  unfolding delete_detached_snapshot lookup_snapshot_by_csi_name
  delete_detached_snapshot-Ends d =
      Ends-if (is_empty m.dataset_name) _ _
        (λ _.
          Ends-asked (Backend.find_datasets_by_property [] property_snapshot_id m.snapshot_name)
            (datasets_found m.snapshot_name) (λ r. delete_detached_dataset (found_path r))
            (λ r.
              delete_detached_dataset-Ends m _ d (found_path (datasets_found m.snapshot_name r))
                (λ e log k. (r, k.0, found_path-Unfound m.snapshot_name r e))))
        (λ n. delete_detached_dataset-Ends m [] d m.dataset_name (λ e log k. cc))

  delete_regular_snapshot-Ends :
      m.detached ≡ false → Ends {B = B} (MeantBy m) [] (delete_regular_snapshot m)
  unfolding delete_regular_snapshot resolve_zfs_snapshot_name
  delete_regular_snapshot-Ends d = elim (Bool-cases (contains m.snapshot_name (str "@"))) [
    | inl f ↦ rw f (
        Ends-next (some m.snapshot_name) delete_zfs_snapshot
          (delete_zfs_snapshot-Ends m [] d (some m.snapshot_name) (λ e. cc)))
    | inr f ↦ rw f (elim (Bool-cases (contains m.source_volume (str "/"))) [
      | inl g ↦ rw g (
          Ends-next (some (m.source_volume ++ str "@" ++ m.snapshot_name)) delete_zfs_snapshot (
            delete_zfs_snapshot-Ends m [] d (some (m.source_volume ++ str "@" ++ m.snapshot_name))
              (λ e. cc)))
      | inr g ↦ rw g (
          Ends-asked (Backend.query_snapshots m.snapshot_name)
            (resolved m.snapshot_name m.source_volume) delete_zfs_snapshot
            (λ r.
              delete_zfs_snapshot-Ends m _ d (resolved m.snapshot_name m.source_volume r)
                (λ e log k. (r, k.0, resolved-Unlisted m r e))))
    ])
  ]

  delete_snapshot-Ends :
      (id : Str) → decode_snapshot_id id ≡ ok m → Ends {B = B} (MeantBy m) [] (delete_snapshot id)
  unfolding delete_snapshot delete_decoded_snapshot
  delete_snapshot-Ends id e =
      Ends-if (is_empty id) _ _ (λ _. Ends-pure _ (λ log k. tt))
        (λ _.
          rw e (Ends-if m.detached _ _ delete_detached_snapshot-Ends delete_regular_snapshot-Ends))

-- If DeleteSnapshot succeeds for an ID that decodes, then, for an ordinary snapshot, the server has
-- deleted a ZFS snapshot or said that it is not there, or the query for the snapshots of the name
-- failed or gave none on a dataset of the volume; for a detached snapshot, the server has deleted
-- the dataset or said that it is not there, or the search for it failed or did not give first a
-- dataset that this driver manages.
pub delete_snapshot-Meant :
    {B : Backend} (m : SnapshotMetadata) (id : Str) (s : Driver B)
    → decode_snapshot_id id ≡ ok m
    → MeantBy m (delete_snapshot id s).0 (delete_snapshot id s).1.log
delete_snapshot-Meant m id s e = (delete_snapshot-Ends m id e).at s tt
