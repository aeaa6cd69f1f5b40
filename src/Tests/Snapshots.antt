-- ===== src/Tests/Snapshots.antt =====
-- Deletions of snapshots at concrete IDs.
use tns_csi.Common.{
  Str, str, str_eq, contains, has_prefix, has_suffix, lookup, get, cut, cut_last, trim_prefix, none,
  some, [], ok, pos, false, ◌≡◌, refl,
}
use tns_csi.Codes.{failed_precondition}
use tns_csi.Properties.{protocol_nfs}
use tns_csi.Backend.{pure, ◌>>=◌, call}
use tns_csi.Backend.Guarded.{Justified}
use tns_csi.Snapshot.Id.{
  SnapshotMetadata, decode_snapshot_id, decode_compact_snapshot_id, is_protocol,
}
use tns_csi.Snapshot.Deletion.{
  delete_snapshot, delete_decoded_snapshot, delete_regular_snapshot, delete_detached_snapshot,
  lookup_snapshot_by_csi_name, delete_detached_dataset, checked, resolve_zfs_snapshot_name,
  find_on_volume, delete_zfs_snapshot,
}
use tns_csi.Snapshot.Deletion.Authorized.{SnapshotNeeds, delete_snapshot-Justified}
use tns_csi.Snapshot.Deletion.Success.{MeantBy, delete_snapshot-Meant}
use tns_csi.Snapshot.Creation.{
  SnapshotRequest, CsiSnapshot, create_regular_snapshot, after_query, after_creation, after_marking,
  respond, find_existing, snapshot_response,
}
use tns_csi.Snapshot.Creation.Marked.{unseen, create_regular_snapshot-unseen}
use tns_csi.Snapshot.Creation.Made.{Made, create_regular_snapshot-Made}
use tns_csi.Snapshot.Id.{encode_snapshot_id, short_name}
use tns_csi.Common.{suc, true, []}
use tns_csi.Backend
use tns_csi.Backend.{Backend, Call, Reply, Driver}
use tns_csi.Tests.Server.{start, server, reply}

abbrev daily_id : Str
daily_id = str "nfs:pvc-1@daily"

abbrev daily : SnapshotMetadata
daily = record {
  snapshot_name = str "daily";
  source_volume = str "pvc-1";
  dataset_name = [];
  protocol = protocol_nfs;
  created_at = pos 0;
  detached = false;
}

daily_decoded : decode_snapshot_id daily_id ≡ ok daily
unfolding decode_snapshot_id decode_compact_snapshot_id is_protocol str_eq has_prefix cut cut_last
daily_decoded = refl

daily_deleted : (delete_snapshot daily_id start).0 ≡ none
unfolding delete_snapshot delete_decoded_snapshot delete_regular_snapshot resolve_zfs_snapshot_name
    find_on_volume delete_zfs_snapshot decode_snapshot_id decode_compact_snapshot_id is_protocol
    str_eq has_prefix has_suffix contains cut cut_last pure ◌>>=◌ call
daily_deleted = refl

-- The dataset that the server finds is that of a volume: it is not deleted.
volume_refused :
    (delete_snapshot (str "detached:nfs:pvc-1@daily") start).0 ≡ some failed_precondition
unfolding delete_snapshot delete_decoded_snapshot delete_detached_snapshot
    lookup_snapshot_by_csi_name delete_detached_dataset checked decode_snapshot_id
    decode_compact_snapshot_id is_protocol str_eq has_prefix trim_prefix lookup get cut cut_last
    pure ◌>>=◌ call
volume_refused = refl

delete_snapshot-Justified_example :
    Justified (SnapshotNeeds daily) (delete_snapshot daily_id start).1.log
delete_snapshot-Justified_example =
    delete_snapshot-Justified daily daily_id start daily_decoded refl

delete_snapshot-Meant_example :
    MeantBy daily (delete_snapshot daily_id start).0 (delete_snapshot daily_id start).1.log
delete_snapshot-Meant_example = delete_snapshot-Meant daily daily_id start daily_decoded

-- A server without snapshots.
abbrev bare_reply : (c : Call) → Reply c
bare_reply (Backend.query_snapshots name) = ok []
bare_reply c = reply c

abbrev bare_server : Backend
bare_server = record server { answer = λ c n. (bare_reply c, suc n) }

abbrev bare_start : Driver bare_server
bare_start = record { world = 0; log = [] }

abbrev weekly : SnapshotRequest
weekly = record {
  name = str "weekly";
  source_volume_id = str "pvc-1";
  dataset_name = str "tank/pvc-1";
  protocol = protocol_nfs;
  size_bytes = pos 1073741824;
  cluster_id = str "cluster";
}

abbrev weekly_snapshot : CsiSnapshot
weekly_snapshot = record {
  snapshot_id = str "nfs:pvc-1@weekly";
  source_volume_id = str "pvc-1";
  creation_time = pos 1748736000;
  ready_to_use = true;
  size_bytes = pos 1073741824;
}

weekly_created :
    (create_regular_snapshot {B = bare_server} weekly bare_start).0 ≡ ok weekly_snapshot
unfolding create_regular_snapshot after_query after_creation after_marking respond find_existing
    snapshot_response encode_snapshot_id short_name cut_last pure ◌>>=◌ call
weekly_created = refl

nothing_unseen : unseen bare_start.log ≡ []
unfolding unseen
nothing_unseen = refl

create_regular_snapshot-unseen_example :
    unseen (create_regular_snapshot {B = bare_server} weekly bare_start).1.log ≡ []
create_regular_snapshot-unseen_example =
    create_regular_snapshot-unseen weekly bare_start nothing_unseen

create_regular_snapshot-Made_example :
    Made weekly weekly_snapshot (create_regular_snapshot {B = bare_server} weekly bare_start).1.log
create_regular_snapshot-Made_example =
    create_regular_snapshot-Made weekly weekly_snapshot bare_start weekly_created
