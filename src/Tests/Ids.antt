-- ===== src/Tests/Ids.antt =====
-- Snapshot IDs and stored IDs at concrete values.
use tns_csi.Common.{str_eq, cut_last, Str, str, pos, true, ok, ◌≡◌, refl}
use tns_csi.Snapshot.Id.{
  short_name, SnapshotMetadata, encode_snapshot_id, decode_snapshot_id, is_protocol,
}
use tns_csi.Properties.{protocol_iscsi}
use tns_csi.Snapshot.Id.RoundTrip.{canonical, decode-encode_snapshot_id, encode-decode_snapshot_id}

abbrev detached_snapshot : SnapshotMetadata
detached_snapshot = record {
  snapshot_name = str "tank/pvc@daily";
  source_volume = str "tank/pvc";
  dataset_name = str "tank/pvc";
  protocol = protocol_iscsi;
  created_at = pos 1700;
  detached = true;
}

abbrev detached_id : Str
detached_id = str "detached:iscsi:tank/pvc@daily"

encoded : encode_snapshot_id detached_snapshot ≡ ok detached_id
unfolding encode_snapshot_id short_name cut_last
encoded = refl

protocol_known : is_protocol protocol_iscsi ≡ true
unfolding is_protocol str_eq
protocol_known = refl

decode-encode_snapshot_id_example :
    decode_snapshot_id detached_id ≡ ok (canonical detached_snapshot)
decode-encode_snapshot_id_example =
    decode-encode_snapshot_id detached_snapshot detached_id protocol_known encoded

encode-decode_snapshot_id_example :
    encode_snapshot_id (canonical detached_snapshot) ≡ ok detached_id
encode-decode_snapshot_id_example =
    encode-decode_snapshot_id detached_id (canonical detached_snapshot)
      decode-encode_snapshot_id_example
