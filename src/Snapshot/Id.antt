-- ===== src/Snapshot/Id.antt =====
-- pkg/driver/controller_snapshot.go: the compact snapshot IDs, `protocol:volume@name` and
-- `detached:protocol:volume@name`.
pub mod RoundTrip
use tns_csi.Common.{
  ℕ, Str, str, str_eq, has_prefix, trim_prefix, cut, cut_last, Option, none, some, Bool, true,
  false, ◌||◌, is_empty, not, ◌++◌, [], ◌∷◌, ℤ, pos, Result, ok, err, if◌then◌else◌,
}
use tns_csi.Properties.{protocol_nfs, protocol_nvmeof, protocol_iscsi, protocol_smb}

abbrev pub detached_snapshot_prefix : Str
detached_snapshot_prefix = str "detached:"

pub record SnapshotMetadata : Type 0 where
  pub snapshot_name : Str
  pub source_volume : Str
  pub dataset_name : Str
  pub protocol : Str
  pub created_at : ℤ
  pub detached : Bool

-- The static errors of the encoding and the decoding.
pub data IdError : Type 0 where
  protocol_required source_volume_required snapshot_name_required : IdError
  invalid_format invalid_protocol : IdError

-- The name after the last '@' of a full ZFS snapshot name, or the whole name.
unfoldable pub short_name : Str → Str
short_name name = elim (cut_last b'@' name) [ some (l, r) ↦ r | none ↦ name ]

-- fmt.Sprintf("%s:%s@%s", …)
abbrev pub base_id : Str → Str → Str → Str
base_id protocol volume name = protocol ++ b':' ∷ (volume ++ b'@' ∷ name)

unfoldable pub encode_snapshot_id : SnapshotMetadata → Result IdError Str
encode_snapshot_id m =
    if is_empty m.protocol
    then err protocol_required
    else if is_empty m.source_volume
    then err source_volume_required
    else let name = short_name m.snapshot_name in
      if is_empty name
      then err snapshot_name_required
      else let id = base_id m.protocol m.source_volume name in
        if m.detached then ok (detached_snapshot_prefix ++ id) else ok id

unfoldable pub is_protocol : Str → Bool
is_protocol p =
    str_eq p protocol_nfs
    || str_eq p protocol_nvmeof
    || str_eq p protocol_iscsi
    || str_eq p protocol_smb

decode_parts : Str → Option (Str × Str) → Result IdError SnapshotMetadata
decode_parts protocol none = err invalid_format
decode_parts protocol (some (volume, name)) =
    if is_empty volume
    then err invalid_format
    else if is_empty name
    then err invalid_format
    else ok (record {
      snapshot_name = name;
      source_volume = volume;
      dataset_name = [];
      protocol = protocol;
      created_at = pos 0;
      detached = false;
    })

decode_protocol : Option (Str × Str) → Result IdError SnapshotMetadata
unfolding decode_parts
decode_protocol none = err invalid_format
decode_protocol (some (protocol, remainder)) =
    if is_protocol protocol
    then decode_parts protocol (cut_last b'@' remainder)
    else err invalid_protocol

unfoldable pub decode_compact_snapshot_id : Str → Result IdError SnapshotMetadata
unfolding decode_protocol
decode_compact_snapshot_id id = decode_protocol (cut b':' id)

-- `meta.Detached = true` on a successful result.
abbrev pub as_detached : Result IdError SnapshotMetadata → Result IdError SnapshotMetadata
as_detached (err e) = err e
as_detached (ok m) = ok (record m { detached = true })

unfoldable pub decode_snapshot_id : Str → Result IdError SnapshotMetadata
decode_snapshot_id id =
    if has_prefix id detached_snapshot_prefix
    then as_detached (decode_compact_snapshot_id (trim_prefix id detached_snapshot_prefix))
    else decode_compact_snapshot_id id
