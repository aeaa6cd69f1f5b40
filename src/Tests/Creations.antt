-- ===== src/Tests/Creations.antt =====
-- The theorems on the creation of volumes, for the server of Tests.Server: no share, no target and no
-- namespace can be created there.
use tns_csi.Expand.{
  update_size, expand_file_volume, expand_by_protocol, Expanded, controller_expand_volume,
}
use tns_csi.Common.{
  parse_digits, atoi, str_eq, lookup, contains, Str, str, pos, some, [], ◌∷◌, none, false, err, ◌≢◌,
  ◌↔◌, arith, ok, true, ◌≡◌, refl, List,
}
use tns_csi.Properties.{string_to_int, protocol_iscsi, protocol_smb}
use tns_csi.Volume.{
  extract_volume_metadata, is_dataset_path_volume_id, VolumeMetadata, lookup_volume_by_csi_name,
}
use tns_csi.Backend.Ledger.{ledger}
use tns_csi.Backend.Settles.{Settled}
use tns_csi.Volume.Request.{other_mode}
use tns_csi.Create.Request.{CreateVolumeRequest, Setup}
use tns_csi.Create.Protocols.{create_volume_by_protocol}
use tns_csi.Create.Settled.Volumes.{create_volume_by_protocol-Settled}
use tns_csi.Create.Comment.{share_comment, parse_capacity_from_comment, parse_nfs_share_capacity}
use tns_csi.Create.Comment.RoundTrip.{IsPlain, parse_capacity-share_comment}
use tns_csi.Codes.{aborted}
use tns_csi.Backend.{◌>>=◌, call}
use tns_csi.Create.Volumes.{create_volume}
use tns_csi.Create.Careful.Volumes.{create_volume-Careful}
use tns_csi.Create.InFlight.{
  Creates, has, begin_create, Reach, after, at_start, enters, idle, NoRepeat,
  create_volume-exclusive,
}
use tns_csi.Expand.Laws.{Grown, controller_expand_volume-Grown}
use tns_csi.Tests.Server.{start, volume}
use mathlib.Core.List.{Perm}
use tns_csi.Create.Access.{same_nfs_access_entries}
use tns_csi.Create.Access.Order.{same_nfs_access_entries-perm}

-- Templates are texts, every text is an address.
abbrev env : Setup
env = record {
  Template = Str;
  parse = λ s. ok s;
  execute = λ t c. ok t;
  is_address = λ s. true;
  masked_prefix = λ s. some s;
  cluster_id = str "cluster";
}

abbrev request : CreateVolumeRequest
request = record {
  name = str "pvc-2";
  parameters =
      (str "protocol", protocol_iscsi)
      ∷ (str "pool", str "tank")
      ∷ (str "server", str "10.0.0.1")
      ∷ [];
  secrets = [];
  required_bytes = some (pos 2147483648);
  capabilities = record { access_mode = other_mode; mount = some [] } ∷ [];
}

create_volume_by_protocol-Settled_example :
    Settled
      (create_volume_by_protocol env request protocol_iscsi start).0
      (ledger (create_volume_by_protocol env request protocol_iscsi start).1.log)
create_volume_by_protocol-Settled_example =
    create_volume_by_protocol-Settled env request protocol_iscsi start refl

plain : IsPlain (str "pvc-2")
plain = (
  refl,
  (
    (refl, omega arith),
    ((refl, omega arith), ((refl, omega arith), ((refl, omega arith), ((refl, omega arith), tt)))),
  ),
)

parse_capacity-share_comment_example :
    (parse_capacity_from_comment (share_comment (str "pvc-2") (pos 2147483648)) ≡ pos 2147483648)
    × (parse_nfs_share_capacity (share_comment (str "pvc-2") (pos 2147483648)) ≡ pos 2147483648)
parse_capacity-share_comment_example =
    parse_capacity-share_comment (str "pvc-2") 2147483648 plain (omega arith)

create_volume-Careful_example : ledger (create_volume env request start).1.log ≢ none
create_volume-Careful_example = create_volume-Careful env request start refl

abbrev busy : Creates
busy = record { running = str "pvc-2" ∷ []; in_flight = str "pvc-2" ∷ [] }

busy_reached : Reach busy
unfolding begin_create has
busy_reached = after at_start (enters (str "pvc-2") idle (str "pvc-2" ∷ []) refl)

create_volume-exclusive_example :
    NoRepeat (str "pvc-2" ∷ [])
    × ((name : Str)
        → (begin_create name (str "pvc-2" ∷ []) ≡ err aborted)
          ↔ (has name (str "pvc-2" ∷ []) ≡ true))
create_volume-exclusive_example = create_volume-exclusive busy busy_reached

abbrev found_volume : VolumeMetadata
found_volume = record (volume protocol_smb) {
  name = str "tank/pvc-1";
  nfs_share_id = pos 7;
  nvmeof_subsystem_id = pos 0;
  nvmeof_namespace_id = pos 0;
  iscsi_target_id = pos 0;
  iscsi_extent_id = pos 0;
}

abbrev expanded : Expanded
expanded = record { capacity_bytes = pos 2147483648; node_expansion_required = false }

lookup_run : (lookup_volume_by_csi_name [] (str "tank/pvc-1") start).0 ≡ ok (some found_volume)
unfolding lookup_volume_by_csi_name ◌>>=◌ call is_dataset_path_volume_id contains
    extract_volume_metadata lookup str_eq string_to_int atoi parse_digits
lookup_run = refl

expansion_run :
    (controller_expand_volume (str "tank/pvc-1") (some (pos 2147483648)) start).0 ≡ ok expanded
unfolding controller_expand_volume ◌>>=◌ call lookup_volume_by_csi_name is_dataset_path_volume_id
    contains extract_volume_metadata lookup str_eq expand_by_protocol expand_file_volume update_size
expansion_run = refl

controller_expand_volume-Grown_example :
    Grown found_volume
      (pos 2147483648)
      expanded
      (controller_expand_volume (str "tank/pvc-1") (some (pos 2147483648)) start).1.log
controller_expand_volume-Grown_example =
    controller_expand_volume-Grown found_volume (pos 2147483648) (str "tank/pvc-1") expanded start
      lookup_run expansion_run

abbrev entries : List Str
entries = str "10.0.0.1" ∷ str "10.0.0.2" ∷ []

abbrev entries_turned : List Str
entries_turned = str "10.0.0.2" ∷ str "10.0.0.1" ∷ []

same_nfs_access_entries-perm_example :
    (same_nfs_access_entries entries entries_turned ≡ true) ↔ Perm entries entries_turned
same_nfs_access_entries-perm_example = same_nfs_access_entries-perm entries entries_turned
