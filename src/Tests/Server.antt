-- ===== src/Tests/Server.antt =====
-- A server that holds the volume pvc-1, for each protocol, on the dataset tank/pvc-1.
use tns_csi.Common.{Str, str, ℕ, pos, none, some, Map, err, ◌++◌, [], ◌∷◌, ok, ◌==◌, ◌*◌, suc}
use tns_csi.Errors.{Err}
use tns_csi.Retry.{Float64}
use tns_csi.Properties.{
  property_managed_by, managed_by_value, property_csi_volume_name, property_nfs_share_id,
  property_smb_share_id, property_protocol, protocol_smb,
}
use tns_csi.Backend
use tns_csi.Backend.{Dataset, Backend, Driver, Call, Reply}
use tns_csi.Volume.{VolumeMetadata}

abbrev pub failure : Str → Err
failure s = record { text = s; chain = []; api = none; net_error = none }

-- Multipliers that are whole numbers.
abbrev pub whole_numbers : Float64
whole_numbers = record { F = ℕ; le_zero = λ m. m == 0; one = 1; two = 2; scale = λ m d. d * m }

abbrev pub recorded : Map Str
recorded =
    (property_managed_by, managed_by_value)
    ∷ (property_csi_volume_name, str "pvc-1")
    ∷ (property_protocol, protocol_smb)
    ∷ (property_smb_share_id, str "7")
    ∷ (property_nfs_share_id, str "7")
    ∷ []

abbrev pub dataset : Dataset
dataset = record {
  id = str "tank/pvc-1";
  name = str "tank/pvc-1";
  mountpoint = str "/mnt/tank/pvc-1";
  user_properties = some recorded;
}

-- The state is the number of calls.
abbrev pub reply : (c : Call) → Reply c
reply (Backend.get_dataset_properties id names) = ok recorded
reply (Backend.get_dataset_with_properties id) = ok (some dataset)
reply (Backend.find_dataset_by_csi_volume_name prefix name) = ok (some dataset)
reply (Backend.set_dataset_properties id props) = none
reply (Backend.delete_dataset id) = none
reply (Backend.promote_dataset id) = none
reply (Backend.query_snapshots_with_properties id) = ok []
reply (Backend.delete_snapshot id) = none
reply (Backend.query_iscsi_targets id) = ok (record { id = id; name = str "pvc-1" } ∷ [])
reply (Backend.query_iscsi_extents id) = ok (record { id = id; disk = str "zvol/tank/pvc-1" } ∷ [])
reply (Backend.iscsi_target_extent_by_target id) =
    ok (record { id = pos 5; extent = pos 5; lun_id = pos 0 } ∷ [])
reply (Backend.delete_iscsi_target_extent id) = none
reply (Backend.delete_iscsi_target id) = none
reply (Backend.delete_iscsi_extent id) = none
reply (Backend.delete_nfs_share id) = none
reply (Backend.delete_smb_share id) = none
reply (Backend.query_nvmeof_namespace_by_id id) = ok none
reply (Backend.query_nvmeof_subsystems id) = ok []
reply (Backend.query_nvmeof_namespaces id) = ok []
reply (Backend.query_subsystem_port_bindings id) = ok []
reply (Backend.remove_subsystem_from_port id) = none
reply (Backend.delete_nvmeof_namespace id) = none
reply (Backend.delete_nvmeof_subsystem id) = none
reply (Backend.query_snapshots name) =
    ok (record { id = str "tank/pvc-1@daily"; properties = [] } ∷ [])
reply (Backend.find_datasets_by_property prefix name value) = ok (dataset ∷ [])
reply Backend.time_now = str "2025-06-01T00:00:00Z"
reply (Backend.dataset id) = ok none
reply (Backend.create_dataset p) =
    ok (record { id = p.name; name = p.name; mountpoint = str "/mnt/" ++ p.name; volsize = none })
reply (Backend.create_zvol p) =
    ok (record { id = p.name; name = p.name; mountpoint = []; volsize = some p.volsize })
reply (Backend.query_nfs_shares path) = ok []
reply (Backend.create_nfs_share p) = err (failure (str "no share"))
reply (Backend.query_smb_share path) = ok []
reply (Backend.create_smb_share p) = err (failure (str "no share"))
reply (Backend.set_filesystem_acl path) = none
reply Backend.get_iscsi_global_config = ok (str "iqn.2005-10.org.freenas.ctl")
reply Backend.query_iscsi_portals = ok (pos 1 ∷ [])
reply Backend.query_iscsi_initiators = ok (pos 1 ∷ [])
reply (Backend.iscsi_target_by_name name) = ok none
reply (Backend.iscsi_extent_by_name name) = ok none
reply (Backend.create_iscsi_target p) = err (failure (str "no target"))
reply (Backend.create_iscsi_extent p) = ok (record { id = pos 12; disk = p.disk })
reply (Backend.create_iscsi_target_extent p) = ok (pos 13)
reply Backend.reload_iscsi_service = none
reply (Backend.nvmeof_subsystem_by_nqn nqn) = err (failure (str "no subsystem"))
reply Backend.query_nvmeof_ports = ok (pos 1 ∷ [])
reply (Backend.create_nvmeof_subsystem p) =
    ok (record { id = pos 21; name = p.name; nqn = p.subnqn })
reply (Backend.create_nvmeof_namespace p) = err (failure (str "no namespace"))
reply (Backend.add_subsystem_to_port subsystem port) = none
reply (Backend.update_dataset id p) = none
reply (Backend.create_snapshot path name) =
    ok (record { id = path ++ str "@" ++ name; properties = [] })
reply (Backend.set_snapshot_properties id props) = none
reply Backend.unix_time = pos 1748736000

abbrev pub server : Backend
server = record {
  World = ℕ;
  answer = λ c n. (reply c, suc n);
  context = record { ctx_err = λ n. none; wait = λ d n. (none, n) };
  status_text = λ c s. s;
  float = whole_numbers;
}

abbrev pub start : Driver server
start = record { world = 0; log = [] }

abbrev pub volume : Str → VolumeMetadata
volume protocol = record {
  name = str "pvc-1";
  protocol = protocol;
  dataset_id = str "tank/pvc-1";
  dataset_name = str "tank/pvc-1";
  server = [];
  nvmeof_nqn = [];
  iscsi_iqn = [];
  nfs_share_id = pos 7;
  nvmeof_subsystem_id = pos 2;
  nvmeof_namespace_id = pos 3;
  iscsi_target_id = pos 4;
  iscsi_extent_id = pos 5;
  smb_share_id = pos 0;
}
