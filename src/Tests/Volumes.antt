-- ===== src/Tests/Volumes.antt =====
-- Property maps, volume contexts, publications and listings at concrete values.
use tns_csi.Common.{
  Str, str, Map, lookup, pos, true, false, Option, some, List, [], ◌∷◌, Lacks, str_eq, str_eq_iff,
  ◌≢◌, ◌≡◌, refl, arith,
}
use tns_csi.Codes.{Code}
use tns_csi.Properties.{protocol_nfs, protocol_iscsi, protocol_nvmeof}
use tns_csi.Properties.Builders.{
  VolumeParams, nfs_volume_properties_v1, nvmeof_volume_properties_v1, iscsi_volume_properties_v1,
  smb_volume_properties_v1,
}
use tns_csi.Properties.Builders.Laws.{
  Accepted, plain, nfs_volume_properties_v1_lem, nvmeof_volume_properties_v1_lem,
  iscsi_volume_properties_v1_lem,
}
use tns_csi.Backend.{Dataset}
use tns_csi.Volume.{extract_volume_metadata}
use tns_csi.Volume.Adoption.{is_volume_adoptable}
use tns_csi.Volume.Adoption.Laws.{is_volume_adoptable-properties_v1}
use tns_csi.Publish.{Controller, publish_key}
use tns_csi.Publish.Attached.{
  Request, publish, node_registered, serve, Run, started, served, attached,
  published_volumes-attached,
}
use tns_csi.Listing.{Entry}
use tns_csi.Listing.Pages.{collect, collect-list_volumes}

abbrev params : VolumeParams
params = record {
  volume_id = str "pvc-1";
  created_at = str "2025";
  delete_strategy = str "retain";
  pvc_name = str "claim";
  pvc_namespace = [];
  storage_class = str "fast";
  cluster_id = str "blue";
  capacity_bytes = pos 1000;
  adoptable = true;
}

abbrev with_props : Map Str → Dataset
with_props props = record {
  id = str "tank/a";
  name = str "tank/a";
  mountpoint = [];
  user_properties = some props;
}

abbrev JudgedAs : Map Str → Type 0
JudgedAs props = Accepted (str "pvc-1") params props × Accepted (str "tank/k8s/pvc-1") params props

nfs_volume_properties_v1_example :
    let props = nfs_volume_properties_v1 params (pos 7) (str "/mnt/a") in
    (extract_volume_metadata (str "tank/k8s/pvc-1") (with_props props)
      ≡ some (record (plain (str "tank/k8s/pvc-1") protocol_nfs (with_props props)) {
        nfs_share_id = pos 7;
      }))
    × JudgedAs props
nfs_volume_properties_v1_example =
    nfs_volume_properties_v1_lem (str "tank/k8s") (str "tank/k8s/pvc-1") (str "/mnt/a")
      (with_props (nfs_volume_properties_v1 params (pos 7) (str "/mnt/a"))) params (pos 7)
      (omega arith) refl

nvmeof_volume_properties_v1_example :
    let props = nvmeof_volume_properties_v1 params (pos 7) (pos 8) (str "nqn.a") in
    (extract_volume_metadata (str "tank/k8s/pvc-1") (with_props props)
      ≡ some (record (plain (str "tank/k8s/pvc-1") protocol_nvmeof (with_props props)) {
        nvmeof_nqn = str "nqn.a";
        nvmeof_subsystem_id = pos 7;
        nvmeof_namespace_id = pos 8;
      }))
    × JudgedAs props
nvmeof_volume_properties_v1_example =
    nvmeof_volume_properties_v1_lem (str "tank/k8s") (str "tank/k8s/pvc-1") (str "nqn.a")
      (with_props (nvmeof_volume_properties_v1 params (pos 7) (pos 8) (str "nqn.a"))) params (pos 7)
      (pos 8) (omega arith) (omega arith) refl

iscsi_volume_properties_v1_example :
    let props = iscsi_volume_properties_v1 params (pos 7) (pos 8) (str "iqn.a") in
    (extract_volume_metadata (str "tank/k8s/pvc-1") (with_props props)
      ≡ some (record (plain (str "tank/k8s/pvc-1") protocol_iscsi (with_props props)) {
        iscsi_iqn = str "iqn.a";
        iscsi_target_id = pos 7;
        iscsi_extent_id = pos 8;
      }))
    × JudgedAs props
iscsi_volume_properties_v1_example =
    iscsi_volume_properties_v1_lem (str "tank/k8s") (str "tank/k8s/pvc-1") (str "iqn.a")
      (with_props (iscsi_volume_properties_v1 params (pos 7) (pos 8) (str "iqn.a"))) params (pos 7)
      (pos 8) (omega arith) (omega arith) refl

is_volume_adoptable-properties_v1_example :
    (is_volume_adoptable (nfs_volume_properties_v1 params (pos 1) (str "x")) ≡ true)
    × (is_volume_adoptable (nvmeof_volume_properties_v1 params (pos 1) (pos 2) (str "x")) ≡ true)
    × (is_volume_adoptable (iscsi_volume_properties_v1 params (pos 1) (pos 2) (str "x")) ≡ true)
    × (is_volume_adoptable (smb_volume_properties_v1 params (pos 1) (str "x")) ≡ true)
is_volume_adoptable-properties_v1_example =
    is_volume_adoptable-properties_v1 params (pos 1) (pos 2) (str "x")

-- A node is registered, and a volume published to it.
abbrev node : Str
node = str "n1"

abbrev new_controller : Controller
new_controller = record { node_registry = some []; published_volumes = [] }

abbrev registered : Controller
registered = (serve new_controller (node_registered node 5)).1

abbrev requests : List (Request × Option Code)
requests =
    (publish (str "v") node true true, (serve registered (publish (str "v") node true true)).0)
    ∷ (node_registered node 5, (serve new_controller (node_registered node 5)).0)
    ∷ []

two_requests : Run requests (serve registered (publish (str "v") node true true)).1
two_requests =
    served (served (started (some [])) (node_registered node 5)) (publish (str "v") node true true)

clean_node : Lacks b':' node
clean_node = omega arith

published_volumes-attached_example :
    lookup
      (publish_key (str "v") node)
      ((serve registered (publish (str "v") node true true)).1).published_volumes
    ≡ attached (str "v") node requests
published_volumes-attached_example =
    published_volumes-attached (str "v") node two_requests (clean_node, (tt, tt)) clean_node refl

abbrev three_entries : List Entry
three_entries = (str "a", []) ∷ (str "b", []) ∷ (str "c", []) ∷ []

other : (s t : Str) → str_eq s t ≡ false → s ≢ t
other s t h e = cc ((str_eq_iff s t).1 e)

collect-list_volumes_example : collect 4 three_entries (pos 2) [] ≡ some three_entries
unfolding str_eq
collect-list_volumes_example =
    collect-list_volumes three_entries 1
      (
        (other (str "a") (str "b") refl, (other (str "a") (str "c") refl, tt)),
        ((other (str "b") (str "c") refl, tt), (tt, tt)),
      )
      (refl, (refl, (refl, tt)))
