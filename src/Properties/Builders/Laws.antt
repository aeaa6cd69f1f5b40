-- ===== src/Properties/Builders/Laws.antt =====
-- What a new volume has recorded on its dataset, the driver reads back when it deletes the volume.
use tns_csi.Common.{
  str, ◌++◌, contains, has_prefix, contains-append, has_suffix-append, arith, Str, str_eq, Map,
  lookup, insert, lookup-insert, get, ℤ, pos, IsInt64, Bool, true, false, some, [], ok, ◌≡◌, refl,
  ◌∙◌, if◌then◌else◌, str_eq_refl, All,
}
use tns_csi.Properties.{
  protocol_nfs, protocol_nvmeof, protocol_iscsi, protocol_smb, property_managed_by,
  property_csi_volume_name, property_delete_strategy, property_protocol, property_nfs_share_id,
  property_nvme_subsystem_id, property_nvme_namespace_id, property_nvme_subsystem_nqn,
  property_iscsi_target_id, property_iscsi_extent_id, property_iscsi_iqn,
}
use tns_csi.Properties.RoundTrip.{string_to_int-int_to_string}
use tns_csi.Properties.Builders.{
  VolumeParams, with_adoption, adoption_keys, recorded, nfs_volume_properties_v1,
  nvmeof_volume_properties_v1, iscsi_volume_properties_v1, smb_volume_properties_v1,
}
use tns_csi.Backend.{Dataset}
use tns_csi.Volume.{
  VolumeMetadata, extract_volume_metadata, extract_from, metadata_of, is_dataset_path_volume_id,
}
use tns_csi.Delete.Ownership.{judge_ownership, strategy_or_delete, other_volume}

abbrev pub Other : Str → Str → Type 0
Other k j = str_eq j k ≡ false

lookup-insert_if :
    (b : Bool) (j v k : Str) (m : Map Str)
    → Other k j
    → lookup k (if b then insert j v m else m) ≡ lookup k m
lookup-insert_if true j v k m h = lookup-insert k j v m ∙ rw h refl
lookup-insert_if false j v k m h = refl

-- The adoption properties hide no other property.
pub lookup-with_adoption :
    (p : VolumeParams) (m : Map Str) (k : Str)
    → All (Other k) adoption_keys
    → lookup k (with_adoption p m) ≡ lookup k m
unfolding with_adoption
lookup-with_adoption p m k h =
    lookup-insert_if _ _ _ k _ h.0
    ∙ lookup-insert_if _ _ _ k _ h.1.0
    ∙ lookup-insert_if _ _ _ k _ h.1.1.0
    ∙ lookup-insert_if _ _ _ k _ h.1.1.1.0
    ∙ lookup-insert_if _ _ _ k _ h.1.1.1.1.0

extract-with_adoption :
    (id : Str) (d : Dataset) (p : VolumeParams) (m : Map Str)
    → extract_from id d (some (with_adoption p m)) ≡ extract_from id d (some m)
unfolding extract_from metadata_of str_eq
extract-with_adoption id d p m =
    let same : (k : Str) → All (Other k) adoption_keys → lookup k (with_adoption p m) ≡ lookup k m =
      lookup-with_adoption p m in
    rw
      (
        same property_managed_by (refl, (refl, (refl, (refl, (refl, tt))))),
        same property_protocol (refl, (refl, (refl, (refl, (refl, tt))))),
        same property_nfs_share_id (refl, (refl, (refl, (refl, (refl, tt))))),
        same property_nvme_subsystem_id (refl, (refl, (refl, (refl, (refl, tt))))),
        same property_nvme_namespace_id (refl, (refl, (refl, (refl, (refl, tt))))),
        same property_nvme_subsystem_nqn (refl, (refl, (refl, (refl, (refl, tt))))),
        same property_iscsi_target_id (refl, (refl, (refl, (refl, (refl, tt))))),
        same property_iscsi_extent_id (refl, (refl, (refl, (refl, (refl, tt))))),
        same property_iscsi_iqn (refl, (refl, (refl, (refl, (refl, tt))))),
      )
      refl

get_of_lookup : (k : Str) (m : Map Str) (v : Str) → lookup k m ≡ some v → get k m ≡ v
unfolding get
get_of_lookup k m v h = rw (h, get) refl

-- A deletion of the volume with this ID may go on, with the strategy of the parameters.
abbrev pub Accepted : Str → VolumeParams → Map Str → Type 0
Accepted name p props =
    judge_ownership name (ok props)
    ≡ ok (record {
      props = props;
      delete_strategy = strategy_or_delete p.delete_strategy;
      not_found = false;
    })

judge_of_same :
    (name : Str) (p : VolumeParams) (protocol : Str) (own : Map Str)
    → other_volume name (some p.volume_id) ≡ false
    → Accepted name p (with_adoption p (recorded p protocol own))
unfolding judge_ownership str_eq lookup
judge_of_same name p protocol own ours =
    let m = recorded p protocol own in
    let same : (k : Str) → All (Other k) adoption_keys → lookup k (with_adoption p m) ≡ lookup k m =
      lookup-with_adoption p m in
    rw
      (
        same property_managed_by (refl, (refl, (refl, (refl, (refl, tt))))),
        same property_csi_volume_name (refl, (refl, (refl, (refl, (refl, tt))))),
        get_of_lookup property_delete_strategy _ p.delete_strategy
            (same property_delete_strategy (refl, (refl, (refl, (refl, (refl, tt)))))),
        ours,
      )
      refl

same_name : (name : Str) → other_volume name (some name) ≡ false
unfolding other_volume
same_name name = rw (str_eq_refl name) refl

-- The path of a dataset with the volume's name at its end.
same_path : (parent name : Str) → other_volume (parent ++ (str "/" ++ name)) (some name) ≡ false
unfolding other_volume is_dataset_path_volume_id contains has_prefix
same_path parent name =
    rw
      (
        contains-append parent (str "/" ++ name) (str "/") refl,
        has_suffix-append parent (str "/" ++ name),
      )
      (ground arith)

-- judgeOwnership accepts the properties of a new volume under its name, and under the path of its
-- dataset.
judge-with_adoption :
    (parent : Str) (p : VolumeParams) (protocol : Str) (own : Map Str)
    → Accepted p.volume_id p (with_adoption p (recorded p protocol own))
      × Accepted (parent ++ (str "/" ++ p.volume_id)) p (with_adoption p (recorded p protocol own))
judge-with_adoption parent p protocol own = (
  judge_of_same p.volume_id p protocol own (same_name p.volume_id),
  judge_of_same (parent ++ (str "/" ++ p.volume_id)) p protocol own (same_path parent p.volume_id),
)

-- The metadata of a volume before its protocol's own values.
abbrev pub plain : Str → Str → Dataset → VolumeMetadata
plain id protocol d = record {
  name = id;
  protocol = protocol;
  dataset_id = d.id;
  dataset_name = d.name;
  server = [];
  nvmeof_nqn = [];
  iscsi_iqn = [];
  nfs_share_id = pos 0;
  nvmeof_subsystem_id = pos 0;
  nvmeof_namespace_id = pos 0;
  iscsi_target_id = pos 0;
  iscsi_extent_id = pos 0;
  smb_share_id = pos 0;
}

-- From a dataset with the properties that NFSVolumePropertiesV1 makes, extractVolumeMetadata reads
-- the protocol, the dataset and the share ID (a 64-bit integer), and readVolumeOwnership accepts
-- the properties, with the recorded strategy or "delete", for a volume ID that is the name recorded
-- and for one that is any parent, a slash and that name, the path of a dataset.
pub nfs_volume_properties_v1_lem :
    (parent id path : Str) (d : Dataset) (p : VolumeParams) (share : ℤ)
    → IsInt64 share
    → let props = nfs_volume_properties_v1 p share path in
      d.user_properties ≡ some props
      → (extract_volume_metadata id d
          ≡ some (record (plain id protocol_nfs d) { nfs_share_id = share }))
        × (Accepted p.volume_id p props × Accepted (parent ++ (str "/" ++ p.volume_id)) p props)
unfolding nfs_volume_properties_v1 extract_volume_metadata extract_from metadata_of str_eq lookup
nfs_volume_properties_v1_lem parent id path d p share h e = (
  rw e (extract-with_adoption id d p _ ∙ rw (string_to_int-int_to_string share h) refl),
  judge-with_adoption parent p protocol_nfs _,
)

-- From a dataset with the properties that NVMeOFVolumePropertiesV1 makes, extractVolumeMetadata
-- reads the protocol, the dataset, the NQN and the two IDs (64-bit integers), and
-- readVolumeOwnership accepts the properties, with the recorded strategy or "delete", for a volume ID
-- that is the name recorded and for one that is any parent, a slash and that name, the path of a
-- dataset.
pub nvmeof_volume_properties_v1_lem :
    (parent id nqn : Str) (d : Dataset) (p : VolumeParams) (subsystem namespace : ℤ)
    → IsInt64 subsystem
    → IsInt64 namespace
    → let props = nvmeof_volume_properties_v1 p subsystem namespace nqn in
      d.user_properties ≡ some props
      → (extract_volume_metadata id d
          ≡ some (record (plain id protocol_nvmeof d) {
            nvmeof_nqn = nqn;
            nvmeof_subsystem_id = subsystem;
            nvmeof_namespace_id = namespace;
          }))
        × (Accepted p.volume_id p props × Accepted (parent ++ (str "/" ++ p.volume_id)) p props)
unfolding nvmeof_volume_properties_v1 extract_volume_metadata extract_from metadata_of str_eq lookup
nvmeof_volume_properties_v1_lem parent id nqn d p subsystem namespace h k e = (
  rw e (
      extract-with_adoption id d p _
      ∙ rw (string_to_int-int_to_string subsystem h, string_to_int-int_to_string namespace k) refl),
  judge-with_adoption parent p protocol_nvmeof _,
)

-- From a dataset with the properties that ISCSIVolumePropertiesV1 makes, extractVolumeMetadata
-- reads the protocol, the dataset, the IQN and the two IDs (64-bit integers), and
-- readVolumeOwnership accepts the properties, with the recorded strategy or "delete", for a volume ID
-- that is the name recorded and for one that is any parent, a slash and that name, the path of a
-- dataset.
pub iscsi_volume_properties_v1_lem :
    (parent id iqn : Str) (d : Dataset) (p : VolumeParams) (target extent : ℤ)
    → IsInt64 target
    → IsInt64 extent
    → let props = iscsi_volume_properties_v1 p target extent iqn in
      d.user_properties ≡ some props
      → (extract_volume_metadata id d
          ≡ some (record (plain id protocol_iscsi d) {
            iscsi_iqn = iqn;
            iscsi_target_id = target;
            iscsi_extent_id = extent;
          }))
        × (Accepted p.volume_id p props × Accepted (parent ++ (str "/" ++ p.volume_id)) p props)
unfolding iscsi_volume_properties_v1 extract_volume_metadata extract_from metadata_of str_eq lookup
iscsi_volume_properties_v1_lem parent id iqn d p target extent h k e = (
  rw e (
      extract-with_adoption id d p _
      ∙ rw (string_to_int-int_to_string target h, string_to_int-int_to_string extent k) refl),
  judge-with_adoption parent p protocol_iscsi _,
)

-- From a dataset with the properties that SMBVolumePropertiesV1 makes, extractVolumeMetadata reads
-- the protocol and the dataset, but no share ID, whatever ID was recorded; readVolumeOwnership
-- accepts the properties, with the recorded strategy or "delete", for the name recorded and for the
-- path of a dataset with that name.
pub smb_volume_properties_v1_lem :
    (parent id share_name : Str) (d : Dataset) (p : VolumeParams) (share : ℤ)
    → let props = smb_volume_properties_v1 p share share_name in
      d.user_properties ≡ some props
      → (extract_volume_metadata id d ≡ some (plain id protocol_smb d))
        × (Accepted p.volume_id p props × Accepted (parent ++ (str "/" ++ p.volume_id)) p props)
unfolding smb_volume_properties_v1 extract_volume_metadata extract_from metadata_of str_eq lookup
smb_volume_properties_v1_lem parent id share_name d p share e =
    (rw e (extract-with_adoption id d p _ ∙ refl), judge-with_adoption parent p protocol_smb _)
