-- ===== src/Create/Iscsi/Objects.antt =====
-- The objects of a new iSCSI volume (pkg/driver/controller_iscsi.go) and the request for them.
use tns_csi.Common.{
  Str, str, is_empty, atoi, itoa, insert, get, Map, ℤ, pos, is_zero, int_eq, Option, none, some,
  Bool, true, false, ◌&&◌, List, [], ◌∷◌, ◌++◌, Result, ok, err, if◌then◌else◌,
}
use tns_csi.Codes.{Code, invalid_argument, internal, already_exists, failed_precondition}
use tns_csi.Errors.{Err}
use tns_csi.Properties.{protocol_iscsi}
use tns_csi.Properties.Builders.{ownership_properties_v1, iscsi_volume_properties_v1}
use tns_csi.Backend.{
  DatasetInfo, ZvolOptions, ZvolCreateParams, IscsiTarget, IscsiExtent, TargetExtent,
}
use tns_csi.Volume.Context.{build_volume_context}
use tns_csi.Create.Settings.{
  parse_zfs_zvol_properties, iscsi_zvol_options, is_encrypted, inherited, iscsi_encryption_options,
}
use tns_csi.Create.Request.{
  CreateVolumeRequest, Setup, VolumeSettings, CreatedVolume, block_settings, recorded_params,
}
use tns_csi.Create.Comment.{or_zero}
use tns_csi.Create.Files.{MadeDataset, existing, new, metadata_for}

pub record IscsiVolumeParams : Type 0 where
  pub settings : VolumeSettings
  pub zfs_props : Option ZvolOptions
  pub portal_id : ℤ
  pub initiator_id : ℤ

-- zvolDisk
abbrev pub zvol_disk : IscsiVolumeParams → Str
zvol_disk p = str "zvol/" ++ p.settings.dataset_name

-- getZvolCapacity (pkg/driver/controller_nvmeof.go): 0 where there is no number.
abbrev pub get_zvol_capacity : DatasetInfo → ℤ
get_zvol_capacity d = or_zero d.volsize

-- An optional ID of the StorageClass; 0 where there is none.
abbrev pub optional_id : Str → Result Code ℤ
optional_id s =
    if is_empty s then ok (pos 0) else elim (atoi s) [ none ↦ err invalid_argument | some n ↦ ok n ]

abbrev pub key_expected_capacity : Str
key_expected_capacity = str "expectedCapacity"

unfoldable pub build_iscsi_volume_response :
    VolumeSettings → Str → DatasetInfo → IscsiTarget → IscsiExtent → ℤ → CreatedVolume
build_iscsi_volume_response s iqn zvol target extent capacity = record {
  volume_id = zvol.id;
  capacity_bytes = capacity;
  volume_context = insert key_expected_capacity (itoa capacity) (
      build_volume_context (record (metadata_for s.volume_name protocol_iscsi s.server zvol) {
        iscsi_target_id = target.id;
        iscsi_extent_id = extent.id;
        iscsi_iqn = iqn;
      }));
}

-- What is not there before is new.
pub record Obtained (A : Type 0) : Type 0 where
  pub object : A
  pub is_new : Bool

abbrev pub created_or : {A : Type 0} → Result Err A → Result Code (Obtained A)
created_or (err e) = err internal
created_or (ok a) = ok (record { object = a; is_new = true })

-- iscsiCreated: the objects that this call has created, with zero values for none.
pub record IscsiCreated : Type 0 where
  pub zvol_id : Str
  pub extent_id : ℤ
  pub target_id : ℤ

abbrev pub zvol_created : MadeDataset → IscsiCreated
zvol_created (existing d) = record { zvol_id = []; extent_id = pos 0; target_id = pos 0 }
zvol_created (new d) = record { zvol_id = d.id; extent_id = pos 0; target_id = pos 0 }

abbrev pub extent_created : Obtained IscsiExtent → IscsiCreated → IscsiCreated
extent_created o c = if o.is_new then record c { extent_id = o.object.id } else c

abbrev pub target_created : Obtained IscsiTarget → IscsiCreated → IscsiCreated
target_created o c = if o.is_new then record c { target_id = o.object.id } else c

-- The layout that iscsiTargetMapsExtent looks for.
abbrev pub maps_only : ℤ → List TargetExtent → Result Code Bool
maps_only extent_id [] = ok false
maps_only extent_id (te ∷ []) =
    if int_eq te.extent extent_id && is_zero te.lun_id then ok true else err already_exists
maps_only extent_id (te ∷ _ ∷ _) = err already_exists

abbrev pub maps_extent : ℤ → Result Err (List TargetExtent) → Result Code Bool
maps_extent extent_id (err e) = err internal
maps_extent extent_id (ok tes) = maps_only extent_id tes

abbrev pub first_or : Result Err (List ℤ) → Result Code ℤ
first_or (err e) = err internal
first_or (ok []) = err failed_precondition
first_or (ok (i ∷ is)) = ok i

abbrev pub association_code : Result Err ℤ → Option Code
association_code (err e) = some internal
association_code (ok id) = none

module _ (env : Setup) where
  unfoldable pub validate_iscsi_params : CreateVolumeRequest → Result Code IscsiVolumeParams
  validate_iscsi_params req = elim (block_settings env req) [
    | err c ↦ err c
    | ok s ↦ elim (optional_id (get (str "portalId") req.parameters)) [
      | err c ↦ err c
      | ok portal ↦ elim (optional_id (get (str "initiatorId") req.parameters)) [
        | err c ↦ err c
        | ok initiator ↦ ok (record {
          settings = s;
          zfs_props = parse_zfs_zvol_properties req.parameters;
          portal_id = portal;
          initiator_id = initiator;
        })
      ]
    ]
  ]

  unfoldable pub iscsi_zvol_create_params : IscsiVolumeParams → ZvolCreateParams
  iscsi_zvol_create_params p = record {
    name = p.settings.dataset_name;
    kind = str "VOLUME";
    volsize = p.settings.requested_capacity;
    comments = p.settings.comment;
    options = iscsi_zvol_options p.zfs_props;
    encryption = is_encrypted p.settings.encryption;
    inherit_encryption = inherited (is_encrypted p.settings.encryption);
    encryption_options = iscsi_encryption_options p.settings.encryption;
    user_properties =
        ownership_properties_v1 p.settings.volume_name protocol_iscsi p.settings.delete_strategy
          env.cluster_id p.settings.requested_capacity;
  }

  abbrev pub iscsi_properties : IscsiVolumeParams → ℤ → ℤ → Str → Str → Map Str
  iscsi_properties p target_id extent_id iqn now =
      iscsi_volume_properties_v1 (recorded_params env p.settings now) target_id extent_id iqn
