-- ===== src/Create/Adopt/Iscsi.antt =====
-- adoptISCSIVolume (pkg/driver/controller_iscsi.go).
use tns_csi.Common.{
  Str, str, is_empty, get, Map, pos, int_eq, cut_last, Bool, true, false, none, some, Option, List,
  [], ◌∷◌, ◌++◌, Result, ok, err, if◌then◌else◌,
}
use tns_csi.Codes.{Code, internal, invalid_argument}
use tns_csi.Errors.{Err}
use tns_csi.Properties.{property_iscsi_iqn, protocol_iscsi}
use tns_csi.Properties.Builders.{iscsi_volume_properties_v1}
use tns_csi.Backend
use tns_csi.Backend.{
  Dataset, IscsiTarget, IscsiExtent, TargetExtent, Backend, M, pure, ◌>>=◌, ◌>>◌, call,
}
use tns_csi.Volume.Context.{build_volume_context}
use tns_csi.Create.Request.{
  CreateVolumeRequest, Setup, VolumeSettings, CreatedVolume, recorded_params, record_properties,
}
use tns_csi.Create.Files.{metadata_for}
use tns_csi.Create.Iscsi.Existing.{full_iqn}
use tns_csi.Create.Adopt.Files.{info_of, adopted_settings}

-- The name of the target in an IQN, if there is one.
abbrev target_name_of : Str → Option Str
target_name_of iqn = elim (cut_last b':' iqn) [ none ↦ none | some (l, r) ↦ some r ]

-- A failed lookup counts as nothing found.
abbrev object_or_none : {A : Type 0} → Result Err (Option A) → Option A
object_or_none (err e) = none
object_or_none (ok o) = o

unfoldable pub has_extent : IscsiExtent → List TargetExtent → Bool
has_extent e [] = false
has_extent e (te ∷ tes) = if int_eq te.extent e.id then true else has_extent e tes

abbrev is_associated : IscsiExtent → Result Err (List TargetExtent) → Bool
is_associated e (err x) = false
is_associated e (ok tes) = has_extent e tes

module _ {B : Backend} where
  unfoldable pub target_by_iqn : Option Str → M B (Option IscsiTarget)
  target_by_iqn none = pure none
  target_by_iqn (some name) =
      call (Backend.iscsi_target_by_name name) >>= λ r. pure (object_or_none r)

  abbrev pub or_by_name : Str → Option IscsiTarget → M B (Option IscsiTarget)
  or_by_name name (some t) = pure (some t)
  or_by_name name none = call (Backend.iscsi_target_by_name name) >>= λ r. pure (object_or_none r)

  -- By the stored IQN, then by the name of the volume.
  unfoldable pub find_target : Str → Map Str → M B (Option IscsiTarget)
  find_target name props =
      target_by_iqn (target_name_of (get property_iscsi_iqn props)) >>= or_by_name name

module _ {B : Backend} (env : Setup) (s : VolumeSettings) (d : Dataset) (basename : Str) where
  unfoldable pub iscsi_adopted : IscsiTarget → IscsiExtent → M B (Result Code CreatedVolume)
  iscsi_adopted t e =
      let iqn = full_iqn basename t in
      call Backend.reload_iscsi_service >>= λ x.
      record_properties d.id
        (λ now. iscsi_volume_properties_v1 (recorded_params env s now) t.id e.id iqn)
      >> pure (
          ok (record {
            volume_id = d.id;
            capacity_bytes = s.requested_capacity;
            volume_context =
                build_volume_context
                  (record (metadata_for s.volume_name protocol_iscsi s.server (info_of d)) {
                    iscsi_target_id = t.id;
                    iscsi_extent_id = e.id;
                    iscsi_iqn = iqn;
                  });
          }))

  abbrev pub adopt_associated :
      {A : Type 0} → IscsiTarget → IscsiExtent → Result Err A → M B (Result Code CreatedVolume)
  adopt_associated t e (err x) = pure (err internal)
  adopt_associated t e (ok id) = iscsi_adopted t e

  unfoldable pub adopt_association :
      IscsiTarget → IscsiExtent → Bool → M B (Result Code CreatedVolume)
  adopt_association t e true = iscsi_adopted t e
  adopt_association t e false =
      call (
        Backend.create_iscsi_target_extent
          (record { target = t.id; extent = e.id; lun_id = pos 0 }))
      >>= adopt_associated t e

  unfoldable pub adopt_pair : IscsiTarget → IscsiExtent → M B (Result Code CreatedVolume)
  adopt_pair t e = call (Backend.iscsi_target_extent_by_target t.id) >>= λ r.
      adopt_association t e (is_associated e r)

  abbrev pub adopt_extent_created :
      IscsiTarget → Result Err IscsiExtent → M B (Result Code CreatedVolume)
  adopt_extent_created t (err x) = pure (err internal)
  adopt_extent_created t (ok e) = adopt_pair t e

  unfoldable pub adopt_extent : Option IscsiExtent → IscsiTarget → M B (Result Code CreatedVolume)
  adopt_extent (some e) t = adopt_pair t e
  adopt_extent none t =
      call (
        Backend.create_iscsi_extent (record {
          name = s.volume_name;
          kind = str "DISK";
          disk = str "zvol/" ++ d.name;
          blocksize = 512;
        }))
      >>= adopt_extent_created t

  abbrev pub adopt_target_created :
      Option IscsiExtent → Result Err IscsiTarget → M B (Result Code CreatedVolume)
  adopt_target_created extent (err x) = pure (err internal)
  adopt_target_created extent (ok t) = adopt_extent extent t

  -- A new target has the portal 1 and the initiator 1.
  unfoldable pub adopt_target :
      Option IscsiTarget → Option IscsiExtent → M B (Result Code CreatedVolume)
  adopt_target (some t) extent = adopt_extent extent t
  adopt_target none extent =
      call (
        Backend.create_iscsi_target
          (record { name = s.volume_name; portal = pos 1; initiator = pos 1 }))
      >>= adopt_target_created extent

  unfoldable pub adopt_target_found : Option IscsiTarget → M B (Result Code CreatedVolume)
  adopt_target_found target = call (Backend.iscsi_extent_by_name s.volume_name) >>= λ r.
      adopt_target target (object_or_none r)

module _ {B : Backend} (env : Setup) (req : CreateVolumeRequest) (d : Dataset)
    (props : Map Str) where
  abbrev pub adopt_configured : Result Err Str → M B (Result Code CreatedVolume)
  adopt_configured (err e) = pure (err internal)
  adopt_configured (ok basename) =
      find_target req.name props
      >>= adopt_target_found env (adopted_settings req (get (str "server") req.parameters)) d
          basename

  unfoldable pub adopt_iscsi_volume : M B (Result Code CreatedVolume)
  adopt_iscsi_volume =
      if is_empty (get (str "server") req.parameters)
      then pure (err invalid_argument)
      else call Backend.get_iscsi_global_config >>= adopt_configured
