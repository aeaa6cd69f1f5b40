-- ===== src/Create/Iscsi/Steps.antt =====
-- The steps of a new iSCSI volume (pkg/driver/controller_iscsi.go): each object is looked up and, if
-- it is not there, created; and the cleanup.
use tns_csi.Common.{
  str, str_eq, is_empty, ℤ, pos, is_zero, Option, none, some, Bool, true, false, not, Result, ok,
  err, if◌then◌else◌,
}
use tns_csi.Codes.{Code, internal, already_exists}
use tns_csi.Errors.{Err}
use tns_csi.Backend
use tns_csi.Backend.{
  DatasetInfo, ZvolOptions, ZvolCreateParams, IscsiTarget, IscsiExtent, TargetExtent, Backend, M,
  pure, ◌>>=◌, ◌>>◌, call,
}
use tns_csi.Create.Iscsi.Objects.{
  zvol_disk, created_or, maps_extent, first_or, association_code, IscsiVolumeParams, Obtained,
  IscsiCreated,
}

module _ {B : Backend} where
  abbrev pub when : Bool → M B (Unit {0}) → M B (Unit {0})
  when b m = if b then m else pure tt

  -- In reverse order, only what this call has created; failures are only logged.
  unfoldable pub cleanup_iscsi_create : IscsiCreated → M B (Unit {0})
  cleanup_iscsi_create c =
      when (not (is_zero c.target_id))
        (call (Backend.delete_iscsi_target c.target_id) >>= λ e. pure tt)
      >> (when (not (is_zero c.extent_id))
            (call (Backend.delete_iscsi_extent c.extent_id) >>= λ e. pure tt)
          >> when (not (is_empty c.zvol_id))
              (call (Backend.delete_dataset c.zvol_id) >>= λ e. pure tt))

  abbrev pub extent_looked_up :
      IscsiVolumeParams → Result Err (Option IscsiExtent) → M B (Result Code (Obtained IscsiExtent))
  extent_looked_up p (err e) = pure (err internal)
  extent_looked_up p (ok (some extent)) =
      if str_eq extent.disk (zvol_disk p)
      then pure (ok (record { object = extent; is_new = false }))
      else pure (err already_exists)
  extent_looked_up p (ok none) =
      call (
        Backend.create_iscsi_extent (record {
          name = p.settings.volume_name;
          kind = str "DISK";
          disk = zvol_disk p;
          blocksize = 0;
        }))
      >>= λ r. pure (created_or r)

  unfoldable pub get_or_create_iscsi_extent :
      IscsiVolumeParams → M B (Result Code (Obtained IscsiExtent))
  get_or_create_iscsi_extent p =
      call (Backend.iscsi_extent_by_name p.settings.volume_name) >>= extent_looked_up p

  -- resolveISCSIPortalAndInitiator, one ID after the other.
  unfoldable pub resolve_portal : ℤ → M B (Result Code ℤ)
  resolve_portal id =
      if is_zero id
      then (call Backend.query_iscsi_portals >>= λ r. pure (first_or r))
      else pure (ok id)

  unfoldable pub resolve_initiator : ℤ → M B (Result Code ℤ)
  resolve_initiator id =
      if is_zero id
      then (call Backend.query_iscsi_initiators >>= λ r. pure (first_or r))
      else pure (ok id)

  abbrev pub with_initiator :
      IscsiVolumeParams → ℤ → Result Code ℤ → M B (Result Code (Obtained IscsiTarget))
  with_initiator p portal (err c) = pure (err c)
  with_initiator p portal (ok initiator) =
      call (
        Backend.create_iscsi_target
          (record { name = p.settings.volume_name; portal = portal; initiator = initiator }))
      >>= λ r. pure (created_or r)

  abbrev pub with_portal :
      IscsiVolumeParams → Result Code ℤ → M B (Result Code (Obtained IscsiTarget))
  with_portal p (err c) = pure (err c)
  with_portal p (ok portal) = resolve_initiator p.initiator_id >>= with_initiator p portal

  unfoldable pub target_looked_up :
      IscsiVolumeParams → Result Err (Option IscsiTarget) → M B (Result Code (Obtained IscsiTarget))
  target_looked_up p (err e) = pure (err internal)
  target_looked_up p (ok (some target)) = pure (ok (record { object = target; is_new = false }))
  target_looked_up p (ok none) = resolve_portal p.portal_id >>= with_portal p

  unfoldable pub get_or_create_iscsi_target :
      IscsiVolumeParams → M B (Result Code (Obtained IscsiTarget))
  get_or_create_iscsi_target p =
      call (Backend.iscsi_target_by_name p.settings.volume_name) >>= target_looked_up p

  unfoldable pub iscsi_target_maps_extent : ℤ → ℤ → M B (Result Code Bool)
  iscsi_target_maps_extent target_id extent_id =
      call (Backend.iscsi_target_extent_by_target target_id) >>= λ r. pure (maps_extent extent_id r)

  unfoldable pub map_unless : ℤ → ℤ → Result Code Bool → M B (Option Code)
  map_unless target_id extent_id (err c) = pure (some c)
  map_unless target_id extent_id (ok true) = pure none
  map_unless target_id extent_id (ok false) =
      call (
        Backend.create_iscsi_target_extent
          (record { target = target_id; extent = extent_id; lun_id = pos 0 }))
      >>= λ r. pure (association_code r)

  unfoldable pub ensure_iscsi_target_extent : ℤ → ℤ → M B (Option Code)
  ensure_iscsi_target_extent target_id extent_id =
      iscsi_target_maps_extent target_id extent_id >>= map_unless target_id extent_id
