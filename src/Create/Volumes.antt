-- ===== src/Create/Volumes.antt =====
-- CreateVolume and checkExistingVolume (pkg/driver/controller.go), for a request without a content
-- source. Overlapping calls for one name are the matter of Create.InFlight.
use tns_csi.Common.{
  Str, str, str_eq, is_empty, get, insert, itoa, ℤ, pos, is_positive, int_eq, not, ◌&&◌, ◌||◌,
  Option, none, some, List, [], ◌∷◌, ◌++◌, Result, ok, err, if◌then◌else◌,
}
use tns_csi.Codes.{Code, invalid_argument, already_exists}
use tns_csi.Errors.{Err}
use tns_csi.Properties.{protocol_nfs}
use tns_csi.Backend
use tns_csi.Backend.{DatasetInfo, NfsShare, Backend, M, pure, ◌>>=◌, call}
use tns_csi.Volume.Context.{
  key_protocol, key_server, key_share, key_dataset_id, key_dataset_name, key_nfs_share_id,
}
use tns_csi.Volume.Request.{
  validate_create_volume_request, validate_access_mode_for_protocol, validate_filesystem_check_mode,
  filesystem_check_mode_preen, resolve_parent_dataset,
}
use tns_csi.Create.Request.{
  CreateVolumeRequest, Setup, CreatedVolume, or_default, default_server_address,
  requested_capacity_of,
}
use tns_csi.Create.Access.{NfsShareAccess, parse_nfs_share_access, check_existing_nfs_share_access}
use tns_csi.Create.Comment.{parse_nfs_share_capacity}
use tns_csi.Create.Adopt.{check_and_adopt_volume}
use tns_csi.Create.Protocols.{create_volume_by_protocol}

abbrev pub key_filesystem_check : Str
key_filesystem_check = str "filesystemCheckMode"

-- applyCreateVolumeContext
abbrev pub apply_create_volume_context : Str → CreatedVolume → CreatedVolume
apply_create_volume_context mode v =
    if str_eq mode filesystem_check_mode_preen
    then record v { volume_context = insert key_filesystem_check mode v.volume_context }
    else v

-- validateCapacityCompatibility
unfoldable pub validate_capacity_compatibility : ℤ → ℤ → Option Code
validate_capacity_compatibility existing requested =
    if is_positive existing && not (int_eq requested existing) then some already_exists else none

abbrev pub protocol_of : CreateVolumeRequest → Str
protocol_of req = or_default protocol_nfs (get (str "protocol") req.parameters)

abbrev parent_of : CreateVolumeRequest → Str
parent_of req =
    resolve_parent_dataset (get (str "pool") req.parameters)
      (get (str "parentDataset") req.parameters)

abbrev pub expected_dataset_name : CreateVolumeRequest → Str
expected_dataset_name req = parent_of req ++ b'/' ∷ req.name

-- The response for the dataset with its first share.
unfoldable pub existing_nfs_response : CreateVolumeRequest → DatasetInfo → NfsShare → CreatedVolume
existing_nfs_response req d share =
    let requested = requested_capacity_of req.required_bytes in
    record {
      volume_id = expected_dataset_name req;
      capacity_bytes = if is_positive requested then requested else pos 1073741824;
      volume_context =
          (key_server, or_default default_server_address (get (str "server") req.parameters))
          ∷ (key_share, d.mountpoint)
          ∷ (key_dataset_id, d.id)
          ∷ (key_dataset_name, expected_dataset_name req)
          ∷ (key_nfs_share_id, itoa share.id)
          ∷ (key_protocol, protocol_of req)
          ∷ [];
    }

abbrev then_result {ℓ} : {A : Type ℓ} → Option Code → Result Code A → Result Code A
then_result (some c) r = err c
then_result none r = r

module _ (env : Setup) (req : CreateVolumeRequest) where
  abbrev check_share_with :
      DatasetInfo → NfsShare → Result Code NfsShareAccess → Result Code (Option CreatedVolume)
  check_share_with d share (err c) = err c
  check_share_with d share (ok access) =
      then_result (check_existing_nfs_share_access access share) (
        then_result
          (validate_capacity_compatibility (parse_nfs_share_capacity share.comment)
            (requested_capacity_of req.required_bytes))
          (ok (some (existing_nfs_response req d share))))

  -- The first share counts; an error of the query counts as no volume.
  unfoldable pub existing_nfs_checked :
      DatasetInfo → Result Err (List NfsShare) → Result Code (Option CreatedVolume)
  existing_nfs_checked d (err e) = ok none
  existing_nfs_checked d (ok []) = ok none
  existing_nfs_checked d (ok (share ∷ _)) =
      check_share_with d share (parse_nfs_share_access env req.parameters)

  -- The checks before the first call: the mode of the file system check, or an error.
  unfoldable pub check_request : Result Code Str
  check_request =
      then_result (validate_create_volume_request req.name req.capabilities req.required_bytes) (
        if str_eq (protocol_of req) protocol_nfs
        then elim (parse_nfs_share_access env req.parameters) [
          | err c ↦ err c
          | ok access ↦ modes_checked
        ]
        else if not (is_empty (get (str "nfsHosts") req.parameters))
            || not (is_empty (get (str "nfsNetworks") req.parameters))
        then err invalid_argument
        else modes_checked)
    where
      modes_checked : Result Code Str
      modes_checked =
          then_result (validate_access_mode_for_protocol req.capabilities (protocol_of req)) (
            validate_filesystem_check_mode (get key_filesystem_check req.parameters)
              (protocol_of req) req.capabilities)

abbrev pub with_context : Str → Result Code CreatedVolume → Result Code CreatedVolume
with_context mode (err c) = err c
with_context mode (ok v) = ok (apply_create_volume_context mode v)

module _ {B : Backend} (env : Setup) (req : CreateVolumeRequest) where
  abbrev pub existing_found :
      Result Err (Option DatasetInfo) → M B (Result Code (Option CreatedVolume))
  existing_found (err e) = pure (ok none)
  existing_found (ok none) = pure (ok none)
  existing_found (ok (some d)) =
      if str_eq (protocol_of req) protocol_nfs
      then (call (Backend.query_nfs_shares d.mountpoint) >>= λ r.
          pure (existing_nfs_checked env req d r))
      else pure (ok none)

  -- checkExistingVolume, with `none` for ErrVolumeNotFound.
  unfoldable pub check_existing_volume : M B (Result Code (Option CreatedVolume))
  check_existing_volume =
      if is_empty (parent_of req)
      then pure (ok none)
      else call (Backend.dataset (expected_dataset_name req)) >>= existing_found

  abbrev pub after_adoption :
      Str → Option (Result Code CreatedVolume) → M B (Result Code CreatedVolume)
  after_adoption mode (some r) = pure (with_context mode r)
  after_adoption mode none =
      create_volume_by_protocol env req (protocol_of req) >>= λ r. pure (with_context mode r)

  abbrev pub after_existing_check :
      Str → Result Code (Option CreatedVolume) → M B (Result Code CreatedVolume)
  after_existing_check mode (err c) = pure (err c)
  after_existing_check mode (ok (some v)) = pure (ok (apply_create_volume_context mode v))
  after_existing_check mode (ok none) =
      check_and_adopt_volume env req (protocol_of req) >>= after_adoption mode

  abbrev pub after_checks : Result Code Str → M B (Result Code CreatedVolume)
  after_checks (err c) = pure (err c)
  after_checks (ok mode) = check_existing_volume >>= after_existing_check mode

  unfoldable pub create_volume : M B (Result Code CreatedVolume)
  create_volume = after_checks (check_request env req)
