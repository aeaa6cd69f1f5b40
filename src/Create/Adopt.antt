-- ===== src/Create/Adopt.antt =====
-- checkAndAdoptVolume and expandAdoptedVolume (pkg/driver/controller.go): a volume that another
-- cluster has left on the server is taken over.
pub mod Files
pub mod Iscsi
pub mod Nvmeof
use tns_csi.Common.{
  Str, str, str_eq, get, lookup, insert, itoa, Map, ℤ, pos, is_positive, Bool, true, false, not,
  ◌&&◌, ◌||◌, Option, none, some, [], ◌∷◌, Result, ok, err, if◌then◌else◌,
}
use tns_csi.Codes.{Code, internal, invalid_argument, failed_precondition}
use tns_csi.Errors.{Err}
use tns_csi.Properties.{
  string_to_int, property_adoptable, property_protocol, property_capacity_bytes, protocol_nfs,
  protocol_nvmeof, protocol_iscsi, protocol_smb,
}
use tns_csi.Backend
use tns_csi.Backend.{Dataset, DatasetUpdateParams, Backend, M, pure, ◌>>=◌, ◌>>◌, call}
use tns_csi.Volume.Adoption.{is_volume_adoptable}
use tns_csi.Create.Request.{
  CreateVolumeRequest, Setup, CreatedVolume, requested_capacity_of, int_ltb,
}
use Files.{adopt_nfs_volume, adopt_smb_volume}
use Iscsi.{adopt_iscsi_volume}
use Nvmeof.{adopt_nvmeof_volume}

abbrev pub no_update : DatasetUpdateParams
no_update = record { quota = none; ref_quota = none; volsize = none }

-- NFS and SMB: the quota; NVMe-oF and iSCSI: the size of the ZVOL.
unfoldable pub adoption_update : Str → ℤ → DatasetUpdateParams
adoption_update protocol capacity =
    if str_eq protocol protocol_nfs || str_eq protocol protocol_smb
    then record no_update { quota = some capacity }
    else if str_eq protocol protocol_nvmeof || str_eq protocol protocol_iscsi
    then record no_update { volsize = some capacity }
    else no_update

abbrev pub existing_capacity : Map Str → ℤ
existing_capacity props = elim (lookup property_capacity_bytes props) [
  | none ↦ pos 0
  | some v ↦ string_to_int v
]

-- The volume or the StorageClass allows the adoption.
abbrev pub may_adopt : Map Str → Map Str → Bool
may_adopt props params =
    str_eq (get property_adoptable props) (str "true")
    || str_eq (get (str "adoptExisting") params) (str "true")

module _ {B : Backend} where
  abbrev pub after_update : Str → ℤ → Option Err → M B (Option Code)
  after_update id capacity (some e) = pure (some internal)
  after_update id capacity none =
      call (Backend.set_dataset_properties id ((property_capacity_bytes, itoa capacity) ∷ []))
      >>= λ e. pure none

  unfoldable pub expand_adopted_volume : Dataset → Str → ℤ → M B (Option Code)
  expand_adopted_volume d protocol capacity =
      call (Backend.update_dataset d.id (adoption_update protocol capacity))
      >>= after_update d.id capacity

module _ {B : Backend} (env : Setup) (req : CreateVolumeRequest) (protocol : Str) where
  unfoldable pub adopt_by_protocol : Dataset → Map Str → M B (Result Code CreatedVolume)
  adopt_by_protocol d props =
      if str_eq protocol protocol_nfs
      then adopt_nfs_volume env req d
      else if str_eq protocol protocol_nvmeof
      then adopt_nvmeof_volume env req d props
      else if str_eq protocol protocol_iscsi
      then adopt_iscsi_volume env req d props
      else if str_eq protocol protocol_smb
      then adopt_smb_volume env req d
      else pure (err invalid_argument)

  abbrev pub after_expansion : Dataset → Map Str → Option Code → M B (Result Code CreatedVolume)
  after_expansion d props (some c) = pure (err c)
  after_expansion d props none = adopt_by_protocol d props

  -- A volume that is smaller than asked for is expanded first.
  unfoldable pub adopt_dataset : Dataset → Map Str → M B (Result Code CreatedVolume)
  adopt_dataset d props =
      let requested = requested_capacity_of req.required_bytes in
      let existing = existing_capacity props in
      (if int_ltb existing requested && is_positive existing
        then expand_adopted_volume d protocol requested
        else pure none)
      >>= after_expansion d props

  unfoldable pub adopt_with : Dataset → Option (Map Str) → M B (Option (Result Code CreatedVolume))
  adopt_with d none = pure none
  adopt_with d (some props) =
      if not (is_volume_adoptable props)
      then pure none
      else if not (may_adopt props req.parameters)
      then pure none
      else if not (str_eq (get property_protocol props) protocol)
      then pure (some (err failed_precondition))
      else adopt_dataset d props >>= λ r. pure (some r)

  abbrev pub adopt_found : Result Err (Option Dataset) → M B (Option (Result Code CreatedVolume))
  adopt_found (err e) = pure none
  adopt_found (ok none) = pure none
  adopt_found (ok (some d)) = adopt_with d d.user_properties

  -- `none`: there is nothing to adopt.
  unfoldable pub check_and_adopt_volume : M B (Option (Result Code CreatedVolume))
  check_and_adopt_volume =
      call (Backend.find_dataset_by_csi_volume_name [] req.name) >>= adopt_found
