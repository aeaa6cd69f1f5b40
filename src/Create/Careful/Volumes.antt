-- ===== src/Create/Careful/Volumes.antt =====
-- CreateVolume (pkg/driver/controller.go) deletes nothing that it has not created.
use tns_csi.Common.{
  Str, get, ℤ, Map, Option, none, some, [], Result, ok, err, ◌≡◌, ◌≢◌, refl, ap, not, str_eq,
}
use tns_csi.Codes.{Code, failed_precondition}
use tns_csi.Errors.{Err}
use tns_csi.Backend
use tns_csi.Backend.{
  Dataset, DatasetInfo, NfsShare, SmbShare, IscsiTarget, IscsiExtent, TargetExtent, NvmeofSubsystem,
  NvmeofNamespace, Event, did, Backend, Driver, M, pure, ◌>>=◌, ◌>>◌, call,
}
use tns_csi.Backend.Ledger.{effect, ledger}
use tns_csi.Backend.Settles.{Quiet, Quiet-pure, Quiet-call, Quiet-bind, Quiet-if, quiet_rules}
use tns_csi.Backend.Careful.{
  Careful, Careful-pure, Careful-of_Settles, Careful-Quiet, Careful-if, Careful-result,
  Careful-if_bind, Careful-pure_bind, Careful-result_bind,
}
use tns_csi.Create.Request.{CreateVolumeRequest, Setup, CreatedVolume}
use tns_csi.Create.Adopt.{
  after_update, expand_adopted_volume, adopt_by_protocol, after_expansion, adopt_dataset,
  adopt_with, adopt_found, check_and_adopt_volume, may_adopt,
}
use tns_csi.Create.Volumes.{
  existing_found, check_existing_volume, after_adoption, after_existing_check, after_checks,
  create_volume, protocol_of, with_context,
}
use tns_csi.Create.Settled.Volumes.{create_volume_by_protocol-Settles}
use tns_csi.Create.Careful.Files.{adopt_nfs_volume-Careful, adopt_smb_volume-Careful}
use tns_csi.Create.Careful.Iscsi.{adopt_iscsi_volume-Careful}
use tns_csi.Create.Careful.Nvmeof.{adopt_nvmeof_volume-Careful}
use tns_csi.Volume.Adoption.{is_volume_adoptable}
use tns_csi.Properties.{property_protocol}

module _ {B : Backend} where
  after_update-Quiet :
      (id : Str) (capacity : ℤ) (e : Option Err) → Quiet {B = B} (after_update id capacity e)
  unfolding effect
  after_update-Quiet id capacity (some e) = Quiet-pure _
  after_update-Quiet id capacity none = search quiet_rules

  expand_adopted_volume-Quiet :
      (d : Dataset) (protocol : Str) (capacity : ℤ)
      → Quiet {B = B} (expand_adopted_volume d protocol capacity)
  unfolding expand_adopted_volume effect
  expand_adopted_volume-Quiet d protocol capacity =
      Quiet-bind _ _ (Quiet-call (Backend.update_dataset d.id _) (λ r. refl))
        (after_update-Quiet d.id capacity)

module _ {B : Backend} (env : Setup) (req : CreateVolumeRequest) (protocol : Str) where
  adopt_by_protocol-Careful :
      (d : Dataset) (props : Map Str)
      → Careful {B = B} (some []) (adopt_by_protocol env req protocol d props)
  unfolding adopt_by_protocol
  adopt_by_protocol-Careful d props = Careful-if _ _ _ (adopt_nfs_volume-Careful env d _ req) (
      Careful-if _ _ _ (adopt_nvmeof_volume-Careful env req d props _) (
        Careful-if _ _ _ (adopt_iscsi_volume-Careful env req d props _)
          (Careful-if _ _ _ (adopt_smb_volume-Careful env d _ req) (Careful-pure _))))

  after_expansion-Careful :
      (d : Dataset) (props : Map Str) (e : Option Code)
      → Careful {B = B} (some []) (after_expansion env req protocol d props e)
  after_expansion-Careful d props (some c) = Careful-pure _
  after_expansion-Careful d props none = adopt_by_protocol-Careful d props

  adopt_dataset-Careful :
      (d : Dataset) (props : Map Str)
      → Careful {B = B} (some []) (adopt_dataset env req protocol d props)
  unfolding adopt_dataset
  adopt_dataset-Careful d props =
      Careful-Quiet _ _ (Quiet-if _ _ _ (expand_adopted_volume-Quiet d protocol _) (Quiet-pure _))
        (after_expansion-Careful d props)

module _ {B : Backend} (env : Setup) (req : CreateVolumeRequest) where
  existing_found-Quiet :
      (r : Result Err (Option DatasetInfo)) → Quiet {B = B} (existing_found env req r)
  unfolding effect
  existing_found-Quiet (err e) = Quiet-pure _
  existing_found-Quiet (ok none) = Quiet-pure _
  existing_found-Quiet (ok (some d)) = search quiet_rules

  check_existing_volume-Quiet : Quiet {B = B} (check_existing_volume env req)
  unfolding check_existing_volume effect
  check_existing_volume-Quiet =
      Quiet-if _ _ _ (Quiet-pure _)
        (Quiet-bind _ _ (Quiet-call (Backend.dataset _) (λ r. refl)) existing_found-Quiet)

  after_adoption-Careful :
      (mode : Str) (r : Option (Result Code CreatedVolume))
      → Careful {B = B} (some []) (after_adoption env req mode r)
  after_adoption-Careful mode (some r) = Careful-pure _
  after_adoption-Careful mode none =
      Careful-result _ _ (Careful-of_Settles (create_volume_by_protocol-Settles env req _))

  adopt_with-Careful :
      (mode : Str) (d : Dataset) (props : Option (Map Str))
      → Careful {B = B}
          (some [])
          (adopt_with env req (protocol_of req) d props >>= after_adoption env req mode)
  unfolding adopt_with
  adopt_with-Careful mode d none = Careful-pure_bind _ _ (after_adoption-Careful mode none)
  adopt_with-Careful mode d (some props) =
      Careful-if_bind (not (is_volume_adoptable props)) (pure none) _ _
        (Careful-pure_bind none _ (after_adoption-Careful mode none))
        (Careful-if_bind (not (may_adopt props req.parameters)) (pure none) _ _
          (Careful-pure_bind none _ (after_adoption-Careful mode none))
          (Careful-if_bind (not (str_eq (get property_protocol props) (protocol_of req)))
            (pure (some (err failed_precondition))) _ _
            (Careful-pure_bind (some (err failed_precondition)) _
              (after_adoption-Careful mode (some (err failed_precondition))))
            (Careful-result_bind _ some (after_adoption env req mode) (
              Careful-result _ (with_context mode)
                (adopt_dataset-Careful env req (protocol_of req) d props)))))

  adopt_found-Careful :
      (mode : Str) (r : Result Err (Option Dataset))
      → Careful {B = B}
          (some [])
          (adopt_found env req (protocol_of req) r >>= after_adoption env req mode)
  unfolding ◌>>=◌ pure
  adopt_found-Careful mode (err e) = after_adoption-Careful mode none
  adopt_found-Careful mode (ok none) = after_adoption-Careful mode none
  adopt_found-Careful mode (ok (some d)) = adopt_with-Careful mode d d.user_properties

  after_existing_check-Careful :
      (mode : Str) (r : Result Code (Option CreatedVolume))
      → Careful {B = B} (some []) (after_existing_check env req mode r)
  unfolding check_and_adopt_volume ◌>>=◌ effect
  after_existing_check-Careful mode (err c) = Careful-pure _
  after_existing_check-Careful mode (ok (some v)) = Careful-pure _
  after_existing_check-Careful mode (ok none) =
      Careful-Quiet (call (Backend.find_dataset_by_csi_volume_name [] req.name))
        (λ r. adopt_found env req (protocol_of req) r >>= after_adoption env req mode)
        (Quiet-call (Backend.find_dataset_by_csi_volume_name [] req.name) (λ r. refl))
        (adopt_found-Careful mode)

  after_checks-Careful : (r : Result Code Str) → Careful {B = B} (some []) (after_checks env req r)
  after_checks-Careful (err c) = Careful-pure _
  after_checks-Careful (ok mode) =
      Careful-Quiet _ _ check_existing_volume-Quiet (after_existing_check-Careful mode)

  -- A run of CreateVolume that starts with an empty log deletes at most objects that it has created,
  -- the last one first, whatever it returns, for every request without a content source and every
  -- server.
  pub create_volume-Careful :
      (s : Driver B) → s.log ≡ [] → ledger (create_volume env req s).1.log ≢ none
  unfolding create_volume ledger
  create_volume-Careful s fresh = (after_checks-Careful _).at s (ap ledger fresh)
