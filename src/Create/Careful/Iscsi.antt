-- ===== src/Create/Careful/Iscsi.antt =====
-- adoptISCSIVolume (pkg/driver/controller_iscsi.go) deletes nothing.
use tns_csi.Common.{Str, ℤ, Map, Bool, true, false, Option, none, some, List, Result, ok, err, refl}
use tns_csi.Errors.{Err}
use tns_csi.Backend
use tns_csi.Backend.{
  Dataset, DatasetInfo, NfsShare, SmbShare, IscsiTarget, IscsiExtent, TargetExtent, NvmeofSubsystem,
  NvmeofNamespace, Event, did, Backend, Driver, M, pure, ◌>>=◌, ◌>>◌, call,
}
use tns_csi.Backend.Ledger.{Object, effect, settle}
use tns_csi.Backend.Settles.{Quiet, Quiet-call, Quiet-bind, quiet_rules}
use tns_csi.Backend.Careful.{Careful, Careful-pure, Careful-Quiet, Careful-call, Careful-if}
use tns_csi.Create.Request.{CreateVolumeRequest, Setup, VolumeSettings}
use tns_csi.Create.Settled.Datasets.{record_properties-Quiet}
use tns_csi.Create.Adopt.Iscsi.{
  target_by_iqn, or_by_name, find_target, iscsi_adopted, adopt_associated, adopt_association,
  adopt_pair, adopt_extent_created, adopt_extent, adopt_target_created, adopt_target,
  adopt_target_found, adopt_configured, adopt_iscsi_volume,
}

module _ {B : Backend} where
  target_by_iqn-Quiet : (name : Option Str) → Quiet {B = B} (target_by_iqn name)
  unfolding target_by_iqn effect
  target_by_iqn-Quiet none = search quiet_rules
  target_by_iqn-Quiet (some name) = search quiet_rules

  or_by_name-Quiet : (name : Str) (t : Option IscsiTarget) → Quiet {B = B} (or_by_name name t)
  unfolding effect
  or_by_name-Quiet name (some t) = search quiet_rules
  or_by_name-Quiet name none = search quiet_rules

  find_target-Quiet : (name : Str) (props : Map Str) → Quiet {B = B} (find_target name props)
  unfolding find_target
  find_target-Quiet name props = Quiet-bind _ _ (target_by_iqn-Quiet _) (or_by_name-Quiet name)

module _ {B : Backend} (env : Setup) (s : VolumeSettings) (d : Dataset) (basename : Str) where
  iscsi_adopted-Careful :
      (os : List Object) (t : IscsiTarget) (e : IscsiExtent)
      → Careful {B = B} (some os) (iscsi_adopted env s d basename t e)
  unfolding iscsi_adopted effect
  iscsi_adopted-Careful os t e =
      Careful-Quiet _ _ (Quiet-call Backend.reload_iscsi_service (λ r. refl))
        (λ _. Careful-Quiet _ _ (record_properties-Quiet _ _) (λ _. Careful-pure _))

  adopt_associated-Careful :
      (os : List Object) (t : IscsiTarget) (e : IscsiExtent)
      (params : Backend.IscsiTargetExtentCreateParams) (r : Result Err ℤ)
      → Careful {B = B}
          (settle (effect (did (Backend.create_iscsi_target_extent params) r)) (some os))
          (adopt_associated env s d basename t e r)
  unfolding effect settle
  adopt_associated-Careful os t e params (err x) = Careful-pure _
  adopt_associated-Careful os t e params (ok id) = iscsi_adopted-Careful _ t e

  adopt_association-Careful :
      (os : List Object) (t : IscsiTarget) (e : IscsiExtent) (b : Bool)
      → Careful {B = B} (some os) (adopt_association env s d basename t e b)
  unfolding adopt_association
  adopt_association-Careful os t e true = iscsi_adopted-Careful _ t e
  adopt_association-Careful os t e false =
      Careful-call (Backend.create_iscsi_target_extent _) _ (adopt_associated-Careful _ t e _)

  adopt_pair-Careful :
      (os : List Object) (t : IscsiTarget) (e : IscsiExtent)
      → Careful {B = B} (some os) (adopt_pair env s d basename t e)
  unfolding adopt_pair effect
  adopt_pair-Careful os t e =
      Careful-Quiet _ _ (Quiet-call (Backend.iscsi_target_extent_by_target t.id) (λ r. refl))
        (λ r. adopt_association-Careful _ t e _)

  adopt_extent_created-Careful :
      (os : List Object) (t : IscsiTarget) (params : Backend.IscsiExtentCreateParams)
      (r : Result Err IscsiExtent)
      → Careful {B = B}
          (settle (effect (did (Backend.create_iscsi_extent params) r)) (some os))
          (adopt_extent_created env s d basename t r)
  unfolding effect settle
  adopt_extent_created-Careful os t params (err x) = Careful-pure _
  adopt_extent_created-Careful os t params (ok e) = adopt_pair-Careful _ t e

  adopt_extent-Careful :
      (os : List Object) (e : Option IscsiExtent) (t : IscsiTarget)
      → Careful {B = B} (some os) (adopt_extent env s d basename e t)
  unfolding adopt_extent
  adopt_extent-Careful os (some e) t = adopt_pair-Careful _ t e
  adopt_extent-Careful os none t =
      Careful-call (Backend.create_iscsi_extent _) _ (adopt_extent_created-Careful _ t _)

  adopt_target_created-Careful :
      (os : List Object) (e : Option IscsiExtent) (params : Backend.IscsiTargetCreateParams)
      (r : Result Err IscsiTarget)
      → Careful {B = B}
          (settle (effect (did (Backend.create_iscsi_target params) r)) (some os))
          (adopt_target_created env s d basename e r)
  unfolding effect settle
  adopt_target_created-Careful os e params (err x) = Careful-pure _
  adopt_target_created-Careful os e params (ok t) = adopt_extent-Careful _ e t

  adopt_target-Careful :
      (os : List Object) (t : Option IscsiTarget) (e : Option IscsiExtent)
      → Careful {B = B} (some os) (adopt_target env s d basename t e)
  unfolding adopt_target
  adopt_target-Careful os (some t) e = adopt_extent-Careful _ e t
  adopt_target-Careful os none e =
      Careful-call (Backend.create_iscsi_target _) _ (adopt_target_created-Careful _ e _)

  adopt_target_found-Careful :
      (os : List Object) (t : Option IscsiTarget)
      → Careful {B = B} (some os) (adopt_target_found env s d basename t)
  unfolding adopt_target_found effect
  adopt_target_found-Careful os t =
      Careful-Quiet _ _ (Quiet-call (Backend.iscsi_extent_by_name s.volume_name) (λ r. refl))
        (λ r. adopt_target-Careful _ t _)

module _ {B : Backend} (env : Setup) (req : CreateVolumeRequest) (d : Dataset)
    (props : Map Str) where
  adopt_configured-Careful :
      (os : List Object) (r : Result Err Str)
      → Careful {B = B} (some os) (adopt_configured env req d props r)
  adopt_configured-Careful os (err e) = Careful-pure _
  adopt_configured-Careful os (ok basename) =
      Careful-Quiet _ _ (find_target-Quiet req.name props)
        (adopt_target_found-Careful env _ d basename _)

  pub adopt_iscsi_volume-Careful :
      (os : List Object) → Careful {B = B} (some os) (adopt_iscsi_volume env req d props)
  unfolding adopt_iscsi_volume effect
  adopt_iscsi_volume-Careful os = Careful-if _ _ _ (Careful-pure _) (
      Careful-Quiet _ _ (Quiet-call Backend.get_iscsi_global_config (λ r. refl))
        (adopt_configured-Careful _))
