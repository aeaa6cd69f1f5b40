-- ===== src/Create/Settled/Iscsi/Steps.antt =====
-- The steps of createISCSIVolume (pkg/driver/controller_iscsi.go) that obtain an object, each with
-- what follows it.
use tns_csi.Common.{ℤ, Bool, true, false, Option, none, some, List, Result, ok, err}
use tns_csi.Codes.{Code}
use tns_csi.Errors.{Err}
use tns_csi.Backend
use tns_csi.Backend.{
  DatasetInfo, IscsiTarget, IscsiExtent, TargetExtent, NvmeofSubsystem, NvmeofNamespace, Event, did,
  Backend, Driver, M, pure, ◌>>=◌, ◌>>◌, call,
}
use tns_csi.Backend.Ledger.{Object, numbered, extent, target, effect, push, settle}
use tns_csi.Backend.Settles.{
  Quiet, quiet_rules, Settles, Settles-quiet, Settles-call, Settles-reply, Settles-if_bind,
}
use tns_csi.Create.Iscsi.Objects.{IscsiVolumeParams, Obtained, created_or, association_code}
use tns_csi.Create.Iscsi.Steps.{
  extent_looked_up, get_or_create_iscsi_extent, resolve_portal, resolve_initiator, with_initiator,
  with_portal, target_looked_up, get_or_create_iscsi_target, iscsi_target_maps_extent, map_unless,
  ensure_iscsi_target_extent,
}

-- What follows a step that obtains an object of the kind settles the ledger, if the step has failed,
-- found the object or created it.
pub record Follows {B : Backend} {A X : Type 0} (os : List Object) (object : X → Object)
    (k : Result Code (Obtained X) → M B (Result Code A)) : Type 0 where
  pub failed : (c : Code) → Settles (some os) (k (err c))
  pub found : (x : X) → Settles (some os) (k (ok (record { object = x; is_new = false })))
  pub created :
      (x : X) → Settles (some (push (object x) os)) (k (ok (record { object = x; is_new = true })))

module _ {B : Backend} {A : Type 0} {os : List Object} (p : IscsiVolumeParams) where
  module _ (k : Result Code (Obtained IscsiExtent) → M B (Result Code A))
      (f : Follows os (λ (e : IscsiExtent). numbered extent e.id) k) where
    created_extent-Settles :
        (params : Backend.IscsiExtentCreateParams) (r : Result Err IscsiExtent)
        → Settles
            (settle (effect (did (Backend.create_iscsi_extent params) r)) (some os))
            (k (created_or r))
    unfolding effect settle
    created_extent-Settles params (err e) = f.failed _
    created_extent-Settles params (ok x) = f.created x

    extent_looked_up-Settles :
        (r : Result Err (Option IscsiExtent)) → Settles (some os) (extent_looked_up p r >>= k)
    unfolding ◌>>=◌ pure
    extent_looked_up-Settles (err e) = f.failed _
    extent_looked_up-Settles (ok (some x)) =
        Settles-if_bind _ (pure _) (pure _) k (f.found x) (f.failed _)
    extent_looked_up-Settles (ok none) =
        Settles-reply (Backend.create_iscsi_extent _) created_or k (created_extent-Settles _)

    pub get_or_create_iscsi_extent-Settles : Settles (some os) (get_or_create_iscsi_extent p >>= k)
    unfolding get_or_create_iscsi_extent ◌>>=◌ effect settle
    get_or_create_iscsi_extent-Settles =
        Settles-call (Backend.iscsi_extent_by_name p.settings.volume_name)
          (λ r. extent_looked_up p r >>= k) extent_looked_up-Settles

  module _ (k : Result Code (Obtained IscsiTarget) → M B (Result Code A))
      (f : Follows os (λ (t : IscsiTarget). numbered target t.id) k) where
    created_target-Settles :
        (params : Backend.IscsiTargetCreateParams) (r : Result Err IscsiTarget)
        → Settles
            (settle (effect (did (Backend.create_iscsi_target params) r)) (some os))
            (k (created_or r))
    unfolding effect settle
    created_target-Settles params (err e) = f.failed _
    created_target-Settles params (ok x) = f.created x

    with_initiator-Settles :
        (portal : ℤ) (r : Result Code ℤ) → Settles (some os) (with_initiator p portal r >>= k)
    unfolding ◌>>=◌ pure
    with_initiator-Settles portal (err c) = f.failed c
    with_initiator-Settles portal (ok initiator) =
        Settles-reply (Backend.create_iscsi_target _) created_or k (created_target-Settles _)

    with_portal-Settles : (r : Result Code ℤ) → Settles (some os) (with_portal p r >>= k)
    unfolding ◌>>=◌ pure resolve_initiator effect
    with_portal-Settles (err c) = f.failed c
    with_portal-Settles (ok portal) =
        Settles-quiet (resolve_initiator p.initiator_id) (λ r. with_initiator p portal r >>= k)
          (search quiet_rules) (with_initiator-Settles portal)

    target_looked_up-Settles :
        (r : Result Err (Option IscsiTarget)) → Settles (some os) (target_looked_up p r >>= k)
    unfolding ◌>>=◌ pure target_looked_up resolve_portal effect
    target_looked_up-Settles (err e) = f.failed _
    target_looked_up-Settles (ok (some x)) = f.found x
    target_looked_up-Settles (ok none) =
        Settles-quiet (resolve_portal p.portal_id) (λ r. with_portal p r >>= k) (search quiet_rules)
          with_portal-Settles

    pub get_or_create_iscsi_target-Settles : Settles (some os) (get_or_create_iscsi_target p >>= k)
    unfolding get_or_create_iscsi_target ◌>>=◌ effect settle
    get_or_create_iscsi_target-Settles =
        Settles-call (Backend.iscsi_target_by_name p.settings.volume_name)
          (λ r. target_looked_up p r >>= k) target_looked_up-Settles

pub iscsi_target_maps_extent-Quiet :
    {B : Backend} (t e : ℤ) → Quiet {B = B} (iscsi_target_maps_extent t e)
unfolding iscsi_target_maps_extent effect
iscsi_target_maps_extent-Quiet t e = search quiet_rules

module _ {B : Backend} {A : Type 0} {os : List Object} (k : Option Code → M B (Result Code A))
    (failed : (c : Code) → Settles (some os) (k (some c)))
    (fine : (os : List Object) → Settles (some os) (k none)) where
  associated-Settles :
      (params : Backend.IscsiTargetExtentCreateParams) (r : Result Err ℤ)
      → Settles
          (settle (effect (did (Backend.create_iscsi_target_extent params) r)) (some os))
          (k (association_code r))
  unfolding effect settle
  associated-Settles params (err e) = failed _
  associated-Settles params (ok id) = fine _

  map_unless-Settles : (t e : ℤ) (r : Result Code Bool) → Settles (some os) (map_unless t e r >>= k)
  unfolding map_unless ◌>>=◌ pure
  map_unless-Settles t e (err c) = failed c
  map_unless-Settles t e (ok true) = fine os
  map_unless-Settles t e (ok false) =
      Settles-reply (Backend.create_iscsi_target_extent _) association_code k (associated-Settles _)

  pub ensure_iscsi_target_extent-Settles :
      (t e : ℤ) → Settles (some os) (ensure_iscsi_target_extent t e >>= k)
  unfolding ensure_iscsi_target_extent ◌>>=◌
  ensure_iscsi_target_extent-Settles t e =
      Settles-quiet (iscsi_target_maps_extent t e) (λ r. map_unless t e r >>= k)
        (iscsi_target_maps_extent-Quiet t e) (map_unless-Settles t e)
