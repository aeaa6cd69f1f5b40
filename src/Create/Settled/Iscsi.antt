-- ===== src/Create/Settled/Iscsi.antt =====
-- What createISCSIVolume (pkg/driver/controller_iscsi.go) leaves behind.
mod Cleanup
mod Steps
mod Existing
use tns_csi.Common.{
  Str, is_empty, is_zero, ℤ, pos, Bool, true, false, Option, none, some, Map, List, [], ◌∷◌, Result,
  ok, err, ◌≡◌, refl, not, ◌&&◌, str_eq, get, ◌∙◌, if◌then◌else◌, Bool-cases, inl, inr,
}
use tns_csi.Codes.{Code}
use tns_csi.Errors.{Err}
use tns_csi.Backend
use tns_csi.Backend.{
  DatasetInfo, IscsiTarget, IscsiExtent, TargetExtent, NvmeofSubsystem, NvmeofNamespace, Event, did,
  Backend, Driver, M, pure, ◌>>=◌, ◌>>◌, call,
}
use tns_csi.Backend.Ledger.{
  Object, volume, numbered, extent, target, subsystem, effect, push, pop, settle, ledger, pop-push,
}
use tns_csi.Backend.Settles.{
  Quiet, Quiet-pure, Quiet-call, Quiet-bind, Quiet-if, quiet_rules, Settles, Settles-pure,
  Settles-quiet, Settles-call, Settles-reply, Settles-if,
}
use tns_csi.Create.Request.{
  CreateVolumeRequest, Setup, CreatedVolume, ensure_properties, record_properties,
}
use tns_csi.Create.Files.{MadeDataset, existing, new, made, cleanup_dataset}
use tns_csi.Create.Settled.Datasets.{
  made_objects, query_exact_dataset-Quiet, record_properties-Quiet, ensure_properties-Quiet,
  some_is_not_none, cleanup_dataset-Settles, Settles-success, Settles-existing,
}
use tns_csi.Create.Iscsi.Objects.{
  IscsiVolumeParams, Obtained, IscsiCreated, zvol_created, extent_created, target_created,
  validate_iscsi_params, iscsi_zvol_create_params,
}
use tns_csi.Create.Iscsi.Steps.{get_or_create_iscsi_extent, get_or_create_iscsi_target}
use tns_csi.Create.Iscsi.{
  get_or_create_zvol_for_iscsi, finish_iscsi, associated, fail_with, target_obtained,
  extent_obtained, zvol_obtained, make_iscsi_volume, iscsi_zvol_queried, iscsi_configured,
  iscsi_validated, create_iscsi_volume,
}
use tns_csi.Create.Iscsi.Existing.{
  Lookup, ensure_iscsi_properties, existing_iscsi_volume, stored_mapped, stored_found,
  stored_target_found, stored_ids_read, find_iscsi_volume_by_stored_properties, configured,
  mapped_by_name, extent_by_name, target_by_name, with_capacity, handle_existing_iscsi_volume,
}
use Existing.{handle_existing_iscsi_volume-Quiet}
use Cleanup.{kept_objects, cleanup_iscsi_create-Settles}
use Steps.{
  get_or_create_iscsi_extent-Settles, get_or_create_iscsi_target-Settles,
  iscsi_target_maps_extent-Quiet, ensure_iscsi_target_extent-Settles,
}

-- Created so far: the ZVOL and the extent, if they are new.
abbrev so_far : Str → ℤ → IscsiCreated
so_far zvol_id extent_id = record { zvol_id = zvol_id; extent_id = extent_id; target_id = pos 0 }

module _ {B : Backend} (env : Setup) (p : IscsiVolumeParams) (basename : Str)
    (zvol : DatasetInfo) where
  finish_iscsi-Settles :
      (t : IscsiTarget) (e : IscsiExtent) (os : List Object)
      → Settles {B = B} (some os) (finish_iscsi env p basename zvol t e)
  unfolding finish_iscsi effect settle
  finish_iscsi-Settles t e os =
      Settles-quiet (call Backend.reload_iscsi_service) _
        (Quiet-call Backend.reload_iscsi_service (λ r. refl))
        (λ _. Settles-success _ _ (record_properties-Quiet _ _))

  -- The target with the association, where the objects that were created before are `created`.
  with_target-Settles :
      (e : IscsiExtent) (c : IscsiCreated) (o : Obtained IscsiTarget)
      → Settles {B = B}
          (some (kept_objects (target_created o c)))
          (target_obtained env p basename zvol e c (ok o))
  unfolding target_obtained associated
  with_target-Settles e c o =
      ensure_iscsi_target_extent-Settles _ (cleanup_iscsi_create-Settles _)
        (finish_iscsi-Settles o.object e) _ _

module _ {B : Backend} (env : Setup) (p : IscsiVolumeParams) (basename : Str) (zvol : DatasetInfo)
    (zvol_id : Str) where
  target-Settles :
      (e : IscsiExtent) (id : ℤ)
      → Settles {B = B} (some (kept_objects (so_far zvol_id id))) (
          get_or_create_iscsi_target p
          >>= target_obtained env p basename zvol e (so_far zvol_id id))
  unfolding push target_obtained
  target-Settles e id = get_or_create_iscsi_target-Settles p _ (record {
    failed = cleanup_iscsi_create-Settles (so_far zvol_id id);
    found = λ t.
        with_target-Settles env p basename zvol e (so_far zvol_id id)
          (record { object = t; is_new = false });
    created = λ t.
        with_target-Settles env p basename zvol e (so_far zvol_id id)
          (record { object = t; is_new = true });
  })

  with_extent-Settles :
      (o : Obtained IscsiExtent)
      → Settles {B = B}
          (some (kept_objects (extent_created o (so_far zvol_id (pos 0)))))
          (extent_obtained env p basename zvol (so_far zvol_id (pos 0)) (ok o))
  unfolding extent_obtained
  with_extent-Settles o = elim (Bool-cases o.is_new) [
    | inl is_new ↦ rw is_new (target-Settles o.object o.object.id)
    | inr old ↦ rw old (target-Settles o.object (pos 0))
  ]

  pub extent-Settles : Settles {B = B} (some (kept_objects (so_far zvol_id (pos 0)))) (
      get_or_create_iscsi_extent p >>= extent_obtained env p basename zvol (so_far zvol_id (pos 0)))
  unfolding push extent_obtained
  extent-Settles = get_or_create_iscsi_extent-Settles p _ (record {
    failed = cleanup_iscsi_create-Settles (so_far zvol_id (pos 0));
    found = λ e. with_extent-Settles (record { object = e; is_new = false });
    created = λ e. with_extent-Settles (record { object = e; is_new = true });
  })

module _ {B : Backend} (env : Setup) (p : IscsiVolumeParams) (basename : Str) where
  zvol_obtained-Settles :
      (m : MadeDataset)
      → Settles {B = B} (some (made_objects m)) (zvol_obtained env p basename (ok m))
  unfolding zvol_obtained push
  zvol_obtained-Settles (existing d) = extent-Settles env p basename d []
  zvol_obtained-Settles (new d) = extent-Settles env p basename d d.id

  created_zvol-Settles :
      (params : Backend.ZvolCreateParams) (r : Result Err DatasetInfo)
      → Settles {B = B}
          (settle (effect (did (Backend.create_zvol params) r)) (some []))
          (zvol_obtained env p basename (made r))
  unfolding zvol_obtained effect settle
  created_zvol-Settles params (err e) = Settles-pure _ refl
  created_zvol-Settles params (ok d) = zvol_obtained-Settles (new d)

  make_iscsi_volume-Settles :
      (old : Option DatasetInfo) → Settles {B = B} (some []) (make_iscsi_volume env p basename old)
  unfolding make_iscsi_volume get_or_create_zvol_for_iscsi ◌>>=◌ pure
  make_iscsi_volume-Settles (some d) = zvol_obtained-Settles (existing d)
  make_iscsi_volume-Settles none =
      Settles-reply (Backend.create_zvol (iscsi_zvol_create_params env p)) made
        (zvol_obtained env p basename) (created_zvol-Settles _)

  iscsi_zvol_queried-Settles :
      (r : Result Err (Option DatasetInfo))
      → Settles {B = B} (some []) (iscsi_zvol_queried env p basename r)
  unfolding iscsi_zvol_queried
  iscsi_zvol_queried-Settles (err e) = Settles-pure _ refl
  iscsi_zvol_queried-Settles (ok none) = make_iscsi_volume-Settles none
  iscsi_zvol_queried-Settles (ok (some d)) =
      Settles-existing _ _ (handle_existing_iscsi_volume-Quiet env p d) (λ c. Settles-pure _ refl)
        (λ v. Settles-pure _ some_is_not_none) (make_iscsi_volume-Settles (some d))

module _ {B : Backend} (env : Setup) where
  iscsi_configured-Settles :
      (p : IscsiVolumeParams) (r : Result Err Str)
      → Settles {B = B} (some []) (iscsi_configured env p r)
  iscsi_configured-Settles p (err e) = Settles-pure _ refl
  iscsi_configured-Settles p (ok basename) =
      Settles-quiet _ _ (query_exact_dataset-Quiet _) (iscsi_zvol_queried-Settles env p basename)

  iscsi_validated-Settles :
      (r : Result Code IscsiVolumeParams) → Settles {B = B} (some []) (iscsi_validated env r)
  unfolding effect settle
  iscsi_validated-Settles (err c) = Settles-pure _ refl
  iscsi_validated-Settles (ok p) =
      Settles-call Backend.get_iscsi_global_config _ (iscsi_configured-Settles p)

  pub create_iscsi_volume-Settles :
      (req : CreateVolumeRequest) → Settles {B = B} (some []) (create_iscsi_volume env req)
  unfolding create_iscsi_volume
  create_iscsi_volume-Settles req = iscsi_validated-Settles (validate_iscsi_params env req)
