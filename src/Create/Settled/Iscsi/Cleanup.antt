-- ===== src/Create/Settled/Iscsi/Cleanup.antt =====
-- The cleanup of createISCSIVolume (pkg/driver/controller_iscsi.go).
use tns_csi.Common.{some, List, [], Result, err, ◌≡◌, refl, not, Bool-cases, inl, inr}
use tns_csi.Codes.{Code}
use tns_csi.Backend
use tns_csi.Backend.{
  DatasetInfo, IscsiTarget, IscsiExtent, TargetExtent, NvmeofSubsystem, NvmeofNamespace, Event, did,
  Backend, Driver, M, pure, ◌>>=◌, ◌>>◌, call,
}
use tns_csi.Backend.Ledger.{
  Object, volume, numbered, extent, target, effect, push, settle, pop-first, is_none, closes,
}
use tns_csi.Backend.Settles.{Settles, Settles-pure, Settles-call}
use tns_csi.Create.Iscsi.Objects.{IscsiCreated}
use tns_csi.Create.Iscsi.Steps.{cleanup_iscsi_create, when}

-- The objects that createISCSIVolume keeps in mind for its cleanup.
abbrev pub kept_objects : IscsiCreated → List Object
kept_objects c =
    push (numbered target c.target_id)
      (push (numbered extent c.extent_id) (push (volume c.zvol_id) []))

module _ {B : Backend} {A : Type 0} where
  drop_object :
      (o : Object) (os : List Object) (c : Backend.Call) (k : M B (Result Code A))
      → ((r : Backend.Reply c) → effect (did c r) ≡ closes o)
      → Settles (some os) k
      → Settles (some (push o os)) (when (not (is_none o)) (call c >>= λ e. pure tt) >> k)
  unfolding push settle ◌>>=◌ pure
  drop_object o os c k e h = elim (Bool-cases (is_none o)) [
    | inl nothing ↦ rw nothing h
    | inr there ↦ rw there (Settles-call c (λ r. k) (λ r. rw (e r) (rw (pop-first o os there) h)))
  ]

  pub cleanup_iscsi_create-Settles :
      (created : IscsiCreated) (c : Code)
      → Settles {B = B} {A = A}
          (some (kept_objects created))
          (cleanup_iscsi_create created >> pure (err c))
  unfolding cleanup_iscsi_create effect ◌>>=◌
  cleanup_iscsi_create-Settles created c =
      drop_object (numbered target created.target_id) _
        (Backend.delete_iscsi_target created.target_id) _ (λ r. refl)
        (drop_object (numbered extent created.extent_id) _
          (Backend.delete_iscsi_extent created.extent_id) _ (λ r. refl)
          (drop_object (volume created.zvol_id) _ (Backend.delete_dataset created.zvol_id) _
            (λ r. refl) (Settles-pure _ refl)))
