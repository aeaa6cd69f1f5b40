-- ===== src/Expand/Laws.antt =====
-- What a success of ControllerExpandVolume (pkg/driver/controller.go) means.
use tns_csi.Common.{
  Str, str_eq, str_eq_iff, is_empty, ℤ, Bool, true, false, Option, none, some, List, [], Result, ok,
  err, ◌≡◌, refl, sym, ap, inl, inr, Bool-cases, if◌then◌else◌,
}
use tns_csi.Codes.{Code}
use tns_csi.Errors.{Err}
use tns_csi.Properties.{protocol_nfs, protocol_nvmeof, protocol_iscsi, protocol_smb}
use tns_csi.Backend
use tns_csi.Backend.{DatasetUpdateParams, Event, did, Backend, Driver, M, pure, ◌>>=◌, call}
use tns_csi.Backend.Guarded.{Happened}
use tns_csi.Volume.{VolumeMetadata, lookup_volume_by_csi_name}
use tns_csi.Volume.Request.{is_block_protocol, too_small}
use tns_csi.Create.Adopt.{no_update}
use tns_csi.Expand.{
  Expanded, expansion_code, update_size, expand_file_volume, expand_block_volume,
  expand_by_protocol, expand_found, controller_expand_volume,
}

-- A ZVOL gets a size, a file system a reference quota.
abbrev pub size_update : Str → ℤ → DatasetUpdateParams
size_update protocol bytes =
    if is_block_protocol protocol
    then record no_update { volsize = some bytes }
    else record no_update { ref_quota = some bytes }

-- The server has granted the size to the dataset of the volume.
abbrev pub Grown : VolumeMetadata → ℤ → Expanded → List Event → Type 0
Grown meta bytes x log =
    (x.capacity_bytes ≡ bytes)
    × (x.node_expansion_required ≡ is_block_protocol meta.protocol)
    × Happened (did (Backend.update_dataset meta.dataset_id (size_update meta.protocol bytes)) none)
        log

expansion_code-ok :
    (y x : Expanded) (e : Option Err) → expansion_code y e ≡ ok x → (e ≡ none) × (y ≡ x)
expansion_code-ok y x none h = (refl, cc)
expansion_code-ok y x (some e) h = cc

module _ {B : Backend} (meta : VolumeMetadata) where
  update_size-ok :
      (u : DatasetUpdateParams) (y x : Expanded) (s : Driver B)
      → (update_size meta u y s).0 ≡ ok x
      → (y ≡ x)
        × Happened
            (did (Backend.update_dataset meta.dataset_id u) none)
            (update_size meta u y s).1.log
  unfolding update_size ◌>>=◌ pure call
  update_size-ok u y x s h = elim (Bool-cases (is_empty meta.dataset_id)) [
    | inl bad ↦ cc
    | inr named ↦ rw named (
        let (e, q) = expansion_code-ok y x _ (rw named at h) in
        (q, inl (ap (λ r. did (Backend.update_dataset meta.dataset_id u) r) e)))
  ]

-- A success of the handler means that the volume has grown.
record Grows {B : Backend} (meta : VolumeMetadata) (bytes : ℤ) (m : M B (Result Code Expanded))
    : Type 0 where
  pub at : (x : Expanded) (s : Driver B) → (m s).0 ≡ ok x → Grown meta bytes x (m s).1.log

kind_of :
    (p protocol : Str) (b : Bool)
    → is_block_protocol protocol ≡ b
    → str_eq p protocol ≡ true
    → is_block_protocol p ≡ b
kind_of p protocol b k h = rw ((str_eq_iff p protocol).0 h) k

module _ {B : Backend} (meta : VolumeMetadata) (bytes : ℤ) where
  Grows-if :
      (b : Bool) (m n : M B (Result Code Expanded))
      → (b ≡ true → Grows meta bytes m)
      → (b ≡ false → Grows meta bytes n)
      → Grows meta bytes (if b then m else n)
  Grows-if true m n gm gn = gm refl
  Grows-if false m n gm gn = gn refl

  Grows-err : (c : Code) → Grows {B = B} meta bytes (pure (err c))
  unfolding pure
  Grows-err c = record { at = λ x s h. cc }

  file-Grows :
      is_block_protocol meta.protocol ≡ false
      → Grows {B = B} meta bytes (expand_file_volume meta bytes)
  unfolding expand_file_volume
  file-Grows kind = record {
    at = λ x s h.
        let (e, happened) = update_size-ok meta _ _ x s h in
        rw kind (
          sym (ap (λ y. y.capacity_bytes) e),
          sym (ap (λ y. y.node_expansion_required) e),
          happened,
        );
  }

  block-Grows :
      is_block_protocol meta.protocol ≡ true
      → Grows {B = B} meta bytes (expand_block_volume meta bytes)
  unfolding expand_block_volume
  block-Grows kind = record {
    at = λ x s h.
        let (e, happened) = update_size-ok meta _ _ x s h in
        rw kind (
          sym (ap (λ y. y.capacity_bytes) e),
          sym (ap (λ y. y.node_expansion_required) e),
          happened,
        );
  }

  expand_by_protocol-Grows : Grows {B = B} meta bytes (expand_by_protocol meta bytes)
  unfolding expand_by_protocol str_eq
  expand_by_protocol-Grows =
      Grows-if _ _ _ (λ nfs. file-Grows (kind_of meta.protocol protocol_nfs false refl nfs))
        (λ _.
          Grows-if _ _ _ (λ nv. block-Grows (kind_of meta.protocol protocol_nvmeof true refl nv))
            (λ _.
              Grows-if _ _ _ (λ i. block-Grows (kind_of meta.protocol protocol_iscsi true refl i))
                (λ _.
                  Grows-if _ _ _ (λ m. file-Grows (kind_of meta.protocol protocol_smb false refl m))
                    (λ _. Grows-err _))))

  -- What follows the lookup.
  after_lookup :
      (x : Expanded) (r : Result Err (Option VolumeMetadata)) (s : Driver B)
      → r ≡ ok (some meta)
      → (expand_found bytes r s).0 ≡ ok x
      → Grown meta bytes x (expand_found bytes r s).1.log
  after_lookup x r s found h = rw found (expand_by_protocol-Grows.at x s (rw found at h))

  -- If ControllerExpandVolume succeeds for a volume that the lookup finds, then it returns the
  -- required bytes, the server has granted them to the dataset of the volume, as the size of a ZVOL
  -- or as the reference quota of a file system, and the node is asked to expand exactly for the
  -- protocols of block devices.
  pub controller_expand_volume-Grown :
      (volume_id : Str) (x : Expanded) (s : Driver B)
      → (lookup_volume_by_csi_name [] volume_id s).0 ≡ ok (some meta)
      → (controller_expand_volume volume_id (some bytes) s).0 ≡ ok x
      → Grown meta bytes x (controller_expand_volume volume_id (some bytes) s).1.log
  unfolding controller_expand_volume ◌>>=◌ pure
  controller_expand_volume-Grown volume_id x s found h = elim (Bool-cases (is_empty volume_id)) [
    | inl bad ↦ cc
    | inr named ↦ elim (Bool-cases (too_small (some bytes))) [
      | inl small ↦ cc (rw (named, small) at h)
      | inr large ↦
          rw (named, large)
            (after_lookup x (lookup_volume_by_csi_name [] volume_id s).0
              (lookup_volume_by_csi_name [] volume_id s).1 found (rw (named, large) at h))
    ]
  ]
