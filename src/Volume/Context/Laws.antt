-- ===== src/Volume/Context/Laws.antt =====
-- What the node's readers of the protocol, of the iSCSI and of the NVMe-oF parameters get from a volume context
-- that the controller built.
use tns_csi.Common.{
  Str, str_eq, is_empty, Map, lookup, get, insert, lookup-insert, Bool, true, false, some, [], ◌∷◌,
  ◌≡◌, refl, ◌∙◌, if◌then◌else◌,
}
use tns_csi.Properties.{protocol_nfs, protocol_nvmeof, protocol_iscsi, protocol_smb}
use tns_csi.Volume.{VolumeMetadata}
use tns_csi.Volume.Context.{
  key_protocol, key_server, key_dataset_id, key_dataset_name, key_nfs_share_id, key_nqn,
  key_nvmeof_subsystem_id, key_nvmeof_namespace_id, key_iscsi_iqn, key_iscsi_target_id,
  key_iscsi_extent_id, key_smb_share_id, common_context, protocol_context, build_volume_context,
  get_protocol_from_volume_context,
}

lookup-put :
    (b : Bool) (j v k : Str) (m : Map Str)
    → str_eq j k ≡ false
    → lookup k (if b then insert j v m else m) ≡ lookup k m
lookup-put true j v k m h = lookup-insert k j v m ∙ rw h refl
lookup-put false j v k m h = refl

through_if {ℓ κ} :
    {A : Type ℓ} {C : Type κ} (f : A → C) (b : Bool) (x y : A) (r : C)
    → f x ≡ r
    → f y ≡ r
    → f (if b then x else y) ≡ r
through_if f true x y r hx hy = hx
through_if f false x y r hx hy = hy

-- The protocol's own fields do not hide the protocol.
protocol_kept :
    (meta : VolumeMetadata) (m : Map Str)
    → lookup key_protocol (protocol_context meta m) ≡ lookup key_protocol m
unfolding protocol_context str_eq
protocol_kept meta m =
    through_if (lookup key_protocol) (str_eq meta.protocol protocol_nfs) _ _ _
      (lookup-put _ key_nfs_share_id _ _ _ refl)
      (through_if (lookup key_protocol) (str_eq meta.protocol protocol_nvmeof) _ _ _
        (lookup-put _ key_nvmeof_namespace_id _ _ _ refl
          ∙ lookup-put _ key_nvmeof_subsystem_id _ _ _ refl
          ∙ lookup-put _ key_nqn _ _ _ refl)
        (through_if (lookup key_protocol) (str_eq meta.protocol protocol_iscsi) _ _ _
          (lookup-put _ key_iscsi_extent_id _ _ _ refl
            ∙ lookup-put _ key_iscsi_target_id _ _ _ refl
            ∙ lookup-put _ key_iscsi_iqn _ _ _ refl)
          (through_if (lookup key_protocol) (str_eq meta.protocol protocol_smb) _ _ _
            (lookup-put _ key_smb_share_id _ _ _ refl) refl)))

lookup-common_context :
    (meta : VolumeMetadata) (k : Str)
    → str_eq key_dataset_name k ≡ false
    → str_eq key_dataset_id k ≡ false
    → str_eq key_server k ≡ false
    → lookup k (common_context meta) ≡ lookup k ((key_protocol, meta.protocol) ∷ [])
unfolding common_context
lookup-common_context meta k h₁ h₂ h₃ =
    lookup-put _ key_dataset_name _ k _ h₁
    ∙ lookup-put _ key_dataset_id _ k _ h₂
    ∙ lookup-put _ key_server _ k _ h₃

get_of_lookup : (k : Str) (m : Map Str) (v : Str) → lookup k m ≡ some v → get k m ≡ v
unfolding get
get_of_lookup k m v h = rw (h, get) refl

-- The node service finds the protocol of a volume context that the controller built from metadata
-- with a protocol.
pub get_protocol-build_volume_context :
    (meta : VolumeMetadata)
    → is_empty meta.protocol ≡ false
    → get_protocol_from_volume_context (build_volume_context meta) ≡ meta.protocol
unfolding get_protocol_from_volume_context build_volume_context lookup str_eq
get_protocol-build_volume_context meta named =
    let e : get key_protocol (build_volume_context meta) ≡ meta.protocol =
      get_of_lookup key_protocol _ _
        (protocol_kept meta _ ∙ lookup-common_context meta key_protocol refl refl refl) in
    rw (e, named) refl

abbrev NotCommon : Str → Type 0
NotCommon k =
    (str_eq key_dataset_name k ≡ false)
    × (str_eq key_dataset_id k ≡ false)
    × (str_eq key_server k ≡ false)
    × (str_eq key_protocol k ≡ false)
