-- ===== src/Volume/Adoption/Laws.antt =====
-- The volumes of this driver are adoptable, and what is adoptable DeleteVolume takes for its own.
use tns_csi.Common.{
  Str, str_eq, is_empty, Map, lookup, true, false, Option, none, some, ℤ, All, ◌≡◌, refl, ap,
  if◌then◌else◌,
}
use tns_csi.Properties.{
  property_managed_by, property_schema_version, property_protocol, property_nfs_share_path,
  property_nvme_subsystem_nqn, property_iscsi_iqn, property_smb_share_name,
}
use tns_csi.Properties.Builders.{
  VolumeParams, with_adoption, adoption_keys, nfs_volume_properties_v1, nvmeof_volume_properties_v1,
  iscsi_volume_properties_v1, smb_volume_properties_v1,
}
use tns_csi.Properties.Builders.Laws.{Other, lookup-with_adoption}
use tns_csi.Volume.Adoption.{has, has_protocol_property, adoptable_protocol, is_volume_adoptable}

module _ (p : VolumeParams) (m : Map Str) where
  same : (k : Str) → All (Other k) adoption_keys → lookup k (with_adoption p m) ≡ lookup k m
  same = lookup-with_adoption p m

  has_same : (k : Str) → All (Other k) adoption_keys → has k (with_adoption p m) ≡ has k m
  has_same k h = ap (λ o. elim o [ none ↦ false | some v ↦ true ]) (same k h)

  has_protocol_property-with_adoption :
      (protocol : Str)
      → has_protocol_property protocol (with_adoption p m) ≡ has_protocol_property protocol m
  unfolding has_protocol_property str_eq
  has_protocol_property-with_adoption protocol =
      rw
        (
          has_same property_nfs_share_path (refl, (refl, (refl, (refl, (refl, tt))))),
          has_same property_nvme_subsystem_nqn (refl, (refl, (refl, (refl, (refl, tt))))),
          has_same property_iscsi_iqn (refl, (refl, (refl, (refl, (refl, tt))))),
          has_same property_smb_share_name (refl, (refl, (refl, (refl, (refl, tt))))),
        )
        refl

  adoptable_protocol-with_adoption :
      (o : Option Str) → adoptable_protocol (with_adoption p m) o ≡ adoptable_protocol m o
  unfolding adoptable_protocol
  adoptable_protocol-with_adoption none = refl
  adoptable_protocol-with_adoption (some protocol) =
      ap (λ b. if is_empty protocol then false else b)
        (has_protocol_property-with_adoption protocol)

  is_volume_adoptable-with_adoption :
      is_volume_adoptable (with_adoption p m) ≡ is_volume_adoptable m
  unfolding is_volume_adoptable str_eq
  is_volume_adoptable-with_adoption =
      rw
        (
          same property_managed_by (refl, (refl, (refl, (refl, (refl, tt))))),
          same property_schema_version (refl, (refl, (refl, (refl, (refl, tt))))),
          same property_protocol (refl, (refl, (refl, (refl, (refl, tt))))),
          adoptable_protocol-with_adoption (lookup property_protocol m),
        )
        refl

-- Whatever their parameters, the properties of a new volume of each protocol are adoptable.
pub is_volume_adoptable-properties_v1 :
    (p : VolumeParams) (i j : ℤ) (s : Str)
    → (is_volume_adoptable (nfs_volume_properties_v1 p i s) ≡ true)
      × (is_volume_adoptable (nvmeof_volume_properties_v1 p i j s) ≡ true)
      × (is_volume_adoptable (iscsi_volume_properties_v1 p i j s) ≡ true)
      × (is_volume_adoptable (smb_volume_properties_v1 p i s) ≡ true)
unfolding nfs_volume_properties_v1 nvmeof_volume_properties_v1 iscsi_volume_properties_v1
    smb_volume_properties_v1 is_volume_adoptable lookup str_eq
is_volume_adoptable-properties_v1 p i j s = (
  is_volume_adoptable-with_adoption p _,
  is_volume_adoptable-with_adoption p _,
  is_volume_adoptable-with_adoption p _,
  is_volume_adoptable-with_adoption p _,
)
