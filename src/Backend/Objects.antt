-- ===== src/Backend/Objects.antt =====
-- The objects of the server and the parameters of their creation (pkg/tnsapi/client.go), with the
-- fields that the driver reads or sets.
use tns_csi.Common.{ℕ, Str, ℤ, Bool, Map, Option, List}

-- DatasetWithProperties; a nil property map is `none`. Of a UserProperty, the value.
pub record Dataset : Type 0 where
  pub id : Str
  pub name : Str
  pub mountpoint : Str
  pub user_properties : Option (Map Str)

-- Snapshot; of each property, its "value" if that is a string.
pub record Snapshot : Type 0 where
  pub id : Str
  pub properties : Map (Option Str)

pub record IscsiTarget : Type 0 where
  pub id : ℤ
  pub name : Str

pub record IscsiExtent : Type 0 where
  pub id : ℤ
  pub disk : Str

-- NVMeOFNamespace; the subsystem's ID if the nested object is there.
pub record NvmeofNamespace : Type 0 where
  pub id : ℤ
  pub subsys : Option ℤ
  pub device : Str
  pub device_path : Str

pub record NvmeofSubsystem : Type 0 where
  pub id : ℤ
  pub name : Str
  pub nqn : Str

-- Dataset; of volsize, the value under "parsed" if it is a number.
pub record DatasetInfo : Type 0 where
  pub id : Str
  pub name : Str
  pub mountpoint : Str
  pub volsize : Option ℤ

pub record DatasetUpdateParams : Type 0 where
  pub quota : Option ℤ
  pub ref_quota : Option ℤ
  pub volsize : Option ℤ

pub record NfsShare : Type 0 where
  pub id : ℤ
  pub path : Str
  pub comment : Str
  pub hosts : List Str
  pub networks : List Str

pub record SmbShare : Type 0 where
  pub id : ℤ
  pub name : Str
  pub path : Str

-- ISCSITargetExtent
pub record TargetExtent : Type 0 where
  pub id : ℤ
  pub extent : ℤ
  pub lun_id : ℤ

pub record EncryptionOptions : Type 0 where
  pub generate_key : Bool
  pub algorithm : Str
  pub passphrase : Str
  pub key : Str

-- The properties of zfsDatasetProperties, which DatasetCreateParams has as fields of its own. A
-- property that is not set is "".
pub record DatasetOptions : Type 0 where
  pub compression : Str
  pub dedup : Str
  pub atime : Str
  pub sync : Str
  pub recordsize : Str
  pub copies : Option ℤ
  pub snapdir : Str
  pub readonly : Str
  pub exec : Str
  pub aclmode : Str
  pub acltype : Str
  pub casesensitivity : Str

pub record DatasetCreateParams : Type 0 where
  pub name : Str
  pub kind : Str
  pub share_type : Str
  pub ref_quota : ℤ
  pub comments : Str
  pub options : DatasetOptions
  pub encryption : Bool
  pub inherit_encryption : Option Bool
  pub encryption_options : Option EncryptionOptions
  pub user_properties : Map Str

pub record ZvolOptions : Type 0 where
  pub compression : Str
  pub dedup : Str
  pub sync : Str
  pub copies : Option ℤ
  pub readonly : Str
  pub sparse : Option Bool
  pub volblocksize : Str

pub record ZvolCreateParams : Type 0 where
  pub name : Str
  pub kind : Str
  pub volsize : ℤ
  pub comments : Str
  pub options : ZvolOptions
  pub encryption : Bool
  pub inherit_encryption : Option Bool
  pub encryption_options : Option EncryptionOptions
  pub user_properties : Map Str

pub record NfsShareCreateParams : Type 0 where
  pub path : Str
  pub comment : Str
  pub maproot_user : Str
  pub maproot_group : Str
  pub hosts : List Str
  pub networks : List Str
  pub enabled : Bool

pub record SmbShareCreateParams : Type 0 where
  pub name : Str
  pub path : Str
  pub comment : Str
  pub enabled : Bool

-- A block size of 0 leaves it to the server.
pub record IscsiExtentCreateParams : Type 0 where
  pub name : Str
  pub kind : Str
  pub disk : Str
  pub blocksize : ℕ

-- ISCSITargetCreateParams with its one group.
pub record IscsiTargetCreateParams : Type 0 where
  pub name : Str
  pub portal : ℤ
  pub initiator : ℤ

pub record IscsiTargetExtentCreateParams : Type 0 where
  pub target : ℤ
  pub extent : ℤ
  pub lun_id : ℤ

pub record NvmeofSubsystemCreateParams : Type 0 where
  pub name : Str
  pub subnqn : Str
  pub allow_any_host : Bool

pub record NvmeofNamespaceCreateParams : Type 0 where
  pub subsys_id : ℤ
  pub device_path : Str
  pub device_type : Str
  pub nsid : ℤ
