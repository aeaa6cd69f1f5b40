-- ===== src/Create/Settings.antt =====
-- The ZFS properties and the encryption that a StorageClass asks for:
-- pkg/driver/controller_nfs.go (datasets), controller_nvmeof.go and controller_iscsi.go (ZVOLs).
use tns_csi.Common.{
  Str, str, str_eq, is_empty, has_prefix, trim_prefix, to_upper, equal_fold, atoi, get, Map, ℤ,
  Option, none, some, Bool, true, false, ◌||◌, not, ◌&&◌, [], ◌∷◌, if◌then◌else◌,
}
use tns_csi.Backend.{DatasetOptions, ZvolOptions, EncryptionOptions}

abbrev pub no_dataset_options : DatasetOptions
no_dataset_options = record {
  compression = [];
  dedup = [];
  atime = [];
  sync = [];
  recordsize = [];
  copies = none;
  snapdir = [];
  readonly = [];
  exec = [];
  aclmode = [];
  acltype = [];
  casesensitivity = [];
}

abbrev pub no_zvol_options : ZvolOptions
no_zvol_options = record {
  compression = [];
  dedup = [];
  sync = [];
  copies = none;
  readonly = [];
  sparse = none;
  volblocksize = [];
}

-- A number that cannot be read changes nothing.
abbrev read_copies : Option ℤ → Option ℤ → Option ℤ
read_copies none old = old
read_copies (some n) old = some n

unfoldable pub set_dataset_option : Str → Str → DatasetOptions → DatasetOptions
set_dataset_option name value o =
    if str_eq name (str "compression")
    then record o { compression = to_upper value }
    else if str_eq name (str "dedup")
    then record o { dedup = to_upper value }
    else if str_eq name (str "atime")
    then record o { atime = to_upper value }
    else if str_eq name (str "sync")
    then record o { sync = to_upper value }
    else if str_eq name (str "recordsize")
    then record o { recordsize = to_upper value }
    else if str_eq name (str "copies")
    then record o { copies = read_copies (atoi value) o.copies }
    else if str_eq name (str "snapdir")
    then record o { snapdir = to_upper value }
    else if str_eq name (str "readonly")
    then record o { readonly = to_upper value }
    else if str_eq name (str "exec")
    then record o { exec = to_upper value }
    else if str_eq name (str "aclmode")
    then record o { aclmode = to_upper value }
    else if str_eq name (str "acltype")
    then record o { acltype = to_upper value }
    else if str_eq name (str "casesensitivity")
    then record o { casesensitivity = to_upper value }
    else o

unfoldable pub set_zvol_option : Str → Str → ZvolOptions → ZvolOptions
set_zvol_option name value o =
    if str_eq name (str "compression")
    then record o { compression = to_upper value }
    else if str_eq name (str "dedup")
    then record o { dedup = to_upper value }
    else if str_eq name (str "sync")
    then record o { sync = to_upper value }
    else if str_eq name (str "copies")
    then record o { copies = read_copies (atoi value) o.copies }
    else if str_eq name (str "readonly")
    then record o { readonly = to_upper value }
    else if str_eq name (str "sparse")
    then record o { sparse = some (equal_fold value (str "true") || str_eq value (str "1")) }
    else if str_eq name (str "volblocksize")
    then record o { volblocksize = to_upper value }
    else o

abbrev pub zfs_prefix : Str
zfs_prefix = str "zfs."

abbrev or_else {ℓ} : {A : Type ℓ} → A → Option A → A
or_else a none = a
or_else a (some b) = b

-- The loop over the parameters, with `none` while no parameter had the prefix.
module _ {O : Type 0} (empty : O) (set_option : Str → Str → O → O) where
  unfoldable pub read_zfs_options : Map Str → Option O → Option O
  read_zfs_options [] o = o
  read_zfs_options ((key, value) ∷ params) o = read_zfs_options params (
      if has_prefix key zfs_prefix
      then some (set_option (trim_prefix key zfs_prefix) value (or_else empty o))
      else o)

unfoldable pub parse_zfs_dataset_properties : Map Str → Option DatasetOptions
unfolding read_zfs_options set_dataset_option
parse_zfs_dataset_properties params =
    read_zfs_options no_dataset_options set_dataset_option params none

unfoldable pub parse_zfs_zvol_properties : Map Str → Option ZvolOptions
unfolding read_zfs_options set_zvol_option
parse_zfs_zvol_properties params = read_zfs_options no_zvol_options set_zvol_option params none

-- What is set where there are ZFS properties.
abbrev pub dataset_options : Option DatasetOptions → DatasetOptions
dataset_options o = or_else no_dataset_options o

-- For NVMe-oF the block size is 16K unless the StorageClass sets it.
abbrev pub nvmeof_zvol_options : Option ZvolOptions → ZvolOptions
nvmeof_zvol_options none = record no_zvol_options { volblocksize = str "16K" }
nvmeof_zvol_options (some o) = record o {
  volblocksize = if is_empty o.volblocksize then str "16K" else o.volblocksize;
}

-- For iSCSI the number of copies is not passed on.
abbrev pub iscsi_zvol_options : Option ZvolOptions → ZvolOptions
iscsi_zvol_options none = no_zvol_options
iscsi_zvol_options (some o) = record o { copies = none }

pub record EncryptionConfig : Type 0 where
  pub algorithm : Str
  pub passphrase : Str
  pub key : Str
  pub enabled : Bool
  pub generate_key : Bool

abbrev default_algorithm : Str → Str
default_algorithm a = if is_empty a then str "AES-256-GCM" else a

unfoldable pub parse_encryption_config : Map Str → Map Str → Option EncryptionConfig
parse_encryption_config params secrets =
    if equal_fold (get (str "encryption") params) (str "true")
    then some (record {
      algorithm = default_algorithm (get (str "encryptionAlgorithm") params);
      passphrase = get (str "encryptionPassphrase") secrets;
      key = get (str "encryptionKey") secrets;
      enabled = true;
      generate_key = equal_fold (get (str "encryptionGenerateKey") params) (str "true");
    })
    else none

abbrev pub only_algorithm : Str → EncryptionOptions
only_algorithm a = record { generate_key = false; algorithm = a; passphrase = []; key = [] }

-- The key source of a new dataset, and of a new ZVOL for NVMe-oF.
unfoldable pub key_source : EncryptionConfig → EncryptionOptions
key_source c =
    if not (is_empty c.passphrase)
    then record (only_algorithm c.algorithm) { passphrase = c.passphrase }
    else if not (is_empty c.key)
    then record (only_algorithm c.algorithm) { key = c.key }
    else record (only_algorithm c.algorithm) { generate_key = c.generate_key }

-- The key source of a new ZVOL for iSCSI.
unfoldable pub iscsi_key_source : EncryptionConfig → EncryptionOptions
iscsi_key_source c =
    if not (is_empty c.passphrase)
    then record (only_algorithm c.algorithm) { passphrase = c.passphrase }
    else record (only_algorithm c.algorithm) { generate_key = c.generate_key }

abbrev pub is_encrypted : Option EncryptionConfig → Bool
is_encrypted none = false
is_encrypted (some c) = c.enabled

-- "Must disable inherit_encryption when enabling encryption"
abbrev pub inherited : Bool → Option Bool
inherited true = some false
inherited false = none

abbrev pub encryption_options : Option EncryptionConfig → Option EncryptionOptions
encryption_options none = none
encryption_options (some c) = if c.enabled then some (key_source c) else none

abbrev pub iscsi_encryption_options : Option EncryptionConfig → Option EncryptionOptions
iscsi_encryption_options none = none
iscsi_encryption_options (some c) =
    if c.enabled && not (is_empty c.algorithm) then some (iscsi_key_source c) else none
