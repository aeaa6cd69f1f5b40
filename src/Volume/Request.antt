-- ===== src/Volume/Request.antt =====
-- pkg/driver/controller.go: the checks on the request of CreateVolume. Of a volume capability the
-- access mode is kept, as far as the driver tells modes apart, and the file system of a mount.
pub mod Laws
use tns_csi.Common.{
  ℕ, Str, str, str_eq, is_empty, to_lower, ℤ, pos, negsuc, is_positive, ltb, length, ◌==◌, ◌++◌,
  has_prefix, Bool, true, false, not, ◌&&◌, ◌||◌, Option, none, some, List, [], ◌∷◌, Result, ok,
  err, if◌then◌else◌,
}
use tns_csi.Codes.{Code, invalid_argument, already_exists}
use tns_csi.Properties.{protocol_nvmeof, protocol_iscsi}
use tns_csi.Delete.Datasets.{trim_space}

pub data AccessMode : Type 0 where
  multi_node_reader_only multi_node_single_writer multi_node_multi_writer other_mode : AccessMode

-- VolumeCapability; GetMount() with its FsType, `none` for a block volume.
pub record Capability : Type 0 where
  pub access_mode : AccessMode
  pub mount : Option Str

abbrev pub filesystem_check_mode_none : Str
filesystem_check_mode_none = str "none"

abbrev pub filesystem_check_mode_preen : Str
filesystem_check_mode_preen = str "preen"

abbrev fs_type_ext3 : Str
fs_type_ext3 = str "ext3"

abbrev fs_type_ext4 : Str
fs_type_ext4 = str "ext4"

abbrev pub is_multi_node_mode : AccessMode → Bool
is_multi_node_mode multi_node_reader_only = true
is_multi_node_mode multi_node_single_writer = true
is_multi_node_mode multi_node_multi_writer = true
is_multi_node_mode other_mode = false

abbrev pub is_block_protocol : Str → Bool
is_block_protocol protocol = str_eq protocol protocol_nvmeof || str_eq protocol protocol_iscsi

abbrev pub is_mounted : Option Str → Bool
is_mounted none = false
is_mounted (some fs) = true

unfoldable pub validate_access_mode_for_protocol : List Capability → Str → Option Code
validate_access_mode_for_protocol [] protocol = none
validate_access_mode_for_protocol (c ∷ caps) protocol =
    let rest = validate_access_mode_for_protocol caps protocol in
    if not (is_multi_node_mode c.access_mode)
    then rest
    else if is_block_protocol protocol && is_mounted c.mount
    then some invalid_argument
    else rest

-- The file system that a mount asks for: ext4 unless it names one.
abbrev or_ext4 : Str → Str
or_ext4 fs = if is_empty fs then fs_type_ext4 else fs

abbrev pub is_checkable : Option Str → Bool
is_checkable none = false
is_checkable (some fs) =
    let fs_type = or_ext4 (to_lower (trim_space fs)) in
    str_eq fs_type fs_type_ext3 || str_eq fs_type fs_type_ext4

-- The loop over the capabilities.
unfoldable pub check_capabilities : List Capability → Option Code
check_capabilities [] = none
check_capabilities (c ∷ caps) =
    let rest = check_capabilities caps in
    if is_checkable c.mount then rest else some invalid_argument

abbrev preened : Option Code → Result Code Str
preened none = ok filesystem_check_mode_preen
preened (some c) = err c

unfoldable pub validate_filesystem_check_mode : Str → Str → List Capability → Result Code Str
validate_filesystem_check_mode raw_mode protocol caps =
    let mode = to_lower (trim_space raw_mode) in
    if is_empty mode || str_eq mode filesystem_check_mode_none
    then ok filesystem_check_mode_none
    else if not (str_eq mode filesystem_check_mode_preen)
    then err invalid_argument
    else if not (is_block_protocol protocol)
    then err invalid_argument
    else preened (check_capabilities caps)

abbrev min_volume_size : ℕ
min_volume_size = 1073741824

abbrev pub too_small : Option ℤ → Bool
too_small none = false
too_small (some (pos required_bytes)) = ltb 0 required_bytes && ltb required_bytes min_volume_size
too_small (some (negsuc n)) = false

-- The name, the capabilities, and the required bytes if there is a capacity range.
unfoldable pub validate_create_volume_request : Str → List Capability → Option ℤ → Option Code
validate_create_volume_request name caps required_bytes =
    if is_empty name
    then some invalid_argument
    else if length caps == 0
    then some invalid_argument
    else if too_small required_bytes
    then some invalid_argument
    else none

-- resolveParentDataset
unfoldable pub resolve_parent_dataset : Str → Str → Str
resolve_parent_dataset pool parent_dataset =
    if is_empty parent_dataset
    then pool
    else if is_empty pool
        || str_eq parent_dataset pool
        || has_prefix parent_dataset (pool ++ str "/")
    then parent_dataset
    else pool ++ str "/" ++ parent_dataset
