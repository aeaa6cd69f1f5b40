-- ===== src/Volume/Request/Laws.antt =====
-- What the checks on the request of CreateVolume let through.
use tns_csi.Common.{
  Str, str, str_eq, is_empty, to_lower, true, false, ◌||◌, none, List, [], ◌∷◌, All, ok, ◌≡◌, refl,
  ◌++◌, has_prefix, str_eq_iff, str_eq_refl, ◌↔◌, ◌⊎◌, arith, ◌≢◌, append_assoc, length, drop,
  has_prefix-drop, Bool-cases, inl, inr, ◌∙◌, Option, some, not, ◌&&◌, if◌then◌else◌,
}
use tns_csi.Codes.{Code, invalid_argument}
use tns_csi.Properties.{protocol_nvmeof, protocol_iscsi}
use tns_csi.Delete.Datasets.{trim_space}
use tns_csi.Volume.Request.{
  AccessMode, is_mounted, Capability, filesystem_check_mode_none, filesystem_check_mode_preen,
  is_multi_node_mode, is_block_protocol, validate_access_mode_for_protocol, is_checkable,
  check_capabilities, resolve_parent_dataset, validate_filesystem_check_mode,
}

-- A capability that a protocol can serve, by the access mode: a mode of several nodes needs a
-- protocol of files, or a volume without a file system of its own.
abbrev pub Sharing : Str → Option Str → Type 0
Sharing protocol mount = ((protocol ≢ str "nvmeof") × (protocol ≢ str "iscsi")) ⊎ (mount ≡ none)

abbrev pub ModeShareable : AccessMode → Type 0 → Type 0
ModeShareable AccessMode.multi_node_reader_only S = S
ModeShareable AccessMode.multi_node_single_writer S = S
ModeShareable AccessMode.multi_node_multi_writer S = S
ModeShareable AccessMode.other_mode S = Unit

abbrev pub Shareable : Str → Capability → Type 0
Shareable protocol c = ModeShareable c.access_mode (Sharing protocol c.mount)

-- What one capability with a mode of several nodes decides, and what one capability does.
shared-Sharing :
    (mount : Option Str) (protocol : Str) (rest : Option Code)
    → ((if is_block_protocol protocol && is_mounted mount then some invalid_argument else rest)
        ≡ none)
      ↔ (Sharing protocol mount × (rest ≡ none))
shared-Sharing none protocol rest = ground arith
shared-Sharing (some fs) protocol rest =
    ground (arith, str_eq_iff protocol protocol_nvmeof, str_eq_iff protocol protocol_iscsi)

capability-ModeShareable :
    (mode : AccessMode) (mount : Option Str) (protocol : Str) (rest : Option Code)
    → ((if not (is_multi_node_mode mode)
          then rest
          else if is_block_protocol protocol && is_mounted mount
          then some invalid_argument
          else rest)
        ≡ none)
      ↔ (ModeShareable mode (Sharing protocol mount) × (rest ≡ none))
capability-ModeShareable AccessMode.other_mode mount protocol rest = ground arith
capability-ModeShareable AccessMode.multi_node_reader_only mount protocol rest =
    shared-Sharing mount protocol rest
capability-ModeShareable AccessMode.multi_node_single_writer mount protocol rest =
    shared-Sharing mount protocol rest
capability-ModeShareable AccessMode.multi_node_multi_writer mount protocol rest =
    shared-Sharing mount protocol rest

-- The capabilities are accepted by validateAccessModeForProtocol exactly if each of them that has
-- one of the modes MULTI_NODE_READER_ONLY, MULTI_NODE_SINGLE_WRITER and MULTI_NODE_MULTI_WRITER is
-- for a protocol other than "nvmeof" and "iscsi", or for a block volume.
pub validate_access_mode_for_protocol-Shareable :
    (caps : List Capability) (protocol : Str)
    → (validate_access_mode_for_protocol caps protocol ≡ none) ↔ All (Shareable protocol) caps
unfolding validate_access_mode_for_protocol
validate_access_mode_for_protocol-Shareable [] protocol = (λ _. tt, λ _. refl)
validate_access_mode_for_protocol-Shareable (c ∷ caps) protocol =
    let (to, from) =
      capability-ModeShareable c.access_mode c.mount protocol
        (validate_access_mode_for_protocol caps protocol) in
    let (ih, hi) = validate_access_mode_for_protocol-Shareable caps protocol in
    (λ h. ((to h).0, ih (to h).1), λ (h, hs). from (h, hi hs))

check_capabilities-All :
    (caps : List Capability)
    → check_capabilities caps ≡ none
    → All (λ c. is_checkable c.mount ≡ true) caps
unfolding check_capabilities
check_capabilities-All [] h = tt
check_capabilities-All (c ∷ caps) h = ground (arith, check_capabilities-All caps)

-- validateFilesystemCheckMode gives either none, where the parameter is empty or none but for case
-- and spaces, or preen, and then the parameter is preen but for case and spaces, the protocol is
-- NVMe-oF or iSCSI, and every capability is a mount of ext3 or ext4.
pub validate_filesystem_check_mode_lem :
    (raw_mode protocol mode : Str) (caps : List Capability)
    → validate_filesystem_check_mode raw_mode protocol caps ≡ ok mode
    → ((mode ≡ filesystem_check_mode_none)
        × ((is_empty (to_lower (trim_space raw_mode))
              || str_eq (to_lower (trim_space raw_mode)) filesystem_check_mode_none)
            ≡ true))
      ⊎ ((mode ≡ filesystem_check_mode_preen)
          × (str_eq (to_lower (trim_space raw_mode)) filesystem_check_mode_preen ≡ true)
          × (is_block_protocol protocol ≡ true)
          × All (λ c. is_checkable c.mount ≡ true) caps)
unfolding validate_filesystem_check_mode
validate_filesystem_check_mode_lem raw_mode protocol mode caps h =
    ground (arith, check_capabilities-All caps)

has_prefix-append : (s t : Str) → has_prefix (s ++ t) s ≡ true
unfolding has_prefix
has_prefix-append [] t = refl
has_prefix-append (c ∷ s) t = ground (arith, has_prefix-append s t)

pool_path-append :
    (pool rest : Str) → has_prefix (pool ++ (str "/" ++ rest)) (pool ++ str "/") ≡ true
unfolding has_prefix
pool_path-append [] rest = ground arith
pool_path-append (c ∷ pool) rest = ground (arith, pool_path-append pool rest)

-- The parent dataset that a parameter names, for a pool: none but the pool, one that is written
-- with the pool in front, or one that is written from the pool on.
pub data Resolves (pool : Str) : Str → Str → Type 0 where
  nothing : Resolves pool [] pool
  the_pool : Resolves pool pool pool
  qualified : (rest : Str) → Resolves pool (pool ++ (str "/" ++ rest)) (pool ++ (str "/" ++ rest))
  relative :
      (parent_dataset : Str)
      → parent_dataset ≢ []
      → parent_dataset ≢ pool
      → ((rest : Str) → parent_dataset ≢ pool ++ (str "/" ++ rest))
      → Resolves pool parent_dataset (pool ++ str "/" ++ parent_dataset)

qualified_of_prefix :
    (pool parent_dataset : Str)
    → has_prefix parent_dataset (pool ++ str "/") ≡ true
    → (rest : Str) × (parent_dataset ≡ pool ++ (str "/" ++ rest))
qualified_of_prefix pool parent_dataset h = (
  drop (length (pool ++ str "/")) parent_dataset,
  has_prefix-drop parent_dataset (pool ++ str "/") h ∙ append_assoc pool (str "/") _,
)

relative_of :
    (pool parent_dataset : Str)
    → is_empty parent_dataset ≡ false
    → str_eq parent_dataset pool ≡ false
    → has_prefix parent_dataset (pool ++ str "/") ≡ false
    → Resolves pool parent_dataset (pool ++ str "/" ++ parent_dataset)
relative_of pool parent_dataset a b c =
    Resolves.relative parent_dataset (λ e. cc) (λ e. ground (arith, str_eq_iff parent_dataset pool))
      (λ rest e. ground (arith, pool_path-append pool rest))

resolve_parent_dataset_lem :
    (pool parent_dataset : Str)
    → is_empty pool ≡ false
    → Resolves pool parent_dataset (resolve_parent_dataset pool parent_dataset)
unfolding resolve_parent_dataset
resolve_parent_dataset_lem pool [] named = Resolves.nothing
resolve_parent_dataset_lem pool (c ∷ s) named = elim (Bool-cases (str_eq (c ∷ s) pool)) [
  | inl e ↦ rw (named, e) (transp_pool ((str_eq_iff (c ∷ s) pool).0 e))
  | inr e ↦ elim (Bool-cases (has_prefix (c ∷ s) (pool ++ str "/"))) [
    | inl p ↦ rw (named, e, p) (of_qualified (qualified_of_prefix pool (c ∷ s) p))
    | inr p ↦ rw (named, e, p) (relative_of pool (c ∷ s) refl e p)
  ]
]
  where
    transp_pool : (c ∷ s) ≡ pool → Resolves pool (c ∷ s) (c ∷ s)
    transp_pool e = rw e Resolves.the_pool

    of_qualified :
        ((rest : Str) × ((c ∷ s) ≡ pool ++ (str "/" ++ rest))) → Resolves pool (c ∷ s) (c ∷ s)
    of_qualified (rest, e) = rw e (Resolves.qualified rest)

resolve-pool : (pool : Str) → is_empty pool ≡ false → resolve_parent_dataset pool pool ≡ pool
unfolding resolve_parent_dataset
resolve-pool pool named = rw (named, str_eq_refl pool) refl

resolve-qualified :
    (pool rest : Str)
    → is_empty pool ≡ false
    → resolve_parent_dataset pool (pool ++ (str "/" ++ rest)) ≡ pool ++ (str "/" ++ rest)
unfolding resolve_parent_dataset
resolve-qualified pool rest named = rw (named, pool_path-append pool rest) (ground arith)

resolve-Resolves :
    (pool parent_dataset result : Str)
    → is_empty pool ≡ false
    → Resolves pool parent_dataset result
    → resolve_parent_dataset pool result ≡ result
resolve-Resolves pool parent_dataset result named Resolves.nothing = resolve-pool pool named
resolve-Resolves pool parent_dataset result named Resolves.the_pool = resolve-pool pool named
resolve-Resolves pool parent_dataset result named (Resolves.qualified rest) =
    resolve-qualified pool rest named
resolve-Resolves pool parent_dataset result named (Resolves.relative p a b c) =
    rw (append_assoc pool (str "/") p) (resolve-qualified pool p named)

-- Where a pool is given, resolveParentDataset gives the pool for no parameter and for the pool
-- itself, a parameter that has the pool and a slash in front as it is, and for any other the pool,
-- a slash and the parameter; and resolving its result once more changes nothing.
pub resolve_parent_dataset-Resolves :
    (pool parent_dataset : Str)
    → is_empty pool ≡ false
    → Resolves pool parent_dataset (resolve_parent_dataset pool parent_dataset)
      × (resolve_parent_dataset pool (resolve_parent_dataset pool parent_dataset)
          ≡ resolve_parent_dataset pool parent_dataset)
resolve_parent_dataset-Resolves pool parent_dataset named = (
  resolve_parent_dataset_lem pool parent_dataset named,
  resolve-Resolves pool parent_dataset _ named
      (resolve_parent_dataset_lem pool parent_dataset named),
)
