-- ===== src/Publish.antt =====
-- pkg/driver/node_registry.go, and ControllerPublishVolume and ControllerUnpublishVolume of
-- pkg/driver/controller.go. Each operation holds its lock from the first use of a map to the last,
-- so that a run is a sequence of whole operations.
pub mod Attached
use tns_csi.Common.{
  ℕ, Str, is_empty, Map, lookup, insert, erase, length, Bool, true, false, not, Option, none, some,
  List, [], ◌∷◌, ◌++◌, if◌then◌else◌,
}
use tns_csi.Codes.{Code, invalid_argument, not_found, already_exists}

-- NodeRegistry: the nodes with the time of their registration.
unfoldable pub register : Str → ℕ → Map ℕ → Map ℕ
register node now nodes = insert node now nodes

abbrev is_some : {A : Type 0} → Option A → Bool
is_some none = false
is_some (some x) = true

unfoldable pub is_registered : Str → Map ℕ → Bool
is_registered node nodes = is_some (lookup node nodes)

unfoldable pub unregister : Str → Map ℕ → Map ℕ
unregister node nodes = erase node nodes

unfoldable pub count : Map ℕ → ℕ
count nodes = length nodes

-- ControllerService, as far as publishing uses it; a nil registry is `none`.
pub record Controller : Type 0 where
  pub node_registry : Option (Map ℕ)
  pub published_volumes : Map Bool

-- fmt.Sprintf("%s:%s", volumeID, nodeID)
unfoldable pub publish_key : Str → Str → Str
publish_key volume node = volume ++ b':' ∷ node

abbrev pub differ : Bool → Bool → Bool
differ true b = not b
differ false b = b

-- `s.nodeRegistry != nil && !s.nodeRegistry.IsRegistered(nodeID)`
unfoldable pub unknown_node : Option (Map ℕ) → Str → Bool
unknown_node none node = false
unknown_node (some nodes) node = not (is_registered node nodes)

-- The entry for the key decides.
unfoldable pub track : Controller → Str → Bool → Option Bool → Option Code × Controller
track c key readonly none =
    (none, record c { published_volumes = insert key readonly c.published_volumes })
track c key readonly (some existing) =
    if differ existing readonly then (some already_exists, c) else (none, c)

unfoldable pub controller_publish_volume :
    Controller → Str → Str → Bool → Bool → Option Code × Controller
unfolding unknown_node track
controller_publish_volume c volume node has_capability readonly =
    if is_empty volume
    then (some invalid_argument, c)
    else if is_empty node
    then (some invalid_argument, c)
    else if not has_capability
    then (some invalid_argument, c)
    else if unknown_node c.node_registry node
    then (some not_found, c)
    else track c (publish_key volume node) readonly
        (lookup (publish_key volume node) c.published_volumes)

unfoldable pub controller_unpublish_volume : Controller → Str → Str → Option Code × Controller
controller_unpublish_volume c volume node =
    if is_empty volume then (some invalid_argument, c) else if is_empty node then (none, c) else (
      none,
      record c { published_volumes = erase (publish_key volume node) c.published_volumes },
    )
