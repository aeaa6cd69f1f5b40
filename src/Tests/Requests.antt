-- ===== src/Tests/Requests.antt =====
-- Requests for new volumes at concrete values.
use tns_csi.Common.{str, str_eq, to_lower, none, some, List, [], ◌∷◌, ok, All, ◌≡◌, refl, ◌↔◌}
use tns_csi.Properties.{protocol_iscsi}
use tns_csi.Delete.Datasets.{trim_space}
use tns_csi.Volume.Request.{
  AccessMode, Capability, filesystem_check_mode_preen, validate_access_mode_for_protocol,
  validate_filesystem_check_mode, check_capabilities, resolve_parent_dataset,
}
use tns_csi.Volume.Request.Laws.{
  Shareable, validate_access_mode_for_protocol-Shareable, resolve_parent_dataset-Resolves, Resolves,
}

abbrev mounted_once : List Capability
mounted_once = record { access_mode = AccessMode.other_mode; mount = some (str "ext4") } ∷ []

abbrev shared_and_mounted : List Capability
shared_and_mounted =
    record { access_mode = AccessMode.multi_node_single_writer; mount = none }
    ∷ record { access_mode = AccessMode.multi_node_multi_writer; mount = some (str "ext4") }
    ∷ []

validate_access_mode_for_protocol-Shareable_example :
    (validate_access_mode_for_protocol shared_and_mounted protocol_iscsi ≡ none)
    ↔ All (Shareable protocol_iscsi) shared_and_mounted
validate_access_mode_for_protocol-Shareable_example =
    validate_access_mode_for_protocol-Shareable shared_and_mounted protocol_iscsi

preen_given :
    validate_filesystem_check_mode (str " Preen") protocol_iscsi mounted_once
    ≡ ok filesystem_check_mode_preen
unfolding validate_filesystem_check_mode check_capabilities trim_space to_lower str_eq
preen_given = refl

resolve_parent_dataset-Resolves_example :
    Resolves (str "tank") (str "tank/k8s") (resolve_parent_dataset (str "tank") (str "tank/k8s"))
    × (resolve_parent_dataset (str "tank") (resolve_parent_dataset (str "tank") (str "tank/k8s"))
        ≡ resolve_parent_dataset (str "tank") (str "tank/k8s"))
resolve_parent_dataset-Resolves_example =
    resolve_parent_dataset-Resolves (str "tank") (str "tank/k8s") refl
