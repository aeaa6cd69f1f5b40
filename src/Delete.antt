-- ===== src/Delete.antt =====
-- pkg/driver/volume_delete.go and DeleteVolume of pkg/driver/controller.go: which volumes may be
-- deleted, which presentation objects are a volume's own, and the deletion of its dataset.
pub mod Ownership
pub mod Grounds
pub mod Datasets
pub mod Evidence
pub mod Files
pub mod Iscsi
pub mod Nvmeof
pub mod Volumes
pub mod Authorized
pub mod Success
pub mod Shares
