-- ===== src/Create/Careful.antt =====
-- CreateVolume deletes nothing that it has not created.
pub mod Files
pub mod Iscsi
pub mod Nvmeof
pub mod Volumes
