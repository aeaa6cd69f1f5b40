-- ===== src/Create.antt =====
-- The creation of volumes: createVolumeByProtocol and the code of each protocol below it.
pub mod Settings
pub mod Request
pub mod Access
pub mod Comment
pub mod Files
pub mod Nfs
pub mod Smb
pub mod Iscsi
pub mod Nvmeof
pub mod Adopt
pub mod Protocols
pub mod Volumes
pub mod Settled
pub mod Careful
pub mod InFlight
