-- ===== src/Create/Settled.antt =====
-- What createNFSVolume, createSMBVolume, createISCSIVolume and createNVMeOFVolume leave behind.
pub mod Datasets
pub mod Files
pub mod Nvmeof
pub mod Iscsi
pub mod Volumes
