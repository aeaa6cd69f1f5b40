-- ===== src/Delete/Success.antt =====
-- What DeleteVolume's success means, for each protocol.
pub mod Datasets
pub mod Ownership
pub mod Volumes
pub mod Nvmeof
