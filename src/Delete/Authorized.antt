-- ===== src/Delete/Authorized.antt =====
-- Every call of a deletion has the grounds of Delete.Grounds.
pub mod Datasets
pub mod Files
pub mod Iscsi
pub mod Nvmeof
