-- ===== src/Snapshot.antt =====
-- Snapshots of the controller service.
pub mod Id
pub mod Creation
pub mod Deletion
