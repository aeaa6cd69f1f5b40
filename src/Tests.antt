-- ===== src/Tests.antt =====
-- The theorems at concrete inputs: a server with one volume of each protocol.
mod Server
mod Deletions
mod Retries
mod Ids
mod Volumes
mod Names
mod Snapshots
mod Requests
mod Creations
