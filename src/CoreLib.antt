-- ===== src/CoreLib.antt =====
-- What the plugin takes from ChordAuditMatrixLib, which is not part of the repository: interfaces
-- with the documented behaviour that the code relies on.
pub mod Entries
pub mod Collection
pub mod Crypto
pub mod TagSet
pub mod Serializer
pub mod Random
pub mod Input
pub mod Archive
