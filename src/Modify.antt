-- ===== src/Modify.antt =====
-- pkg/modify: the controllers that modify the volumes of a storage class.
pub mod Model
pub mod Parameters
pub mod Classes
pub mod Status
pub mod Creation
pub mod Claim
pub mod Deletion
pub mod Content
pub mod Worker
mod Sample
mod Examples
