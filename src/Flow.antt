-- ===== src/Flow.antt =====
-- utils/flow: the two ways in which the storage code undoes a half-done operation.
pub mod Transaction
pub mod TaskFlow
