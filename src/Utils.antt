-- ===== src/Utils.antt =====
-- The C++ utilities of utils/.
pub mod Hash
pub mod RbTree
pub mod Arena
pub mod Lock
pub mod ConnectionPool
pub mod Sequence
mod Tests
