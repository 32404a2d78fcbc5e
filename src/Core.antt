-- ===== src/Core.antt =====
-- The C containers of core/.
pub mod MgList
pub mod RbTree
pub mod Pool
pub mod Log
mod Tests
