-- ===== src/Storage.antt =====
-- internal/storage: the pager and the B+ tree.
pub mod Fault
pub mod Monad
pub mod Node
pub mod Disk
pub mod Pager
pub mod Entries
pub mod Store
pub mod Tree
pub mod Engine
pub mod PageStore
pub mod Tests
