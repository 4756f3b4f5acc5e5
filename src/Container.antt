-- ===== src/Container.antt =====
-- The containers: ytlib/container
pub mod RingBuf
pub mod BinaryTree
pub mod AvlTree
pub mod Heap
