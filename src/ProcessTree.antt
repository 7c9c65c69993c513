-- ===== src/ProcessTree.antt =====
-- lading/src/generator/process_tree.rs: the tree of processes that is generated, and the processes that
-- walk it. Strings are lists of bytes; the generator of random strings and the choice of an executable
-- are parameters.
pub mod Tree
pub mod Walk
mod Shape
mod Walked
mod Tests
