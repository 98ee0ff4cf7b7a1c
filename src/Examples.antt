-- ===== src/Examples.antt =====
-- The programs of code/qemu-cortex-m.
pub mod Stream
pub mod Faults
pub mod Priority
pub mod MemoryMap
pub mod Protocol
pub mod Timebase
