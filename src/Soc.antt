-- ===== src/Soc.antt =====
-- src/soc/soc.rs: the memory map, the clock that drives the parts, and what the processor calls.
pub mod Context
pub mod State
pub mod Read
pub mod Write
pub mod Dma
pub mod Clock
pub mod Access
pub mod Steps
pub mod Runs
pub mod Echo
pub mod Nop
mod Tests
