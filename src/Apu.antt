-- ===== src/Apu.antt =====
-- src/apu: the sound unit.
pub mod LengthCounter
pub mod Envelope
pub mod Sweep
pub mod Channel1
pub mod Channel2
pub mod Channel3
pub mod Channel4
pub mod Unit
