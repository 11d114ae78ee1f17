-- ===== src/Tests.antt =====
-- The theorems at concrete inputs.
pub mod Samples
pub mod Frames
pub mod Apdus
pub mod Devices
pub mod Txts
pub mod Channels
pub mod Answers
pub mod Emulators
pub mod Listening
pub mod Stores
