-- ===== src/Emulator.antt =====
-- EIBCommNEO/EIBEmulatorImpl.cpp: the requests that the emulator makes for its callers, over a channel.
pub mod Comm
pub mod Restrictions
pub mod Exchange
pub mod Values
pub mod Records
pub mod Groups
pub mod Raw
pub mod Listening
