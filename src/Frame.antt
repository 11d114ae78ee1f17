-- ===== src/Frame.antt =====
-- EIBCommNEO/Frame.h and EIBCommNEO/Frame.cpp: the frames of the physical layer.
pub mod Types
pub mod Build
pub mod Parse
pub mod Layout
pub mod RoundTrip
pub mod Accepted
pub mod Returns
pub mod Whole
pub mod Corruption
pub mod Repeat
pub mod Extract
pub mod Header
pub mod Dispatch
pub mod Unique
pub mod LinkRead
pub mod Transmission
pub mod Addressed
pub mod Oversized
pub mod Short
