-- ===== src/Txt.antt =====
-- EIBCommNEO/DeviceImpl_TXT.cpp and .h, and group_object.cpp: a device that keeps its properties in memory.
pub mod Types
pub mod Fields
pub mod Elements
pub mod Links
pub mod Addresses
pub mod Groups
pub mod Memory
