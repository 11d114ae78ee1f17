-- ===== src/Apdu.antt =====
-- EIBCommNEO/apdu.h and EIBCommNEO/apdu.cpp: the application protocol data units.
pub mod Types
pub mod PropertyValue
pub mod UserMemory
pub mod GroupValue
pub mod Authorize
pub mod IndividualAddress
pub mod Link
pub mod Property
