-- ===== src/Device.antt =====
-- EIBCommNEO/IDevice.h and EIBCommNEO/DeviceManager.cpp: the devices and the table of them.
pub mod Manager
pub mod Visits
pub mod Numbers
pub mod Removal
