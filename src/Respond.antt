-- ===== src/Respond.antt =====
-- The answers to received requests: `Response` of the classes in EIBCommNEO/apdu.cpp, and `BuildMe` of the
-- responses that ask a device.
pub mod Services
pub mod Properties
pub mod Groups
pub mod Others
pub mod Answers
pub mod Overrun
pub mod Writing
pub mod Individual
pub mod Linking
pub mod Dispatch
