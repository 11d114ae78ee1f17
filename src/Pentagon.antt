-- ===== src/Pentagon.antt =====
-- pentagon/pentagon.cpp and public/prot_structs.h: the helpers that the protocol stack calls.
pub mod Checksum
pub mod Bitstream
pub mod Mask
pub mod Hex
