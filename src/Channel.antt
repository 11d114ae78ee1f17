-- ===== src/Channel.antt =====
-- EIBCommNEO/CommBase.cpp: the frames that are found in the bytes of a channel, and the queue of received frames.
pub mod Parser
pub mod Buffer
pub mod Queue
pub mod Receiver
pub mod Waiting
pub mod Peeker
