-- ===== src/Client.antt =====
-- The client's calls of src/hcom4db.cpp: the blocks of its allocator, the packing of several messages
-- into one request, the two-sided calls and their completion callbacks.
pub mod Blocks
pub mod Pack
pub mod Own
pub mod Callback
pub mod Call
pub mod Connection
pub mod Async
pub mod OneSided
pub mod Rndv
pub mod Timeout
