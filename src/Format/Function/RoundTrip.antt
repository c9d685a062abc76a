-- ===== src/Format/Function/RoundTrip.antt =====
-- `decode` returns the function that `encode_into` was given.
pub mod Payload
pub mod Ranges
pub mod CallSites
pub mod Inline
pub mod Records
pub mod Stages
pub mod Whole
pub mod Tree
