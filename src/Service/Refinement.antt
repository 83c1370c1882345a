-- ===== src/Service/Refinement.antt =====
-- The service as a client of the store: which operations of the store a request goes through.
pub mod Rules
pub mod Sessions
pub mod Passwords
pub mod Members
pub mod Nodes
