-- ===== src/Simplified.antt =====
-- simplified/: extensions that are described by a table of what they want to have in place.
pub mod Rules
pub mod Handlers
pub mod Lookups
pub mod Commands
