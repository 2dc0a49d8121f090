-- ===== src/Sema.antt =====
-- src/hphpc/sema.c: the types, the scopes, the borrow rules and the search for returns.
pub mod Borrow
pub mod Returns
pub mod Scopes
mod Tests
pub mod Types
