-- ===== src/Package.antt =====
-- The package manager's core, src/hphpc/pkgcore.c, without its file system calls.
pub mod Manifest
pub mod Registry
pub mod Hpx
mod Tests
