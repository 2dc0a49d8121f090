-- ===== src/Runtime/Thr.antt =====
-- src/hphpc/runtime/hphp_thr.c: the threads of compiled programs.
pub mod Barrier
pub mod Chan
