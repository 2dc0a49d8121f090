-- ===== src/Runtime.antt =====
-- src/hphpc/runtime/hphp_rt.c: the runtime that generated programs are linked with.
pub mod Str
pub mod Value
pub mod Arr
pub mod Regex
pub mod Std
pub mod Thr
pub mod Usort
