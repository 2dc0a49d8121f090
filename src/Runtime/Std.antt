-- ===== src/Runtime/Std.antt =====
-- Functions of src/hphpc/runtime/hphp_std.c, the standard library of compiled programs. An argument is
-- the byte string or the number that the source converts it to at its start.
pub mod Codec
pub mod Json
pub mod Text
mod Tests
