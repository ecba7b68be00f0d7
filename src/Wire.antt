-- ===== src/Wire.antt =====
-- The byte streams of lib/: a stream is a list of bytes, as a little-endian machine lays them out.
-- Reading past the end of a stream, undefined behaviour in the source, is `none`.
pub mod Word
pub mod Opcode
pub mod Operands
pub mod Instruction
pub mod Package
pub mod Pcb
