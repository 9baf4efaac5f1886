-- ===== src/Novasm.antt =====
-- The assembly format: novasm.
pub mod OpCode
pub mod Executable
pub mod Serialization
pub mod Assembler
pub mod Disassembler
