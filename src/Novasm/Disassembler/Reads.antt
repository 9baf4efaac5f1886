-- ===== src/Novasm/Disassembler/Reads.antt =====
-- One operand of an instruction, read back in each of its encodings.
use novus.Base.{ℕ, ◌/◌, ◌%◌, ◌^◌, ◌≡◌, refl, [], ◌∷◌, ◌++◌, some}
use novus.Novasm.Executable.{Bytes}
use novus.Novasm.Assembler.{bytes32}
use novus.Novasm.Disassembler.{
  arg_int, arg_long, arg_float, arg_pcall, arg_uint, InstructionLabels, Operands, read_args, target,
  count_target,
}
use novus.Novasm.Disassembler.Loads.{
  read_asm-uint8, read_asm-uint16, read_asm-uint32, read_asm-uint64,
}

-- One operand, in each of its encodings.
module _ (labels : InstructionLabels) (r : Bytes) where
  pub read_uint8 :
      (v : ℕ) → read_args labels Operands.uint8 (v % 256 ∷ r) ≡ some (arg_int (v % 2 ^ 8) ∷ [], r)
  unfolding read_args
  read_uint8 v = rw (read_args, read_asm-uint8 v r) refl

  pub read_uint16 :
      (v : ℕ)
      → read_args labels Operands.uint16 (v % 256 ∷ v / 2 ^ 8 % 256 ∷ r)
        ≡ some (arg_int (v % 2 ^ 16) ∷ [], r)
  unfolding read_args
  read_uint16 v = rw (read_args, read_asm-uint16 v r) refl

  pub read_uint32 :
      (v : ℕ)
      → read_args labels Operands.uint32 (bytes32 v ++ r) ≡ some (arg_uint (v % 2 ^ 32) [] ∷ [], r)
  unfolding read_args
  read_uint32 v = rw (read_args, read_asm-uint32 v r) refl

  pub read_int32 :
      (v : ℕ)
      → read_args labels Operands.int32 (bytes32 v ++ r) ≡ some (arg_int (v % 2 ^ 32) ∷ [], r)
  unfolding read_args
  read_int32 v = rw (read_args, read_asm-uint32 v r) refl

  pub read_float32 :
      (v : ℕ)
      → read_args labels Operands.float32 (bytes32 v ++ r) ≡ some (arg_float (v % 2 ^ 32) ∷ [], r)
  unfolding read_args
  read_float32 v = rw (read_args, read_asm-uint32 v r) refl

  pub read_int64 :
      (v : ℕ)
      → read_args labels Operands.int64 ((bytes32 v ++ bytes32 (v / 2 ^ 32)) ++ r)
        ≡ some (arg_long (v % 2 ^ 64) ∷ [], r)
  unfolding read_args
  read_int64 v = rw (read_args, read_asm-uint64 v r) refl

  pub read_pcall :
      (v : ℕ) → read_args labels Operands.pcall (v % 256 ∷ r) ≡ some (arg_pcall (v % 2 ^ 8) ∷ [], r)
  unfolding read_args
  read_pcall v = rw (read_args, read_asm-uint8 v r) refl

  pub read_target :
      (v : ℕ)
      → read_args labels target (bytes32 v ++ r)
        ≡ some (arg_uint (v % 2 ^ 32) (labels (v % 2 ^ 32)) ∷ [], r)
  unfolding read_args
  read_target v = rw (read_args, read_asm-uint32 v r) refl

  pub read_count_target :
      (n v : ℕ)
      → read_args labels count_target (n % 256 ∷ (bytes32 v ++ r))
        ≡ some (arg_int (n % 2 ^ 8) ∷ arg_uint (v % 2 ^ 32) (labels (v % 2 ^ 32)) ∷ [], r)
  unfolding read_args
  read_count_target n v =
      rw (read_args, read_asm-uint8 n (bytes32 v ++ r), read_asm-uint32 v r) refl

  pub read_two_int32 :
      (a b : ℕ)
      → read_args labels Operands.two_int32 (bytes32 a ++ (bytes32 b ++ r))
        ≡ some (arg_int (a % 2 ^ 32) ∷ arg_int (b % 2 ^ 32) ∷ [], r)
  unfolding read_args
  read_two_int32 a b = rw (read_args, read_asm-uint32 a (bytes32 b ++ r), read_asm-uint32 b r) refl
