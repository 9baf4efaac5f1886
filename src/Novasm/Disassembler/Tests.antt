-- ===== src/Novasm/Disassembler/Tests.antt =====
-- The disassembler on a small program.
use novus.Base.{◌≡◌, refl, arith, List, [], ◌∷◌, none, some, str_eq, if◌then◌else◌, ◌==◌}
use novus.Novasm.Executable.{Bytes, Executable}
use novus.Novasm.OpCode.{OpCode, byte_of}
use novus.Novasm.Assembler.{Assembler, done, find, bytes32}
use novus.Novasm.Assembler.Pieces.{size}
use novus.Novasm.Assembler.Commands.{
  Command, place_label, plain, int_literal, string_literal, jump, layout, empty, place, code,
  index_of, with_literal, numbered,
}
use novus.Novasm.Assembler.Correct.{assemble_program}
use novus.Novasm.Disassembler.{
  InstructionLabels, arg_int, arg_uint, operands, read_asm, find_op, op_of, read_args,
  read_instruction, disassemble_from, disassemble_instructions,
}
use novus.Novasm.Disassembler.Listing.{listing}
use novus.Novasm.Disassembler.RoundTrip.{disassemble_instructions-assemble_program}

abbrev main : Bytes
main = 109 ∷ []

abbrev end : Bytes
end = 101 ∷ []

-- The labels of the end, at offset 10.
abbrev labels : InstructionLabels
labels at = if at == 10 then end ∷ [] else []

-- Jump over an int to the end, which loads a string and returns.
abbrev program : List Command
program =
    place_label main
    ∷ jump end
    ∷ int_literal 300
    ∷ place_label end
    ∷ string_literal (104 ∷ [])
    ∷ plain OpCode.ret
    ∷ []

disassemble_instructions-assemble_program_example :
    (x : Executable) × (b : Assembler) × (assemble_program [] main program ≡ done x b)
    × (disassemble_instructions labels x.instructions
        ≡ some (listing labels (layout program (empty [])).offsets program (empty [])))
unfolding layout place code find size str_eq index_of with_literal numbered bytes32 operands
disassemble_instructions-assemble_program_example =
    disassemble_instructions-assemble_program labels [] main program 0
      (tt, (tt, (tt, (tt, (tt, (refl, tt)))))) (refl, (tt, (tt, (refl, (tt, (tt, tt))))))
      ((10, refl), tt) (omega arith) refl

-- A small int, the jump back to it and a byte that is no instruction.
disassemble_small :
    disassemble_instructions labels
      (byte_of OpCode.load_lit_int_small ∷ 7 ∷ byte_of OpCode.jump ∷ 10 ∷ 0 ∷ 0 ∷ 0 ∷ [])
    ≡ some (
        record { op = OpCode.load_lit_int_small; ip_offset = 0; args = arg_int 7 ∷ []; labels = [] }
        ∷ record {
          op = OpCode.jump;
          ip_offset = 2;
          args = arg_uint 10 (end ∷ []) ∷ [];
          labels = [];
        }
        ∷ [])
unfolding disassemble_instructions disassemble_from read_instruction op_of find_op byte_of operands
    read_args read_asm
disassemble_small = refl

disassemble_bad : disassemble_instructions labels (200 ∷ []) ≡ none
unfolding disassemble_instructions disassemble_from read_instruction op_of find_op byte_of
disassemble_bad = refl
