-- ===== src/Novasm/Assembler/Tests.antt =====
-- The assembler on a small program.
use novus.Base.{true, ◌≡◌, refl, arith, [], ◌∷◌, List, str_eq}
use novus.Novasm.OpCode
use novus.Novasm.Executable.{Bytes}
use novus.Novasm.Assembler.{Assembler, assembler, done, find, bytes32}
use novus.Novasm.Assembler.Pieces.{size}
use novus.Novasm.Assembler.Commands.{
  Command, place_label, plain, int_literal, string_literal, jump, layout, emit, empty, place, code,
  index_of, with_literal, numbered,
}
use novus.Novasm.Assembler.Closed.{Refused, emit-Refused}
use novus.Novasm.Assembler.Correct.{assemble_program, assemble_program-layout, executable_of}

-- main: jump to end, which loads a string twice and returns.
abbrev main : Bytes
main = 109 ∷ []

abbrev end : Bytes
end = 101 ∷ []

abbrev hello : Bytes
hello = 104 ∷ 105 ∷ []

abbrev program : List Command
program =
    place_label main
    ∷ jump end
    ∷ int_literal 300
    ∷ place_label end
    ∷ string_literal hello
    ∷ string_literal hello
    ∷ plain OpCode.ret
    ∷ []

assemble_program-layout_example :
    (b : Assembler) × (assemble_program [] main program
      ≡ done (executable_of (layout program (empty [])) 0) b)
unfolding layout place code find size str_eq index_of with_literal numbered bytes32
assemble_program-layout_example =
    assemble_program-layout [] main program 0 (refl, (tt, (tt, (refl, (tt, (tt, (tt, tt)))))))
      ((10, refl), tt) (omega arith) refl

abbrev closed_assembler : Assembler
closed_assembler = record (assembler []) { closed = true }

emit-Refused_example : Refused (emit (string_literal hello)) closed_assembler
emit-Refused_example = emit-Refused (string_literal hello) closed_assembler refl
