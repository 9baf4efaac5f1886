-- ===== src/Novasm/Assembler/Commands.antt =====
-- A program as the commands given to the assembler, and the image that it stands for, computed without
-- dummy offsets: the pieces of the code, the labels' offsets and the string literals.
use novus.Base.{
  ℕ, ◌+◌, ◌/◌, ◌%◌, ◌^◌, ◌≡◌, List, [], ◌∷◌, ◌++◌, none, some, length, ◌==◌, leb, if◌then◌else◌,
}
use novus.Novasm.Executable.{Bytes}
use novus.Novasm.OpCode.{OpCode, byte_of}
use novus.Novasm.Assembler.{
  CallMode, Asm, done, threw, label, add_label, add_load_lit_string, write_op_code,
  add_load_lit_int, add_uint8, add_uint32, add_uint64, add_small_or_large, add_atomic_compare_swap,
  add_call, call_op, call_dyn_op, bytes32, find,
}
use novus.Novasm.Assembler.Pieces.{Piece, bytes, ref, size}

pub data Command : Type 0 where
  place_label ip_literal jump jump_if string_literal : Bytes → Command
  plain : OpCode → Command
  int_literal long_literal float_literal : ℕ → Command
  stack_alloc stack_store stack_load make_atomic atomic_block : ℕ → Command
  make_struct struct_load_field struct_store_field platform_call : ℕ → Command
  compare_swap : ℕ → ℕ → Command
  call : Bytes → ℕ → CallMode → Command
  call_dyn : ℕ → CallMode → Command

unfoldable pub emit : Command → Asm Unit
emit (place_label name) = label name
emit (ip_literal name) = add_label OpCode.load_lit_ip name
emit (jump name) = add_label OpCode.jump name
emit (jump_if name) = add_label OpCode.jump_if name
emit (string_literal val) = add_load_lit_string val
emit (plain op) = write_op_code op
emit (int_literal val) = add_load_lit_int val
emit (long_literal val) = add_uint64 OpCode.load_lit_long val
emit (float_literal val) = add_uint32 OpCode.load_lit_float val
emit (stack_alloc n) = add_small_or_large OpCode.stack_alloc_small OpCode.stack_alloc n
emit (stack_store n) = add_small_or_large OpCode.stack_store_small OpCode.stack_store n
emit (stack_load n) = add_small_or_large OpCode.stack_load_small OpCode.stack_load n
emit (make_atomic val) = add_uint32 OpCode.make_atomic val
emit (atomic_block val) = add_uint32 OpCode.atomic_block val
emit (make_struct n) = add_uint8 OpCode.make_struct n
emit (struct_load_field n) = add_uint8 OpCode.struct_load_field n
emit (struct_store_field n) = add_uint8 OpCode.struct_store_field n
emit (platform_call n) = add_uint8 OpCode.p_call n
emit (compare_swap expected desired) = add_atomic_compare_swap expected desired
emit (call name n mode) = add_call name n mode
emit (call_dyn n mode) = add_uint8 (call_dyn_op mode) n

unfoldable pub assemble : List Command → Asm Unit
assemble [] a = done tt a
assemble (c ∷ cs) a = elim (emit c a) [ done _ b ↦ assemble cs b | threw e b ↦ threw e b ]

-- The encoding of an instruction.
abbrev pub op : OpCode → Piece
op o = bytes (byte_of o % 256 ∷ [])

abbrev pub uint8 : ℕ → Piece
uint8 val = bytes (val % 256 ∷ [])

abbrev pub uint16 : ℕ → Piece
uint16 val = bytes (val % 256 ∷ val / 2 ^ 8 % 256 ∷ [])

abbrev pub uint32 : ℕ → Piece
uint32 val = bytes (bytes32 val)

abbrev pub uint64 : ℕ → Piece
uint64 val = bytes (bytes32 val ++ bytes32 (val / 2 ^ 32))

abbrev pub small_or_large : OpCode → OpCode → ℕ → List Piece
small_or_large small large n =
    if leb n 255 then op small ∷ uint8 n ∷ [] else op large ∷ uint16 n ∷ []

abbrev pub int_code : ℕ → List Piece
int_code val =
    if val == 0
    then op OpCode.load_lit_int0 ∷ []
    else if val == 1
    then op OpCode.load_lit_int1 ∷ []
    else if leb val 255
    then op OpCode.load_lit_int_small ∷ uint8 val ∷ []
    else op OpCode.load_lit_int ∷ uint32 val ∷ []

-- The index of a string literal, the same for each time it is used.
unfoldable pub numbered : ℕ → List Bytes → List (Bytes × ℕ)
numbered k [] = []
numbered k (x ∷ xs) = (x, k % 2 ^ 32) ∷ numbered (k + 1) xs

unfoldable pub index_of : Bytes → List Bytes → ℕ
index_of val lits = elim (find val (numbered 0 lits)) [ none ↦ length lits % 2 ^ 32 | some id ↦ id ]

unfoldable pub with_literal : Bytes → List Bytes → List Bytes
with_literal val lits = elim (find val (numbered 0 lits)) [
  | none ↦ lits ++ (val ∷ [])
  | some id ↦ lits
]

unfoldable pub code : List Bytes → Command → List Piece
code lits (place_label name) = []
code lits (ip_literal name) = op OpCode.load_lit_ip ∷ ref name ∷ []
code lits (jump name) = op OpCode.jump ∷ ref name ∷ []
code lits (jump_if name) = op OpCode.jump_if ∷ ref name ∷ []
code lits (string_literal val) = op OpCode.load_lit_string ∷ uint32 (index_of val lits) ∷ []
code lits (plain o) = op o ∷ []
code lits (int_literal val) = int_code val
code lits (long_literal val) = op OpCode.load_lit_long ∷ uint64 val ∷ []
code lits (float_literal val) = op OpCode.load_lit_float ∷ uint32 val ∷ []
code lits (stack_alloc n) = small_or_large OpCode.stack_alloc_small OpCode.stack_alloc n
code lits (stack_store n) = small_or_large OpCode.stack_store_small OpCode.stack_store n
code lits (stack_load n) = small_or_large OpCode.stack_load_small OpCode.stack_load n
code lits (make_atomic val) = op OpCode.make_atomic ∷ uint32 val ∷ []
code lits (atomic_block val) = op OpCode.atomic_block ∷ uint32 val ∷ []
code lits (make_struct n) = op OpCode.make_struct ∷ uint8 n ∷ []
code lits (struct_load_field n) = op OpCode.struct_load_field ∷ uint8 n ∷ []
code lits (struct_store_field n) = op OpCode.struct_store_field ∷ uint8 n ∷ []
code lits (platform_call n) = op OpCode.p_call ∷ uint8 n ∷ []
code lits (compare_swap expected desired) =
    op OpCode.atomic_compare_swap ∷ uint32 expected ∷ uint32 desired ∷ []
code lits (call name n mode) = op (call_op mode) ∷ uint8 n ∷ ref name ∷ []
code lits (call_dyn n mode) = op (call_dyn_op mode) ∷ uint8 n ∷ []

pub record Image : Type 0 where
  pub version : Bytes
  pub pieces : List Piece
  pub offsets : List (Bytes × ℕ)
  pub literals : List Bytes

abbrev pub empty : Bytes → Image
empty version = record { version = version; pieces = []; offsets = []; literals = [] }

unfoldable pub place : Command → Image → Image
place (place_label name) im = record im {
  offsets = im.offsets ++ ((name, size im.pieces % 2 ^ 32) ∷ []);
}
place (string_literal val) im = record im {
  pieces = im.pieces ++ code im.literals (string_literal val);
  literals = with_literal val im.literals;
}
place c im = record im { pieces = im.pieces ++ code im.literals c }

unfoldable pub layout : List Command → Image → Image
layout [] im = im
layout (c ∷ cs) im = layout cs (place c im)

-- No label is placed twice.
abbrev pub IsFree : Command → Image → Type 0
IsFree (place_label name) im = find name im.offsets ≡ none
IsFree _ im = Unit

abbrev pub NoClash : List Command → Image → Type 0
NoClash [] im = Unit
NoClash (c ∷ cs) im = IsFree c im × NoClash cs (place c im)
