-- ===== src/Novasm/Assembler.antt =====
-- src/novasm/assembler.cpp: the assembler's state and its operations. An operation gives a value and
-- the new state, or throws and leaves the state as it is at the throw.
pub mod Pieces
pub mod Patches
pub mod Commands
pub mod Emits
pub mod Represents
pub mod Correct
pub mod Closed
mod Tests
use novus.Base.{
  ℕ, zero, suc, ◌+◌, ◌-◌, ◌/◌, ◌%◌, ◌^◌, List, [], ◌∷◌, ◌++◌, Option, none, some, Bool, true, false,
  length, str_eq, ◌==◌, leb, if◌then◌else◌,
}
use novus.Novasm.Executable.{Bytes, Executable}
use novus.Novasm.OpCode
use novus.Novasm.OpCode.{OpCode, byte_of}

pub data CallMode : Type 0 where
  normal tail forked : CallMode

-- The maps m_litStringLookup and m_labels are lists of their entries, without a key twice.
pub record Assembler : Type 0 where
  pub compiler_version : Bytes
  pub closed : Bool
  pub lit_string_lookup : List (Bytes × ℕ)
  pub lit_strings : List Bytes
  pub instructions : Bytes
  pub entrypoint_label : Bytes
  pub labels : List (Bytes × ℕ)
  pub label_targets : List (Bytes × ℕ)

abbrev pub assembler : Bytes → Assembler
assembler version = record {
  compiler_version = version;
  closed = false;
  lit_string_lookup = [];
  lit_strings = [];
  instructions = [];
  entrypoint_label = [];
  labels = [];
  label_targets = [];
}

pub data AsmError : Type 0 where
  is_closed label_exists no_entrypoint : AsmError
  no_label : Bytes → AsmError

pub data Step (A : Type 0) : Type 0 where
  done : A → Assembler → Step A
  threw : AsmError → Assembler → Step A

abbrev pub Asm : Type 0 → Type 0
Asm A = Assembler → Step A

infixl 5 ◌>>=◌
abbrev pub ◌>>=◌ : {A B : Type 0} → Asm A → (A → Asm B) → Asm B
◌>>=◌ m f a = elim (m a) [ done x b ↦ f x b | threw e b ↦ threw e b ]

-- m_labels.find and m_litStringLookup.find
unfoldable pub find : Bytes → List (Bytes × ℕ) → Option ℕ
find key [] = none
find key ((k, v) ∷ entries) = let rest = find key entries in if str_eq key k then some v else rest

unfoldable pub throw_if_closed : Asm Unit
throw_if_closed a = if a.closed then threw is_closed a else done tt a

abbrev pub get_current_ip_offset : Assembler → ℕ
get_current_ip_offset a = length a.instructions % 2 ^ 32

unfoldable pub push_back : Bytes → Asm Unit
push_back bs a = done tt (record a { instructions = a.instructions ++ bs })

unfoldable pub write_uint8 : ℕ → Asm Unit
write_uint8 val = do _ ← throw_if_closed; push_back (val % 256 ∷ [])

unfoldable pub write_uint16 : ℕ → Asm Unit
write_uint16 val = do _ ← throw_if_closed; push_back (val % 256 ∷ val / 2 ^ 8 % 256 ∷ [])

-- The four bytes of a uint32_t, the lowest first.
unfoldable pub bytes32 : ℕ → Bytes
bytes32 val = val % 256 ∷ val / 2 ^ 8 % 256 ∷ val / 2 ^ 16 % 256 ∷ val / 2 ^ 24 % 256 ∷ []

unfoldable pub write_uint32 : ℕ → Asm Unit
write_uint32 val = do _ ← throw_if_closed; push_back (bytes32 val)

unfoldable pub write_uint64 : ℕ → Asm Unit
write_uint64 val = do _ ← throw_if_closed; push_back (bytes32 val ++ bytes32 (val / 2 ^ 32))

unfoldable pub write_op_code : OpCode → Asm Unit
write_op_code op = write_uint8 (byte_of op)

-- A dummy offset, which `close` patches.
unfoldable pub write_ip_offset : Bytes → Asm Unit
write_ip_offset label = do
  _ ← throw_if_closed
  λ (a : Assembler). done tt (record a {
    label_targets = a.label_targets ++ ((label, get_current_ip_offset a) ∷ []);
    instructions = a.instructions ++ (255 ∷ 255 ∷ 255 ∷ 255 ∷ []);
  })

unfoldable pub label : Bytes → Asm Unit
label name = do
  _ ← throw_if_closed
  λ (a : Assembler). elim (find name a.labels) [
    | some _ ↦ threw label_exists a
    | none ↦ done tt (record a { labels = a.labels ++ ((name, get_current_ip_offset a) ∷ []) })
  ]

unfoldable pub add_lit_string : Bytes → Asm ℕ
add_lit_string string a = elim (find string a.lit_string_lookup) [
  | some id ↦ done id a
  | none ↦
      let id = length a.lit_strings % 2 ^ 32 in
      done id (record a {
        lit_strings = a.lit_strings ++ (string ∷ []);
        lit_string_lookup = a.lit_string_lookup ++ ((string, id) ∷ []);
      })
]

-- An int32_t and an int64_t are their bit patterns, a float its raw bits.
unfoldable pub add_load_lit_int : ℕ → Asm Unit
add_load_lit_int val =
    if val == 0
    then write_op_code OpCode.load_lit_int0
    else if val == 1
    then write_op_code OpCode.load_lit_int1
    else if leb val 255
    then (do _ ← write_op_code OpCode.load_lit_int_small; write_uint8 val)
    else (do _ ← write_op_code OpCode.load_lit_int; write_uint32 val)

unfoldable pub add_load_lit_string : Bytes → Asm Unit
add_load_lit_string val = do
  id ← add_lit_string val
  _ ← write_op_code OpCode.load_lit_string
  write_uint32 id

-- addStackAlloc, addStackStore and addStackLoad: an operand of one byte if that is enough.
unfoldable pub add_small_or_large : OpCode → OpCode → ℕ → Asm Unit
add_small_or_large small large val =
    if leb val 255
    then (do _ ← write_op_code small; write_uint8 val)
    else (do _ ← write_op_code large; write_uint16 val)

unfoldable pub add_atomic_compare_swap : ℕ → ℕ → Asm Unit
add_atomic_compare_swap expected desired = do
  _ ← write_op_code OpCode.atomic_compare_swap
  _ ← write_uint32 expected
  write_uint32 desired

-- An instruction with one operand of 8, 32 or 64 bits, or with a label.
unfoldable pub add_uint8 : OpCode → ℕ → Asm Unit
add_uint8 op val = do _ ← write_op_code op; write_uint8 val

unfoldable pub add_uint32 : OpCode → ℕ → Asm Unit
add_uint32 op val = do _ ← write_op_code op; write_uint32 val

unfoldable pub add_uint64 : OpCode → ℕ → Asm Unit
add_uint64 op val = do _ ← write_op_code op; write_uint64 val

unfoldable pub add_label : OpCode → Bytes → Asm Unit
add_label op name = do _ ← write_op_code op; write_ip_offset name

unfoldable pub call_op : CallMode → OpCode
call_op normal = OpCode.call
call_op tail = OpCode.call_tail
call_op forked = OpCode.call_forked

unfoldable pub call_dyn_op : CallMode → OpCode
call_dyn_op normal = OpCode.call_dyn
call_dyn_op tail = OpCode.call_dyn_tail
call_dyn_op forked = OpCode.call_dyn_forked

unfoldable pub add_call : Bytes → ℕ → CallMode → Asm Unit
add_call name arg_count mode = do
  _ ← write_op_code (call_op mode)
  _ ← write_uint8 arg_count
  write_ip_offset name

unfoldable pub set_entrypoint : Bytes → Asm Unit
set_entrypoint name a = done tt (record a { entrypoint_label = name })

-- m_instructions[at] = val
unfoldable pub set_at : ℕ → ℕ → Bytes → Bytes
set_at at val [] = []
set_at zero val (b ∷ bs) = val ∷ bs
set_at (suc at) val (b ∷ bs) = b ∷ set_at at val bs

unfoldable pub patch : ℕ → ℕ → Bytes → Bytes
patch at offset bs = set_at (at + 3) (offset / 2 ^ 24 % 256) (
    set_at (at + 2) (offset / 2 ^ 16 % 256)
      (set_at (at + 1) (offset / 2 ^ 8 % 256) (set_at at (offset % 256) bs)))

-- The loop of patchLabels, with the label that is missing.
unfoldable pub patch_loop : List (Bytes × ℕ) → List (Bytes × ℕ) → Bytes → Bytes × Option Bytes
patch_loop labels [] bs = (bs, none)
patch_loop labels ((name, at) ∷ targets) bs = elim (find name labels) [
  | none ↦ (bs, some name)
  | some offset ↦ patch_loop labels targets (patch at offset bs)
]

unfoldable pub patch_labels : Asm Unit
patch_labels a =
    let (bs, missing) = patch_loop a.labels a.label_targets a.instructions in
    elim missing [
      | none ↦ done tt (record a { instructions = bs })
      | some name ↦ threw (no_label name) (record a { instructions = bs })
    ]

-- What the executable is given is moved out of the assembler.
unfoldable pub finish : Asm Executable
finish a = elim (find a.entrypoint_label a.labels) [
  | none ↦ threw no_entrypoint a
  | some entrypoint ↦
      done
        (record {
          compiler_version = a.compiler_version;
          entrypoint = entrypoint;
          lit_strings = a.lit_strings;
          instructions = a.instructions;
        })
        (record a { lit_strings = []; instructions = [] })
]

unfoldable pub close : Asm Executable
close = do
  _ ← throw_if_closed
  _ ← (λ (a : Assembler). patch_labels (record a { closed = true }))
  finish
