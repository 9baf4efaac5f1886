-- ===== src/Novasm/Disassembler/RoundTrip.antt =====
-- The disassembler on the code of a whole program.
use novus.Base.{
  ℕ, zero, suc, ◌+◌, ◌-◌, ◌%◌, ◌^◌, ◌<◌, ◌≤◌, ◌≡◌, refl, sym, ap, ◌∙◌, arith, List, [], ◌∷◌, ◌++◌,
  append_assoc, append-nil, Option, none, some, length, length-append,
}
use mathlib.Core.Path.{subst}
use novus.Novasm.Executable.{Bytes, Executable}
use novus.Novasm.OpCode.{byte_of}
use novus.Novasm.Assembler.{Assembler, done, find, bytes32}
use novus.Novasm.Assembler.Pieces.{Piece, bytes, ref, size, size-append}
use novus.Novasm.Assembler.Patches.{Resolved, fill, length-fill}
use novus.Novasm.Assembler.Commands.{
  Command, place_label, ip_literal, jump, jump_if, string_literal, plain, int_literal, long_literal,
  float_literal, stack_alloc, stack_store, stack_load, make_atomic, atomic_block, make_struct,
  struct_load_field, struct_store_field, platform_call, compare_swap, call, call_dyn, code, Image,
  empty, place, layout, NoClash,
}
use novus.Novasm.Assembler.Correct.{assemble_program, assemble_program-layout, executable_of}
use novus.Novasm.Disassembler.{
  Instruction, InstructionLabels, read_instruction, disassemble_from, disassemble_instructions,
}
use novus.Novasm.Disassembler.Loads.{op_of-byte_of}
use novus.Novasm.Disassembler.Listing.{Shown, shown, listing, shown_at, PlainOnly, code_all}
use novus.Novasm.Disassembler.Encodes.{Encodes, IsShown, code-Encodes}

fill-append :
    (offsets : List (Bytes × ℕ)) (ps qs : List Piece)
    → fill offsets (ps ++ qs) ≡ fill offsets ps ++ fill offsets qs
unfolding fill
fill-append offsets [] qs = refl
fill-append offsets (bytes bs ∷ ps) qs =
    ap (λ t. bs ++ t) (fill-append offsets ps qs)
    ∙ sym (append_assoc bs (fill offsets ps) (fill offsets qs))
fill-append offsets (ref name ∷ ps) qs =
    let b : Bytes = elim (find name offsets) [ none ↦ [] | some offset ↦ bytes32 offset ] in
    ap (λ t. b ++ t) (fill-append offsets ps qs)
    ∙ sym (append_assoc b (fill offsets ps) (fill offsets qs))

Resolved-append :
    (offsets : List (Bytes × ℕ)) (ps qs : List Piece)
    → Resolved offsets (ps ++ qs)
    → Resolved offsets ps × Resolved offsets qs
Resolved-append offsets [] qs g = (tt, g)
Resolved-append offsets (bytes bs ∷ ps) qs g = Resolved-append offsets ps qs g
Resolved-append offsets (ref name ∷ ps) qs (e, g) =
    let (a, b) = Resolved-append offsets ps qs g in ((e, a), b)

pieces-place : (c : Command) (im : Image) → (place c im).pieces ≡ im.pieces ++ code im.literals c
unfolding place code
pieces-place (place_label name) im = sym (append-nil im.pieces)
pieces-place (string_literal val) im = refl
pieces-place (ip_literal x) im = refl
pieces-place (jump x) im = refl
pieces-place (jump_if x) im = refl
pieces-place (plain x) im = refl
pieces-place (int_literal x) im = refl
pieces-place (long_literal x) im = refl
pieces-place (float_literal x) im = refl
pieces-place (stack_alloc x) im = refl
pieces-place (stack_store x) im = refl
pieces-place (stack_load x) im = refl
pieces-place (make_atomic x) im = refl
pieces-place (atomic_block x) im = refl
pieces-place (make_struct x) im = refl
pieces-place (struct_load_field x) im = refl
pieces-place (struct_store_field x) im = refl
pieces-place (platform_call x) im = refl
pieces-place (compare_swap x y) im = refl
pieces-place (call x n mode) im = refl
pieces-place (call_dyn n mode) im = refl

pieces-layout :
    (cs : List Command) (im : Image) → (layout cs im).pieces ≡ im.pieces ++ code_all cs im
unfolding layout code_all
pieces-layout [] im = sym (append-nil im.pieces)
pieces-layout (c ∷ cs) im =
    pieces-layout cs (place c im)
    ∙ ap (λ t. t ++ code_all cs (place c im)) (pieces-place c im)
    ∙ append_assoc im.pieces (code im.literals c) (code_all cs (place c im))

-- The instruction of an encoding at an offset.
abbrev at_offset : InstructionLabels → ℕ → Shown → Instruction
at_offset labels at (o, args) = record { op = o; ip_offset = at; args = args; labels = labels at }

read_instruction-Encodes :
    (labels : InstructionLabels) (at : ℕ) (s : Shown) (bs r : Bytes)
    → Encodes labels s bs
    → read_instruction labels at (bs ++ r) ≡ some (at_offset labels at s, r)
unfolding read_instruction
read_instruction-Encodes labels at (o, args) bs r (t, e, h) =
    ap (λ (b : Bytes). read_instruction labels at (b ++ r)) e
    ∙ rw (read_instruction, op_of-byte_of o, h r) refl

-- A round of the loop.
disassemble_from-some :
    (fuel : ℕ) (labels : InstructionLabels) (total : ℕ) (b : ℕ) (bs r : Bytes) (i : Instruction)
    (is : List Instruction)
    → read_instruction labels ((total - length (b ∷ bs)) % 2 ^ 32) (b ∷ bs) ≡ some (i, r)
    → disassemble_from fuel labels total r ≡ some is
    → disassemble_from (suc fuel) labels total (b ∷ bs) ≡ some (i ∷ is)
unfolding disassemble_from
disassemble_from-some fuel labels total b bs r i is e h = rw (disassemble_from, e, h) refl

-- The bytes of one command and then others that have enough fuel.
round :
    (labels : InstructionLabels) (total at fuel : ℕ) (m : Option Shown) (bs rest : Bytes)
    (is : List Instruction)
    → IsShown labels m bs
    → (total - length (bs ++ rest)) % 2 ^ 32 ≡ at
    → length (bs ++ rest) ≤ fuel
    → ((f : ℕ) → length rest ≤ f → disassemble_from f labels total rest ≡ some is)
    → disassemble_from fuel labels total (bs ++ rest) ≡ some (shown_at labels at m ++ is)
unfolding shown_at
round labels total at fuel none bs rest is e q l h =
    ap (λ (b : Bytes). disassemble_from fuel labels total (b ++ rest)) e
    ∙ h fuel (omega (arith, l, length-append bs rest))
round labels total at zero (some (o, args)) bs rest is (t, e, h) q l k =
    absurd (omega (arith, l, ap (λ (b : Bytes). length (b ++ rest)) e))
round labels total at (suc fuel) (some (o, args)) bs rest is (t, e, h) q l k =
    let b : ℕ = byte_of o % 256 in
    let n : length (bs ++ rest) ≡ suc (length (t ++ rest)) =
      ap (λ (b : Bytes). length (b ++ rest)) e in
    ap (λ (b : Bytes). disassemble_from (suc fuel) labels total (b ++ rest)) e
    ∙ disassemble_from-some fuel labels total b (t ++ rest) rest (at_offset labels at (o, args)) is
        (ap (λ (i : ℕ). read_instruction labels i (b ∷ (t ++ rest)))
            (ap (λ (i : ℕ). (total - i) % 2 ^ 32) (sym n) ∙ q)
          ∙ read_instruction-Encodes labels at (o, args) (b ∷ t) rest (t, refl, h))
        (k fuel (omega (arith, l, n, length-append t rest)))

disassemble_from-listing :
    (labels : InstructionLabels) (offsets : List (Bytes × ℕ)) (total fuel : ℕ) (cs : List Command)
    (im : Image)
    → PlainOnly cs
    → Resolved offsets (code_all cs im)
    → total ≡ size im.pieces + length (fill offsets (code_all cs im))
    → total < 2 ^ 32
    → length (fill offsets (code_all cs im)) ≤ fuel
    → disassemble_from fuel labels total (fill offsets (code_all cs im))
      ≡ some (listing labels offsets cs im)
unfolding listing code_all fill disassemble_from
disassemble_from-listing labels offsets total zero [] im p g q l f = refl
disassemble_from-listing labels offsets total (suc fuel) [] im p g q l f = refl
disassemble_from-listing labels offsets total fuel (c ∷ cs) im (p, ps) g q l f =
    let here : List Piece = code im.literals c in
    let later : List Piece = code_all cs (place c im) in
    let (r, rs) = Resolved-append offsets here later g in
    let split = fill-append offsets here later in
    let n = length-append (fill offsets here) (fill offsets later) in
    let sum = ap length split ∙ n in
    ap (disassemble_from fuel labels total) split
    ∙ round labels total (size im.pieces) fuel (shown labels offsets im.literals c)
        (fill offsets here) (fill offsets later) (listing labels offsets cs (place c im))
        (code-Encodes labels offsets im.literals c p r) (omega (arith, q, l, ap length split))
        (omega (arith, f, ap length split))
        (λ m k.
          disassemble_from-listing labels offsets total m cs (place c im) ps rs
            (omega (
              arith,
              q,
              sum,
              ap size (pieces-place c im),
              size-append im.pieces here,
              length-fill offsets here r,
            ))
            l k)

-- The code that the assembler makes of a program in which no label is placed twice, every label that
-- is referred to is placed, the entrypoint has a label, no operation that has operands is given by its
-- op code alone and the code has less than 2 ^ 32 bytes is disassembled, with any labels of the
-- caller's, to the instructions of the program in order, each with its op code, its offset, its
-- arguments as the widths of their encodings keep them and, for a target, the offset of its label.
pub disassemble_instructions-assemble_program :
    (labels : InstructionLabels) (version name : Bytes) (cs : List Command) (entrypoint : ℕ)
    → PlainOnly cs
    → NoClash cs (empty version)
    → Resolved (layout cs (empty version)).offsets (layout cs (empty version)).pieces
    → size (layout cs (empty version)).pieces < 2 ^ 32
    → find name (layout cs (empty version)).offsets ≡ some entrypoint
    → (x : Executable) × (b : Assembler) × (assemble_program version name cs ≡ done x b)
      × (disassemble_instructions labels x.instructions
          ≡ some (listing labels (layout cs (empty version)).offsets cs (empty version)))
unfolding disassemble_instructions size
disassemble_instructions-assemble_program labels version name cs entrypoint p n r l e =
    let im = layout cs (empty version) in
    let (b, t) = assemble_program-layout version name cs entrypoint n r l e in
    let ps : List Piece = code_all cs (empty version) in
    let same : im.pieces ≡ ps = pieces-layout cs (empty version) in
    let g = subst (Resolved im.offsets) same r in
    let k = length-fill im.offsets ps g in
    (
      executable_of im entrypoint,
      b,
      t,
      ap (λ (ps : List Piece). disassemble_instructions labels (fill im.offsets ps)) same
          ∙ disassemble_from-listing labels im.offsets (length (fill im.offsets ps))
              (length (fill im.offsets ps)) cs (empty version) p g (omega arith)
              (omega (arith, k, l, ap size same)) (omega arith),
    )
