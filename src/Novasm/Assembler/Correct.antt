-- ===== src/Novasm/Assembler/Correct.antt =====
-- The assembler makes the executable of the image that the commands stand for.
use novus.Base.{ℕ, ◌^◌, ◌<◌, ◌≡◌, refl, sym, ap, ◌∙◌, List, [], ◌∷◌, ◌++◌, some}
use mathlib.Core.Path.{subst}
use novus.Novasm.Executable.{Bytes, Executable}
use novus.Novasm.Assembler.{Assembler, assembler, Step, done, ◌>>=◌, find, set_entrypoint, close}
use novus.Novasm.Assembler.Pieces.{holes, size, targets, extend, then-done}
use novus.Novasm.Assembler.Patches.{Resolved, fill, executable, close-fill}
use novus.Novasm.Assembler.Commands.{
  Command, place_label, ip_literal, jump, jump_if, string_literal, plain, int_literal, long_literal,
  float_literal, stack_alloc, stack_store, stack_load, make_atomic, atomic_block, make_struct,
  struct_load_field, struct_store_field, platform_call, compare_swap, call, call_dyn, emit,
  assemble, code, numbered, Image, empty, place, layout, IsFree, NoClash,
}
use novus.Novasm.Assembler.Emits.{emit-Adds, IsCode}
use novus.Novasm.Assembler.Represents.{
  Represents, Leaves, extend-Represents, label-Represents, emit_string-Represents,
}

place-code :
    (c : Command) (im : Image)
    → IsCode c
    → place c im ≡ record im { pieces = im.pieces ++ code im.literals c }
unfolding place
place-code (place_label name) im i = absurd i
place-code (string_literal val) im i = absurd i
place-code (ip_literal x) im i = refl
place-code (jump x) im i = refl
place-code (jump_if x) im i = refl
place-code (plain x) im i = refl
place-code (int_literal x) im i = refl
place-code (long_literal x) im i = refl
place-code (float_literal x) im i = refl
place-code (stack_alloc x) im i = refl
place-code (stack_store x) im i = refl
place-code (stack_load x) im i = refl
place-code (make_atomic x) im i = refl
place-code (atomic_block x) im i = refl
place-code (make_struct x) im i = refl
place-code (struct_load_field x) im i = refl
place-code (struct_store_field x) im i = refl
place-code (platform_call x) im i = refl
place-code (compare_swap x y) im i = refl
place-code (call x n mode) im i = refl
place-code (call_dyn n mode) im i = refl

emit_code-Represents :
    (c : Command) (a : Assembler) (im : Image)
    → IsCode c
    → Represents a im
    → Leaves (emit c) a tt (place c im)
emit_code-Represents c a im i r =
    let added = code im.literals c in
    (
      extend added a,
      emit-Adds c im.literals i a r.is_open,
      subst (Represents (extend added a)) (sym (place-code c im i))
          (extend-Represents a added im r),
    )

emit-Represents :
    (c : Command) (a : Assembler) (im : Image)
    → IsFree c im
    → Represents a im
    → Leaves (emit c) a tt (place c im)
unfolding emit
emit-Represents (place_label name) a im f r = label-Represents a name im r f
emit-Represents (string_literal val) a im f r = emit_string-Represents a val im r
emit-Represents (ip_literal x) a im f r = emit_code-Represents (ip_literal x) a im tt r
emit-Represents (jump x) a im f r = emit_code-Represents (jump x) a im tt r
emit-Represents (jump_if x) a im f r = emit_code-Represents (jump_if x) a im tt r
emit-Represents (plain x) a im f r = emit_code-Represents (plain x) a im tt r
emit-Represents (int_literal x) a im f r = emit_code-Represents (int_literal x) a im tt r
emit-Represents (long_literal x) a im f r = emit_code-Represents (long_literal x) a im tt r
emit-Represents (float_literal x) a im f r = emit_code-Represents (float_literal x) a im tt r
emit-Represents (stack_alloc x) a im f r = emit_code-Represents (stack_alloc x) a im tt r
emit-Represents (stack_store x) a im f r = emit_code-Represents (stack_store x) a im tt r
emit-Represents (stack_load x) a im f r = emit_code-Represents (stack_load x) a im tt r
emit-Represents (make_atomic x) a im f r = emit_code-Represents (make_atomic x) a im tt r
emit-Represents (atomic_block x) a im f r = emit_code-Represents (atomic_block x) a im tt r
emit-Represents (make_struct x) a im f r = emit_code-Represents (make_struct x) a im tt r
emit-Represents (struct_load_field x) a im f r =
    emit_code-Represents (struct_load_field x) a im tt r
emit-Represents (struct_store_field x) a im f r =
    emit_code-Represents (struct_store_field x) a im tt r
emit-Represents (platform_call x) a im f r = emit_code-Represents (platform_call x) a im tt r
emit-Represents (compare_swap x y) a im f r = emit_code-Represents (compare_swap x y) a im tt r
emit-Represents (call x n mode) a im f r = emit_code-Represents (call x n mode) a im tt r
emit-Represents (call_dyn n mode) a im f r = emit_code-Represents (call_dyn n mode) a im tt r

assemble-Represents :
    (cs : List Command) (a : Assembler) (im : Image)
    → NoClash cs im
    → Represents a im
    → Leaves (assemble cs) a tt (layout cs im)
unfolding assemble layout
assemble-Represents [] a im n r = (a, refl, r)
assemble-Represents (c ∷ cs) a im (f, n) r =
    let (b, e, q) = emit-Represents c a im f r in
    let (d, t, p) = assemble-Represents cs b (place c im) n q in
    (d, then-done (emit c) (λ _. assemble cs) {a = a} e ∙ t, p)

-- The commands, the name of the entrypoint and the end, given to a new assembler.
unfoldable pub assemble_program : Bytes → Bytes → List Command → Step Executable
assemble_program version entrypoint cs =
    (assemble cs >>= λ _. set_entrypoint entrypoint >>= λ _. close) (assembler version)

-- The executable of an image.
abbrev pub executable_of : Image → ℕ → Executable
executable_of im entrypoint = record {
  compiler_version = im.version;
  entrypoint = entrypoint;
  lit_strings = im.literals;
  instructions = fill im.offsets im.pieces;
}

empty-Represents : (version : Bytes) → Represents (assembler version) (empty version)
unfolding holes targets numbered
empty-Represents version = record {
  same_version = refl;
  is_open = refl;
  same_code = refl;
  same_targets = refl;
  same_labels = refl;
  same_literals = refl;
  same_lookup = refl;
}

same_executable :
    (a : Assembler) (im : Image) (entrypoint : ℕ)
    → a.compiler_version ≡ im.version
    → a.lit_strings ≡ im.literals
    → a.labels ≡ im.offsets
    → executable a entrypoint im.pieces ≡ executable_of im entrypoint
same_executable a im entrypoint v t l = λ i. record {
  compiler_version = v i;
  entrypoint = entrypoint;
  lit_strings = t i;
  instructions = fill (l i) im.pieces;
}

-- A program in which no label is placed twice, every label that is referred to is placed, the
-- entrypoint has a label and the code has less than 2 ^ 32 bytes is assembled to the executable of
-- its image: the pieces in order, the offset of a label in each place that refers to it, and each
-- string literal once.
pub assemble_program-layout :
    (version name : Bytes) (cs : List Command) (entrypoint : ℕ)
    → NoClash cs (empty version)
    → Resolved (layout cs (empty version)).offsets (layout cs (empty version)).pieces
    → size (layout cs (empty version)).pieces < 2 ^ 32
    → find name (layout cs (empty version)).offsets ≡ some entrypoint
    → (b : Assembler) × (assemble_program version name cs
        ≡ done (executable_of (layout cs (empty version)) entrypoint) b)
unfolding assemble_program set_entrypoint
assemble_program-layout version name cs entrypoint n r l e =
    let (b, t, q) =
      assemble-Represents cs (assembler version) (empty version) n (empty-Represents version) in
    let c = record b { entrypoint_label = name } in
    let ps = (layout cs (empty version)).pieces in
    let (d, u) =
      close-fill c ps entrypoint q.is_open q.same_code q.same_targets
        (subst (λ (ls : List (Bytes × ℕ)). Resolved ls ps) (sym q.same_labels) r) l
        (ap (find name) q.same_labels ∙ e) in
    (
      d,
      then-done (assemble cs) _ {a = assembler version} t
          ∙ then-done (set_entrypoint name) (λ _. close) {a = b} refl
          ∙ u
          ∙ ap (λ (x : Executable). done x d)
              (same_executable c (layout cs (empty version)) entrypoint q.same_version
                q.same_literals q.same_labels),
    )
