-- ===== src/Novasm/Assembler/Closed.antt =====
-- A closed assembler takes nothing more.
use novus.Base.{
  ℕ, ◌%◌, ◌^◌, ◌≡◌, refl, ap, ◌∙◌, [], ◌∷◌, ◌++◌, Bool, true, length, ◌==◌, leb, if◌then◌else◌,
  Bool-cases, Option-cases, inl, inr,
}
use novus.Novasm.Executable.{Bytes}
use novus.Novasm.OpCode.{OpCode}
use novus.Novasm.Assembler.{
  Assembler, Asm, done, threw, is_closed, ◌>>=◌, find, throw_if_closed, label, add_lit_string,
  add_load_lit_string, write_op_code, write_uint8, write_uint16, write_uint32, add_load_lit_int,
  add_small_or_large, add_uint8, add_uint32, add_uint64, add_label, add_atomic_compare_swap,
  add_call, call_op, call_dyn_op,
}
use novus.Novasm.Assembler.Pieces.{then-done}
use novus.Novasm.Assembler.Commands.{
  Command, place_label, ip_literal, jump, jump_if, string_literal, plain, int_literal, long_literal,
  float_literal, stack_alloc, stack_store, stack_load, make_atomic, atomic_block, make_struct,
  struct_load_field, struct_store_field, platform_call, compare_swap, call, call_dyn, emit,
}

then-threw :
    {A B : Type 0} (m : Asm A) (f : A → Asm B) (a : Assembler)
    → m a ≡ threw is_closed a
    → (m >>= f) a ≡ threw is_closed a
then-threw m f a h = ap (λ s. elim s [ done x b ↦ f x b | threw e b ↦ threw e b ]) h

abbrev Refuses : Asm Unit → Type 0
Refuses m = (a : Assembler) → a.closed ≡ true → m a ≡ threw is_closed a

throw_if_closed-Refuses : Refuses throw_if_closed
unfolding throw_if_closed
throw_if_closed-Refuses a o = ap (λ (c : Bool). if c then threw is_closed a else done tt a) o

guarded-Refuses : (f : Unit → Asm Unit) → Refuses (throw_if_closed >>= f)
guarded-Refuses f a o = then-threw throw_if_closed f a (throw_if_closed-Refuses a o)

write_op_code-Refuses : (op : OpCode) → Refuses (write_op_code op)
unfolding write_op_code write_uint8
write_op_code-Refuses op = guarded-Refuses _

op-Refuses : (op : OpCode) (f : Unit → Asm Unit) → Refuses (write_op_code op >>= f)
op-Refuses op f a o = then-threw (write_op_code op) f a (write_op_code-Refuses op a o)

add_small_or_large-Refuses :
    (small large : OpCode) (n : ℕ) → Refuses (add_small_or_large small large n)
unfolding add_small_or_large
add_small_or_large-Refuses small large n a o = elim (Bool-cases (leb n 255)) [
  | inl e ↦ rw e (op-Refuses small (λ _. write_uint8 n) a o)
  | inr e ↦ rw e (op-Refuses large (λ _. write_uint16 n) a o)
]

add_load_lit_int-Refuses : (val : ℕ) → Refuses (add_load_lit_int val)
unfolding add_load_lit_int
add_load_lit_int-Refuses val a o = elim (Bool-cases (val == 0)) [
  | inl e ↦ rw e (write_op_code-Refuses OpCode.load_lit_int0 a o)
  | inr e ↦ elim (Bool-cases (val == 1)) [
    | inl d ↦ rw (e, d) (write_op_code-Refuses OpCode.load_lit_int1 a o)
    | inr d ↦ elim (Bool-cases (leb val 255)) [
      | inl k ↦ rw (e, d, k) (op-Refuses OpCode.load_lit_int_small (λ _. write_uint8 val) a o)
      | inr k ↦ rw (e, d, k) (op-Refuses OpCode.load_lit_int (λ _. write_uint32 val) a o)
    ]
  ]
]

-- What a refused command leaves alone.
pub record Refused (m : Asm Unit) (a : Assembler) : Type 0 where
  pub left : Assembler
  pub thrown : m a ≡ threw is_closed left
  pub same_code : left.instructions ≡ a.instructions
  pub same_labels : left.labels ≡ a.labels
  pub same_targets : left.label_targets ≡ a.label_targets

throws-Refused : (m : Asm Unit) (a : Assembler) → m a ≡ threw is_closed a → Refused m a
throws-Refused m a h = record {
  left = a;
  thrown = h;
  same_code = refl;
  same_labels = refl;
  same_targets = refl;
}

-- The literal is put into the table before the instruction is refused.
add_load_lit_string-Refused :
    (val : Bytes) (a : Assembler) → a.closed ≡ true → Refused (add_load_lit_string val) a
unfolding add_load_lit_string add_lit_string
add_load_lit_string-Refused val a o = elim (Option-cases (find val a.lit_string_lookup)) [
  | inl n ↦
      let id = length a.lit_strings % 2 ^ 32 in
      let b = record a {
        lit_strings = a.lit_strings ++ (val ∷ []);
        lit_string_lookup = a.lit_string_lookup ++ ((val, id) ∷ []);
      } in
      record {
        left = b;
        thrown =
            then-done (add_lit_string val) _ {a = a} {b = b} {x = id} (rw (add_lit_string, n) refl)
            ∙ op-Refuses OpCode.load_lit_string (λ _. write_uint32 id) b o;
        same_code = refl;
        same_labels = refl;
        same_targets = refl;
      }
  | inr (id, e) ↦ throws-Refused (add_load_lit_string val) a (
      then-done (add_lit_string val) _ {a = a} {b = a} {x = id} (rw (add_lit_string, e) refl)
      ∙ op-Refuses OpCode.load_lit_string (λ _. write_uint32 id) a o)
]

-- Every command given to a closed assembler throws that it is closed, and the code, the labels and
-- the references stay as they are.
pub emit-Refused : (c : Command) (a : Assembler) → a.closed ≡ true → Refused (emit c) a
unfolding emit add_label add_uint8 add_uint32 add_uint64 add_atomic_compare_swap add_call label
emit-Refused (place_label x) a o = throws-Refused _ a (guarded-Refuses _ a o)
emit-Refused (ip_literal x) a o = throws-Refused _ a (op-Refuses OpCode.load_lit_ip _ a o)
emit-Refused (jump x) a o = throws-Refused _ a (op-Refuses OpCode.jump _ a o)
emit-Refused (jump_if x) a o = throws-Refused _ a (op-Refuses OpCode.jump_if _ a o)
emit-Refused (long_literal x) a o = throws-Refused _ a (op-Refuses OpCode.load_lit_long _ a o)
emit-Refused (float_literal x) a o = throws-Refused _ a (op-Refuses OpCode.load_lit_float _ a o)
emit-Refused (make_atomic x) a o = throws-Refused _ a (op-Refuses OpCode.make_atomic _ a o)
emit-Refused (atomic_block x) a o = throws-Refused _ a (op-Refuses OpCode.atomic_block _ a o)
emit-Refused (make_struct x) a o = throws-Refused _ a (op-Refuses OpCode.make_struct _ a o)
emit-Refused (struct_load_field x) a o =
    throws-Refused _ a (op-Refuses OpCode.struct_load_field _ a o)
emit-Refused (struct_store_field x) a o =
    throws-Refused _ a (op-Refuses OpCode.struct_store_field _ a o)
emit-Refused (platform_call x) a o = throws-Refused _ a (op-Refuses OpCode.p_call _ a o)
emit-Refused (string_literal x) a o = add_load_lit_string-Refused x a o
emit-Refused (plain x) a o = throws-Refused _ a (write_op_code-Refuses x a o)
emit-Refused (int_literal x) a o = throws-Refused _ a (add_load_lit_int-Refuses x a o)
emit-Refused (stack_alloc x) a o =
    throws-Refused _ a
      (add_small_or_large-Refuses OpCode.stack_alloc_small OpCode.stack_alloc x a o)
emit-Refused (stack_store x) a o =
    throws-Refused _ a
      (add_small_or_large-Refuses OpCode.stack_store_small OpCode.stack_store x a o)
emit-Refused (stack_load x) a o =
    throws-Refused _ a (add_small_or_large-Refuses OpCode.stack_load_small OpCode.stack_load x a o)
emit-Refused (compare_swap x y) a o =
    throws-Refused _ a (op-Refuses OpCode.atomic_compare_swap _ a o)
emit-Refused (call x n mode) a o = throws-Refused _ a (op-Refuses (call_op mode) _ a o)
emit-Refused (call_dyn n mode) a o = throws-Refused _ a (op-Refuses (call_dyn_op mode) _ a o)
