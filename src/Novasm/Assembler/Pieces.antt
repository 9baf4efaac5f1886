-- ===== src/Novasm/Assembler/Pieces.antt =====
-- The code as pieces, of which some are references to labels, and what an operation that adds pieces
-- does to the assembler.
use novus.Base.{
  ℕ, ◌+◌, ◌/◌, ◌%◌, ◌^◌, ◌≡◌, refl, sym, ap, ◌∙◌, arith, List, [], ◌∷◌, ◌++◌, append_assoc,
  append-nil, Bool, false, length, length-append, if◌then◌else◌,
}
use novus.Novasm.Executable.{Bytes}
use novus.Novasm.OpCode.{OpCode, byte_of}
use novus.Novasm.Assembler.{
  Assembler, Asm, done, threw, is_closed, ◌>>=◌, throw_if_closed, push_back, write_uint8,
  write_uint16, write_uint32, write_uint64, write_op_code, write_ip_offset, bytes32,
}

pub data Piece : Type 0 where
  bytes : Bytes → Piece
  ref : Bytes → Piece

-- The pieces with the dummy offset for each reference.
unfoldable pub holes : List Piece → Bytes
holes [] = []
holes (bytes bs ∷ ps) = bs ++ holes ps
holes (ref name ∷ ps) = (255 ∷ 255 ∷ 255 ∷ 255 ∷ []) ++ holes ps

unfoldable pub size : List Piece → ℕ
size [] = 0
size (bytes bs ∷ ps) = length bs + size ps
size (ref name ∷ ps) = 4 + size ps

-- Where the references stand in code that begins at `at`.
unfoldable pub targets : ℕ → List Piece → List (Bytes × ℕ)
targets at [] = []
targets at (bytes bs ∷ ps) = targets (at + length bs) ps
targets at (ref name ∷ ps) = (name, at % 2 ^ 32) ∷ targets (at + 4) ps

pub length-holes : (ps : List Piece) → length (holes ps) ≡ size ps
unfolding holes size
length-holes [] = refl
length-holes (bytes bs ∷ ps) =
    length-append bs (holes ps) ∙ ap (λ (n : ℕ). length bs + n) (length-holes ps)
length-holes (ref name ∷ ps) = omega (arith, length-holes ps)

pub holes-append : (ps qs : List Piece) → holes (ps ++ qs) ≡ holes ps ++ holes qs
unfolding holes
holes-append [] qs = refl
holes-append (bytes bs ∷ ps) qs =
    ap (λ t. bs ++ t) (holes-append ps qs) ∙ sym (append_assoc bs (holes ps) (holes qs))
holes-append (ref name ∷ ps) qs = ap (λ (t : Bytes). 255 ∷ 255 ∷ 255 ∷ 255 ∷ t) (holes-append ps qs)

pub size-append : (ps qs : List Piece) → size (ps ++ qs) ≡ size ps + size qs
unfolding size
size-append [] qs = omega arith
size-append (bytes bs ∷ ps) qs = omega (arith, size-append ps qs)
size-append (ref name ∷ ps) qs = omega (arith, size-append ps qs)

pub targets-append :
    (ps qs : List Piece) (at : ℕ)
    → targets at (ps ++ qs) ≡ targets at ps ++ targets (at + size ps) qs
unfolding targets size
targets-append [] qs at = ap (λ (n : ℕ). targets n qs) (omega arith)
targets-append (bytes bs ∷ ps) qs at =
    targets-append ps qs (at + length bs)
    ∙ ap (λ (n : ℕ). targets (at + length bs) ps ++ targets n qs) (omega arith)
targets-append (ref name ∷ ps) qs at =
    ap (λ t. (name, at % 2 ^ 32) ∷ t)
      (targets-append ps qs (at + 4)
        ∙ ap (λ (n : ℕ). targets (at + 4) ps ++ targets n qs) (omega arith))

-- The assembler with pieces added at the end of the code.
unfoldable pub extend : List Piece → Assembler → Assembler
extend ps a = record a {
  instructions = a.instructions ++ holes ps;
  label_targets = a.label_targets ++ targets (length a.instructions) ps;
}

pub extend-append :
    (ps qs : List Piece) (a : Assembler) → extend qs (extend ps a) ≡ extend (ps ++ qs) a
unfolding extend
extend-append ps qs a =
    rw
      (
        holes-append ps qs,
        targets-append ps qs (length a.instructions),
        length-append a.instructions (holes ps),
        length-holes ps,
        append_assoc a.instructions (holes ps) (holes qs),
        append_assoc a.label_targets (targets (length a.instructions) ps)
            (targets (length a.instructions + size ps) qs),
      )
      refl

-- An operation that adds the pieces to an assembler that is open.
abbrev pub Adds : Asm Unit → List Piece → Type 0
Adds m ps = (a : Assembler) → a.closed ≡ false → m a ≡ done tt (extend ps a)

pub then-done :
    {A B : Type 0} (m : Asm A) (f : A → Asm B) {a b : Assembler} {x : A}
    → m a ≡ done x b
    → (m >>= f) a ≡ f x b
then-done m f h = ap (λ s. elim s [ done x b ↦ f x b | threw e b ↦ threw e b ]) h

pub throw_if_closed_open : (a : Assembler) → a.closed ≡ false → throw_if_closed a ≡ done tt a
unfolding throw_if_closed
throw_if_closed_open a o = ap (λ (c : Bool). if c then threw is_closed a else done tt a) o

pub Adds-then :
    (m n : Asm Unit) (ps qs : List Piece) → Adds m ps → Adds n qs → Adds (m >>= λ _. n) (ps ++ qs)
unfolding extend
Adds-then m n ps qs h k a o =
    then-done m (λ _. n) (h a o)
    ∙ (k (extend ps a) o ∙ ap (λ (b : Assembler). done tt b) (extend-append ps qs a))

extend_bytes :
    (bs : Bytes) (a : Assembler)
    → record a { instructions = a.instructions ++ bs } ≡ extend (bytes bs ∷ []) a
unfolding extend holes targets
extend_bytes bs a = rw (append-nil bs, append-nil a.label_targets) refl

pub push_back-Adds : (bs : Bytes) → Adds (throw_if_closed >>= λ _. push_back bs) (bytes bs ∷ [])
unfolding push_back
push_back-Adds bs a o =
    then-done throw_if_closed (λ _. push_back bs) (throw_if_closed_open a o)
    ∙ ap (λ (b : Assembler). done tt b) (extend_bytes bs a)

pub write_uint8-Adds : (val : ℕ) → Adds (write_uint8 val) (bytes (val % 256 ∷ []) ∷ [])
unfolding write_uint8
write_uint8-Adds val = push_back-Adds (val % 256 ∷ [])

pub write_uint16-Adds :
    (val : ℕ) → Adds (write_uint16 val) (bytes (val % 256 ∷ val / 2 ^ 8 % 256 ∷ []) ∷ [])
unfolding write_uint16
write_uint16-Adds val = push_back-Adds (val % 256 ∷ val / 2 ^ 8 % 256 ∷ [])

pub write_uint32-Adds : (val : ℕ) → Adds (write_uint32 val) (bytes (bytes32 val) ∷ [])
unfolding write_uint32
write_uint32-Adds val = push_back-Adds (bytes32 val)

pub write_uint64-Adds :
    (val : ℕ) → Adds (write_uint64 val) (bytes (bytes32 val ++ bytes32 (val / 2 ^ 32)) ∷ [])
unfolding write_uint64
write_uint64-Adds val = push_back-Adds (bytes32 val ++ bytes32 (val / 2 ^ 32))

pub write_op_code-Adds :
    (op : OpCode) → Adds (write_op_code op) (bytes (byte_of op % 256 ∷ []) ∷ [])
unfolding write_op_code
write_op_code-Adds op = write_uint8-Adds (byte_of op)

pub write_ip_offset-Adds : (name : Bytes) → Adds (write_ip_offset name) (ref name ∷ [])
unfolding write_ip_offset extend holes targets
write_ip_offset-Adds name a o = then-done throw_if_closed _ (throw_if_closed_open a o)
