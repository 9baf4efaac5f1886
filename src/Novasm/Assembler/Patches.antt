-- ===== src/Novasm/Assembler/Patches.antt =====
-- `close` fills every dummy offset with the offset of its label, and nothing else.
use novus.Base.{
  ℕ, zero, suc, ◌+◌, ◌/◌, ◌%◌, ◌^◌, ◌<◌, ◌≡◌, refl, sym, ap, ◌∙◌, arith, List, [], ◌∷◌, ◌++◌,
  append_assoc, Option, none, some, true, false, length, length-append,
}
use novus.Novasm.Executable.{Bytes, Executable}
use novus.Novasm.Assembler.{
  Assembler, done, threw, no_label, throw_if_closed, bytes32, find, set_at, patch, patch_loop,
  patch_labels, finish, close,
}
use novus.Novasm.Assembler.Pieces.{
  Piece, bytes, ref, holes, size, targets, then-done, throw_if_closed_open,
}

-- The code with the offsets of the labels.
unfoldable pub fill : List (Bytes × ℕ) → List Piece → Bytes
fill labels [] = []
fill labels (bytes bs ∷ ps) = bs ++ fill labels ps
fill labels (ref name ∷ ps) =
    elim (find name labels) [ none ↦ [] | some offset ↦ bytes32 offset ] ++ fill labels ps

-- Every reference has its label.
abbrev pub Resolved : List (Bytes × ℕ) → List Piece → Type 0
Resolved labels [] = Unit
Resolved labels (bytes bs ∷ ps) = Resolved labels ps
Resolved labels (ref name ∷ ps) =
    ((offset : ℕ) × (find name labels ≡ some offset)) × Resolved labels ps

set_at-append :
    (pre bs : Bytes) (k val n : ℕ)
    → n ≡ length pre + k
    → set_at n val (pre ++ bs) ≡ pre ++ set_at k val bs
unfolding set_at
set_at-append [] bs k val n e = ap (λ (m : ℕ). set_at m val bs) (e ∙ omega arith)
set_at-append (b ∷ pre) bs k val zero e = absurd (omega (arith, e))
set_at-append (b ∷ pre) bs k val (suc n) e =
    ap (λ t. b ∷ t) (set_at-append pre bs k val n (omega (arith, e)))

patch-append :
    (pre bs : Bytes) (offset : ℕ)
    → patch (length pre) offset (pre ++ (255 ∷ 255 ∷ 255 ∷ 255 ∷ bs))
      ≡ pre ++ (bytes32 offset ++ bs)
unfolding patch bytes32 set_at
patch-append pre bs offset =
    rw
      (
        set_at-append pre (255 ∷ 255 ∷ 255 ∷ 255 ∷ bs) 0 (offset % 256) (length pre) (omega arith),
        set_at-append pre (offset % 256 ∷ 255 ∷ 255 ∷ 255 ∷ bs) 1 (offset / 2 ^ 8 % 256)
            (length pre + 1) refl,
        set_at-append pre (offset % 256 ∷ offset / 2 ^ 8 % 256 ∷ 255 ∷ 255 ∷ bs) 2
            (offset / 2 ^ 16 % 256) (length pre + 2) refl,
        set_at-append pre (offset % 256 ∷ offset / 2 ^ 8 % 256 ∷ offset / 2 ^ 16 % 256 ∷ 255 ∷ bs) 3
            (offset / 2 ^ 24 % 256) (length pre + 3) refl,
      )
      refl

length-bytes32 : (v : ℕ) → length (bytes32 v) ≡ 4
unfolding bytes32
length-bytes32 v = refl

patch_loop_found :
    (labels : List (Bytes × ℕ)) (name : Bytes) (at offset : ℕ) (rest : List (Bytes × ℕ))
    (bs : Bytes)
    → find name labels ≡ some offset
    → patch_loop labels ((name, at) ∷ rest) bs ≡ patch_loop labels rest (patch at offset bs)
unfolding patch_loop
patch_loop_found labels name at offset rest bs e = rw (patch_loop, e) refl

fill_found :
    (labels : List (Bytes × ℕ)) (name : Bytes) (offset : ℕ) (ps : List Piece)
    → find name labels ≡ some offset
    → fill labels (ref name ∷ ps) ≡ bytes32 offset ++ fill labels ps
unfolding fill
fill_found labels name offset ps e = rw e refl

-- The loop over code whose first part is done.
patch_loop-fill :
    (labels : List (Bytes × ℕ)) (ps : List Piece) (pre : Bytes) (n : ℕ)
    → n ≡ length pre
    → Resolved labels ps
    → n + size ps < 2 ^ 32
    → patch_loop labels (targets n ps) (pre ++ holes ps) ≡ (pre ++ fill labels ps, none)
unfolding patch_loop targets holes fill size
patch_loop-fill labels [] pre n q r l = refl
patch_loop-fill labels (bytes bs ∷ ps) pre n q r l =
    let rest =
      patch_loop-fill labels ps (pre ++ bs) (n + length bs) (omega (arith, q, length-append pre bs))
        r (omega (arith, l)) in
    ap (patch_loop labels (targets (n + length bs) ps)) (sym (append_assoc pre bs (holes ps)))
    ∙ rest
    ∙ ap (λ (t : Bytes). (t, none)) (append_assoc pre bs (fill labels ps))
patch_loop-fill labels (ref name ∷ ps) pre n q ((offset, e), r) l =
    let rest =
      patch_loop-fill labels ps (pre ++ bytes32 offset) (n + 4)
        (omega (arith, q, length-append pre (bytes32 offset), length-bytes32 offset)) r
        (omega (arith, l)) in
    let place : n % 2 ^ 32 ≡ length pre = omega (arith, q, l) in
    let tail : List (Bytes × ℕ) = targets (n + 4) ps in
    patch_loop_found labels name (n % 2 ^ 32) offset tail (pre ++ holes (ref name ∷ ps)) e
    ∙ ap (λ (m : ℕ). patch_loop labels tail (patch m offset (pre ++ holes (ref name ∷ ps)))) place
    ∙ ap (patch_loop labels tail)
        (patch-append pre (holes ps) offset ∙ sym (append_assoc pre (bytes32 offset) (holes ps)))
    ∙ rest
    ∙ ap (λ (t : Bytes). (t, none))
        (append_assoc pre (bytes32 offset) (fill labels ps)
          ∙ ap (λ t. pre ++ t) (sym (fill_found labels name offset ps e)))

pub length-fill :
    (labels : List (Bytes × ℕ)) (ps : List Piece)
    → Resolved labels ps
    → length (fill labels ps) ≡ size ps
unfolding fill size
length-fill labels [] r = refl
length-fill labels (bytes bs ∷ ps) r =
    omega (arith, length-append bs (fill labels ps), length-fill labels ps r)
length-fill labels (ref name ∷ ps) ((offset, e), r) =
    ap length (fill_found labels name offset ps e)
    ∙ omega (
      arith,
      length-append (bytes32 offset) (fill labels ps),
      length-bytes32 offset,
      length-fill labels ps r,
    )

patch_labels-fill :
    (a : Assembler) (ps : List Piece)
    → a.instructions ≡ holes ps
    → a.label_targets ≡ targets 0 ps
    → Resolved a.labels ps
    → size ps < 2 ^ 32
    → patch_labels a ≡ done tt (record a { instructions = fill a.labels ps })
unfolding patch_labels
patch_labels-fill a ps i t r l =
    ap
      (λ (p : Bytes × Option Bytes).
        let (bs, missing) = p in
        elim missing [
          | none ↦ done tt (record a { instructions = bs })
          | some name ↦ threw (no_label name) (record a { instructions = bs })
        ])
      (ap (λ x. patch_loop a.labels x a.instructions) t
        ∙ ap (patch_loop a.labels (targets 0 ps)) i
        ∙ patch_loop-fill a.labels ps [] 0 refl r (omega (arith, l)))

finish_found :
    (a : Assembler) (offset : ℕ)
    → find a.entrypoint_label a.labels ≡ some offset
    → finish a
      ≡ done
          (record {
            compiler_version = a.compiler_version;
            entrypoint = offset;
            lit_strings = a.lit_strings;
            instructions = a.instructions;
          })
          (record a { lit_strings = []; instructions = [] })
unfolding finish
finish_found a offset e = rw (finish, e) refl

-- The executable with the labels' offsets in the code.
abbrev pub executable : Assembler → ℕ → List Piece → Executable
executable a entrypoint ps = record {
  compiler_version = a.compiler_version;
  entrypoint = entrypoint;
  lit_strings = a.lit_strings;
  instructions = fill a.labels ps;
}

-- An open assembler whose code is the pieces, with every reference resolved, an entrypoint that has a
-- label and less than 2 ^ 32 bytes, closes to an executable whose code is the pieces with the offsets
-- of the labels.
pub close-fill :
    (a : Assembler) (ps : List Piece) (entrypoint : ℕ)
    → a.closed ≡ false
    → a.instructions ≡ holes ps
    → a.label_targets ≡ targets 0 ps
    → Resolved a.labels ps
    → size ps < 2 ^ 32
    → find a.entrypoint_label a.labels ≡ some entrypoint
    → (b : Assembler) × (close a ≡ done (executable a entrypoint ps) b)
unfolding close
close-fill a ps entrypoint o i t r l e =
    let b = record a { closed = true } in
    let c = record a { closed = true; instructions = fill a.labels ps } in
    (
      record c { lit_strings = []; instructions = [] },
      then-done throw_if_closed _ {a = a} (throw_if_closed_open a o)
          ∙ then-done (λ (a : Assembler). patch_labels (record a { closed = true })) (λ _. finish)
              {a = a} (patch_labels-fill b ps i t r l)
          ∙ finish_found c entrypoint e,
    )
