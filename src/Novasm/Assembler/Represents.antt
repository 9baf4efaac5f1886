-- ===== src/Novasm/Assembler/Represents.antt =====
-- What the assembler has been given, as an image, is kept by each operation that is not plain code.
use novus.Base.{
  ℕ, ◌+◌, ◌%◌, ◌^◌, ◌≡◌, refl, sym, ap, ◌∙◌, arith, List, [], ◌∷◌, ◌++◌, Option, none, some, false,
  length, Option-cases, inl, inr,
}
use novus.Novasm.Executable.{Bytes}
use novus.Novasm.OpCode
use novus.Novasm.Assembler.{
  Assembler, Asm, done, threw, label_exists, find, throw_if_closed, label, get_current_ip_offset,
  add_lit_string, add_load_lit_string, add_uint32,
}
use novus.Novasm.Assembler.Pieces.{
  Piece, holes, targets, extend, length-holes, holes-append, targets-append, then-done,
  throw_if_closed_open,
}
use novus.Novasm.Assembler.Commands.{
  place_label, string_literal, emit, code, numbered, index_of, with_literal, Image, place,
}
use novus.Novasm.Assembler.Emits.{add_uint32-Adds}

-- The assembler has been given what the image holds.
pub record Represents (a : Assembler) (im : Image) : Type 0 where
  pub same_version : a.compiler_version ≡ im.version
  pub is_open : a.closed ≡ false
  pub same_code : a.instructions ≡ holes im.pieces
  pub same_targets : a.label_targets ≡ targets 0 im.pieces
  pub same_labels : a.labels ≡ im.offsets
  pub same_literals : a.lit_strings ≡ im.literals
  pub same_lookup : a.lit_string_lookup ≡ numbered 0 im.literals

pub extend-Represents :
    (a : Assembler) (qs : List Piece) (im : Image)
    → Represents a im
    → Represents (extend qs a) (record im { pieces = im.pieces ++ qs })
unfolding extend
extend-Represents a qs im r = record {
  same_version = r.same_version;
  is_open = r.is_open;
  same_code = ap (λ t. t ++ holes qs) r.same_code ∙ sym (holes-append im.pieces qs);
  same_targets =
      ap (λ t. t ++ targets (length a.instructions) qs) r.same_targets
      ∙ ap (λ (n : ℕ). targets 0 im.pieces ++ targets n qs)
          (ap length r.same_code ∙ length-holes im.pieces ∙ omega arith)
      ∙ sym (targets-append im.pieces qs 0);
  same_labels = r.same_labels;
  same_literals = r.same_literals;
  same_lookup = r.same_lookup;
}

numbered-append :
    (xs : List Bytes) (k : ℕ) (x : Bytes)
    → numbered k (xs ++ (x ∷ [])) ≡ numbered k xs ++ ((x, (k + length xs) % 2 ^ 32) ∷ [])
unfolding numbered
numbered-append [] k x = ap (λ (n : ℕ). (x, n % 2 ^ 32) ∷ []) (omega arith)
numbered-append (y ∷ xs) k x =
    ap (λ t. (y, k % 2 ^ 32) ∷ t)
      (numbered-append xs (k + 1) x
        ∙ ap (λ (n : ℕ). numbered (k + 1) xs ++ ((x, n % 2 ^ 32) ∷ [])) (omega arith))

-- What one operation leaves.
abbrev pub Leaves : {A : Type 0} → Asm A → Assembler → A → Image → Type 0
Leaves m a x im = (b : Assembler) × (m a ≡ done x b) × Represents b im

label_free :
    (a : Assembler) (name : Bytes)
    → a.closed ≡ false
    → find name a.labels ≡ none
    → label name a
      ≡ done tt (record a { labels = a.labels ++ ((name, get_current_ip_offset a) ∷ []) })
unfolding label
label_free a name o n =
    then-done throw_if_closed _ {a = a} (throw_if_closed_open a o)
    ∙ ap
        (λ (r : Option ℕ). elim r [
          | some _ ↦ threw label_exists a
          | none ↦
              done tt (record a { labels = a.labels ++ ((name, get_current_ip_offset a) ∷ []) })
        ])
        n

pub label-Represents :
    (a : Assembler) (name : Bytes) (im : Image)
    → Represents a im
    → find name im.offsets ≡ none
    → Leaves (label name) a tt (place (place_label name) im)
unfolding place
label-Represents a name im r n = (
  record a { labels = a.labels ++ ((name, get_current_ip_offset a) ∷ []) },
  label_free a name r.is_open (ap (find name) r.same_labels ∙ n),
  record {
    same_version = r.same_version;
    is_open = r.is_open;
    same_code = r.same_code;
    same_targets = r.same_targets;
    same_labels =
        ap (λ t. t ++ ((name, get_current_ip_offset a) ∷ [])) r.same_labels
        ∙ ap (λ (n : ℕ). im.offsets ++ ((name, n % 2 ^ 32) ∷ []))
            (ap length r.same_code ∙ length-holes im.pieces);
    same_literals = r.same_literals;
    same_lookup = r.same_lookup;
  },
)

add_lit_string-Represents :
    (a : Assembler) (val : Bytes) (im : Image)
    → Represents a im
    → Leaves
        (add_lit_string val)
        a
        (index_of val im.literals)
        (record im { literals = with_literal val im.literals })
unfolding add_lit_string index_of with_literal
add_lit_string-Represents a val im r = elim (Option-cases (find val (numbered 0 im.literals))) [
  | inl n ↦
      rw (index_of, with_literal, n)
        (
          record a {
            lit_strings = a.lit_strings ++ (val ∷ []);
            lit_string_lookup = a.lit_string_lookup ++ ((val, length a.lit_strings % 2 ^ 32) ∷ []);
          },
          rw (add_lit_string, ap (find val) r.same_lookup ∙ n)
              (ap
                (λ (k : ℕ). done (k % 2 ^ 32) (record a {
                  lit_strings = a.lit_strings ++ (val ∷ []);
                  lit_string_lookup =
                      a.lit_string_lookup ++ ((val, length a.lit_strings % 2 ^ 32) ∷ []);
                }))
                (ap length r.same_literals)),
          record {
            same_version = r.same_version;
            is_open = r.is_open;
            same_code = r.same_code;
            same_targets = r.same_targets;
            same_labels = r.same_labels;
            same_literals = ap (λ t. t ++ (val ∷ [])) r.same_literals;
            same_lookup =
                ap (λ t. t ++ ((val, length a.lit_strings % 2 ^ 32) ∷ [])) r.same_lookup
                ∙ ap (λ (k : ℕ). numbered 0 im.literals ++ ((val, k % 2 ^ 32) ∷ []))
                    (ap length r.same_literals ∙ omega arith)
                ∙ sym (numbered-append im.literals 0 val);
          },
        )
  | inr (id, e) ↦
      rw (index_of, with_literal, e)
        (a, rw (add_lit_string, ap (find val) r.same_lookup ∙ e) refl, r)
]

pub emit_string-Represents :
    (a : Assembler) (val : Bytes) (im : Image)
    → Represents a im
    → Leaves (emit (string_literal val)) a tt (place (string_literal val) im)
unfolding emit add_load_lit_string place code add_uint32
emit_string-Represents a val im r =
    let (b, s, q) = add_lit_string-Represents a val im r in
    let id = index_of val im.literals in
    let added = code im.literals (string_literal val) in
    (
      extend added b,
      then-done (add_lit_string val) _ {a = a} s
          ∙ add_uint32-Adds OpCode.load_lit_string id b q.is_open,
      extend-Represents b added (record im { literals = with_literal val im.literals }) q,
    )
