-- ===== src/Novasm/Serialization/Format.antt =====
-- The bytes of the file format as plain lists, and what the writers of serialization.cpp append.
use novus.Base.{
  ℕ, ◌/◌, ◌%◌, ◌^◌, ◌≡◌, ap, sym, ◌∙◌, List, [], ◌∷◌, ◌++◌, append_assoc, append-nil, arith, length,
  All,
}
use novus.Novasm.Executable.{Executable, IsValid, IsByte, IsU32, IsText, Bytes}
use novus.Novasm.Serialization.{
  shebang_line, executable_format_version, write_uint8, write_uint16, write_uint32, write_raw,
  write_string, write_elems, write_set, serialize,
}

unfoldable pub le16 : ℕ → Bytes
le16 v = v % 256 ∷ v / 2 ^ 8 % 256 ∷ []

unfoldable pub le32 : ℕ → Bytes
le32 v = v % 256 ∷ v / 2 ^ 8 % 256 ∷ v / 2 ^ 16 % 256 ∷ v / 2 ^ 24 % 256 ∷ []

unfoldable pub text : Bytes → Bytes
text s = le32 (length s) ++ s

unfoldable pub texts : List Bytes → Bytes
texts [] = []
texts (s ∷ ss) = text s ++ texts ss

-- Everything behind the line break of the shebang line.
unfoldable pub contents : Executable → Bytes
contents e =
    le16 executable_format_version
    ++ (text e.compiler_version
        ++ (le32 e.entrypoint
            ++ ((le32 (length e.lit_strings) ++ texts e.lit_strings) ++ text e.instructions)))

write_uint16_lem : (v : ℕ) (out : Bytes) → write_uint16 v out ≡ out ++ le16 v
unfolding write_uint16 le16
write_uint16_lem v out = append_assoc out _ _

pub write_uint32_lem : (v : ℕ) (out : Bytes) → write_uint32 v out ≡ out ++ le32 v
unfolding write_uint32 le32
write_uint32_lem v out = simp append_assoc

pub write_raw_lem : (s out : Bytes) → All IsByte s → write_raw s out ≡ out ++ s
unfolding write_raw write_uint8
write_raw_lem [] out h = sym (append-nil out)
write_raw_lem (b ∷ s) out (hb, hs) =
    write_raw_lem s _ hs ∙ append_assoc out _ s ∙ ap (λ (t : ℕ). out ++ (t ∷ s)) (omega arith)

write_string_lem : (s out : Bytes) → IsText s → write_string s out ≡ out ++ text s
unfolding write_string text
write_string_lem s out (hs, hl) =
    rw (write_raw_lem s _ hs, write_uint32_lem, append_assoc)
      (ap (λ (t : ℕ). out ++ (le32 t ++ s)) (omega arith))

write_elems_lem :
    (ss : List Bytes) (out : Bytes)
    → All IsText ss
    → write_elems write_string ss out ≡ out ++ texts ss
unfolding write_elems texts
write_elems_lem [] out h = sym (append-nil out)
write_elems_lem (s ∷ ss) out (hs, hss) =
    write_elems_lem ss _ hss ∙ rw (write_string_lem s out hs, append_assoc)

write_set_lem :
    (ss : List Bytes) (out : Bytes)
    → All IsText ss
    → IsU32 (length ss)
    → write_set write_string ss out ≡ out ++ (le32 (length ss) ++ texts ss)
unfolding write_set
write_set_lem ss out h hl =
    write_elems_lem ss _ h
    ∙ rw (write_uint32_lem, append_assoc)
        (ap (λ (t : ℕ). out ++ (le32 t ++ texts ss)) (omega arith))

wrap32 : (n : ℕ) → IsU32 n → n % 2 ^ 32 ≡ n
wrap32 n h = omega arith

-- What `serialize` writes for a valid executable.
pub serialize-contents :
    (e : Executable) (out : Bytes)
    → IsValid e
    → serialize e out ≡ out ++ (shebang_line ++ contents e)
unfolding serialize contents write_uint16 le16 text
serialize-contents e out v =
    rw
      (
        write_raw_lem e.instructions _ v.code_text.0,
        write_uint32_lem,
        write_set_lem e.lit_strings _ v.strings_text v.strings_count,
        write_uint32_lem,
        write_string_lem e.compiler_version _ v.version_text,
        write_raw_lem shebang_line out (omega arith),
        wrap32 (length e.instructions) v.code_text.1,
      )
      (simp append_assoc)
