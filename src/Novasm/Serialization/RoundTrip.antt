-- ===== src/Novasm/Serialization/RoundTrip.antt =====
-- Reading back what was written, with whatever bytes follow.
use novus.Base.{
  ℕ, ◌+◌, ◌*◌, ◌/◌, ◌%◌, ◌^◌, ◌<◌, ◌≡◌, ap, ◌∙◌, List, [], ◌∷◌, ◌++◌, append_assoc, append-nil,
  arith, length, All, some, bit_or,
}
use novus.Base.Bits.{bit_or_shift}
use novus.Novasm.Executable.{Executable, IsValid, IsU32, IsText, Bytes}
use novus.Novasm.Serialization.{
  read_uint16, read_uint32, read_raw, read_string, read_elems, read_set, skip_line, bind_some,
  read_contents, read_executable, serialize, deserialize,
}
use novus.Novasm.Serialization.Format.{le16, le32, text, texts, contents, serialize-contents}

-- The four bytes of a word, put together by shifts and `|`.
pub bit_or_bytes :
    (a b c d : ℕ)
    → a < 256
    → b < 256
    → c < 256
    → bit_or (bit_or (bit_or a (b * 2 ^ 8)) (c * 2 ^ 16)) (d * 2 ^ 24)
      ≡ a + b * 2 ^ 8 + c * 2 ^ 16 + d * 2 ^ 24
bit_or_bytes a b c d ha hb hc =
    rw (bit_or_shift 8 a b (omega arith), bit_or_shift 16 (a + b * 2 ^ 8) c (omega arith))
      (bit_or_shift 24 (a + b * 2 ^ 8 + c * 2 ^ 16) d (omega arith))

read_uint32-le32 : (v : ℕ) (rest : Bytes) → IsU32 v → read_uint32 (le32 v ++ rest) ≡ some (v, rest)
unfolding read_uint32 le32
read_uint32-le32 v rest h =
    rw
      (bit_or_bytes (v % 256) (v / 2 ^ 8 % 256) (v / 2 ^ 16 % 256) (v / 2 ^ 24 % 256) (omega arith)
        (omega arith) (omega arith))
      (ap (λ (t : ℕ). some (t, rest)) (omega arith))

read_raw-append : (s out rest : Bytes) → read_raw (length s) out (s ++ rest) ≡ some (out ++ s, rest)
unfolding read_raw
read_raw-append [] out rest = ap (λ (t : Bytes). some (t, rest)) (rw append-nil)
read_raw-append (b ∷ s) out rest =
    read_raw-append s (out ++ (b ∷ [])) rest
    ∙ ap (λ (t : Bytes). some (t, rest)) (append_assoc out (b ∷ []) s)

read_uint32-text :
    (s rest : Bytes) → IsU32 (length s) → read_uint32 (text s ++ rest) ≡ some (length s, s ++ rest)
unfolding text
read_uint32-text s rest h = rw append_assoc (read_uint32-le32 (length s) (s ++ rest) h)

read_string-text :
    (s rest : Bytes) → IsU32 (length s) → read_string (text s ++ rest) ≡ some (s, rest)
unfolding read_string
read_string-text s rest h =
    bind_some read_uint32 _ (read_uint32-text s rest h) ∙ read_raw-append s [] rest

read_elems-texts :
    (ss acc : List Bytes) (rest : Bytes)
    → All IsText ss
    → read_elems read_string (length ss) acc (texts ss ++ rest) ≡ some (acc ++ ss, rest)
unfolding read_elems texts
read_elems-texts [] acc rest h = ap (λ (t : List Bytes). some (t, rest)) (rw append-nil)
read_elems-texts (s ∷ ss) acc rest (hs, hss) =
    rw (append_assoc, read_string-text s (texts ss ++ rest) hs.1, read_elems)
      (read_elems-texts ss (acc ++ (s ∷ [])) rest hss
        ∙ ap (λ (t : List Bytes). some (t, rest)) (append_assoc acc (s ∷ []) ss))

read_set-texts :
    (ss : List Bytes) (rest : Bytes)
    → All IsText ss
    → IsU32 (length ss)
    → read_set read_string ((le32 (length ss) ++ texts ss) ++ rest) ≡ some (ss, rest)
unfolding read_set
read_set-texts ss rest h hl = rw append_assoc (
    bind_some read_uint32 _ (read_uint32-le32 (length ss) (texts ss ++ rest) hl)
    ∙ read_elems-texts ss [] rest h)

-- The entry point, the literals and the instructions.
abbrev pub tail_of : Executable → Bytes
tail_of e =
    le32 e.entrypoint
    ++ ((le32 (length e.lit_strings) ++ texts e.lit_strings) ++ text e.instructions)

read_contents_lem :
    (e : Executable) (rest : Bytes)
    → IsValid e
    → read_contents e.compiler_version (tail_of e ++ rest) ≡ some (e, rest)
unfolding read_contents
read_contents_lem e rest v =
    rw (append_assoc, append_assoc)
      (bind_some read_uint32 _ (read_uint32-le32 e.entrypoint _ v.entry_fits)
        ∙ bind_some (read_set read_string) _
            (read_set-texts e.lit_strings _ v.strings_text v.strings_count)
        ∙ bind_some read_uint32 _ (read_uint32-text e.instructions rest v.code_text.1)
        ∙ bind_some (read_raw (length e.instructions) []) _
            (read_raw-append e.instructions [] rest))

pub read_executable-contents :
    (e : Executable) (rest : Bytes)
    → IsValid e
    → read_executable (contents e ++ rest) ≡ some (e, rest)
unfolding read_executable contents read_uint16 le16
read_executable-contents e rest v = rw append_assoc (
    bind_some read_string _ (read_string-text e.compiler_version _ v.version_text.1)
    ∙ read_contents_lem e rest v)

deserialize_step :
    (bs : Bytes) {p : Executable × Bytes}
    → read_executable (skip_line bs) ≡ some p
    → deserialize bs ≡ some p.0
unfolding deserialize
deserialize_step bs h = rw (h, deserialize)

-- A valid executable is read back from its serialized form, and bytes that follow it are ignored.
pub deserialize-serialize :
    (e : Executable) (rest : Bytes) → IsValid e → deserialize (serialize e [] ++ rest) ≡ some e
unfolding skip_line
deserialize-serialize e rest v =
    rw (serialize-contents e [] v) (deserialize_step _ (read_executable-contents e rest v))
