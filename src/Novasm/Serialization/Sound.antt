-- ===== src/Novasm/Serialization/Sound.antt =====
-- What `deserialize` accepts, and that it refuses every cut-off file.
use novus.Base.{
  ℕ, ◌≡◌, refl, ap, sym, ◌∙◌, Bool, true, false, List, [], ◌∷◌, ◌++◌, append_assoc, append-nil,
  arith, All, Option, none, some, Bool-cases, inl, inr, length, not, ◌==◌, if◌then◌else◌,
  Option-cases, ==_iff, All-append_left, ◌≢◌, All-append,
}
use mathlib.Core.Path.{subst}
use novus.Base.Bits.{bit_or_shift}
use novus.Novasm.Executable.{Executable, IsValid, IsByte, IsText, Bytes}
use novus.Novasm.Serialization.{
  executable_format_version, nullopt, read_uint16, read_uint32, read_raw, read_string, read_set,
  Reader, skip_line, read_contents, read_executable, serialize, deserialize, shebang_line,
}
use novus.Novasm.Serialization.Format.{le16, le32, text, texts, contents, serialize-contents}
use novus.Novasm.Serialization.RoundTrip.{tail_of, read_executable-contents}
use novus.Novasm.Serialization.Parsed.{
  Took, bind_elim, some_pair, read_uint32_inv, read_raw_inv, read_string_inv, read_set_inv,
}

read_uint16_inv :
    (bs rest : Bytes) (v : ℕ)
    → All IsByte bs
    → read_uint16 bs ≡ some (v, rest)
    → Took bs (le16 v) rest
unfolding read_uint16 le16
read_uint16_inv [] rest v hb h = cc
read_uint16_inv (a ∷ []) rest v hb h = cc
read_uint16_inv (a ∷ b ∷ bs) rest v (ha, (hb, hbs)) h =
    ground (arith, bit_or_shift 8 a b (omega arith))

read_text_inv :
    (bs mid rest s : Bytes) (n : ℕ)
    → All IsByte bs
    → read_uint32 bs ≡ some (n, mid)
    → read_raw n [] mid ≡ some (s, rest)
    → Took bs (text s) rest × IsText s
unfolding text
read_text_inv bs mid rest s n hb e h =
    let ((t, hm), fits) = read_uint32_inv bs mid n hb e in
    let (used, es, l, hu, (r, hr)) = read_raw_inv n [] mid rest s hm h in
    ((t ∙ rw (r, es, l) (sym (append_assoc (le32 n) used rest)), hr), (rw es hu, rw (es, l) fits))

-- What the reader of the contents states of its result.
abbrev ReadFrom : Bytes → Bytes → Bytes → Executable → Type 0
ReadFrom version bs rest e = IsValid e × (e.compiler_version ≡ version) × (bs ≡ tail_of e ++ rest)

read_contents_inv :
    (version : Bytes) (bs rest : Bytes) (e : Executable)
    → IsText version
    → All IsByte bs
    → read_contents version bs ≡ some (e, rest)
    → ReadFrom version bs rest e
unfolding read_contents
read_contents_inv version bs rest e hv hb h = bind_elim _ read_uint32 _ bs h λ n b1 e1 h1.
    let ((t1, hb1), f1) = read_uint32_inv bs b1 n hb e1 in
    bind_elim _ (read_set read_string) _ b1 h1 λ ss b2 e2 h2.
      let ((t2, hb2), fs, fc) = read_set_inv b1 b2 ss hb1 e2 in
      bind_elim _ read_uint32 _ b2 h2 λ c b3 e3 h3.
        bind_elim _ (read_raw c []) _ b3 h3 λ is b4 e4 h4.
          let ((t4, _), fi) = read_text_inv b2 b3 b4 is c hb2 e3 e4 in
          let (ee, er) = some_pair h4 in
          subst (ReadFrom version bs rest) ee (
            record {
              version_text = hv;
              entry_fits = f1;
              strings_text = fs;
              strings_count = fc;
              code_text = fi;
            },
            refl,
            t1 ∙ rw (t2, t4, er) (simp append_assoc),
          )

-- A reader behind a test reads only if the test passes.
unless_inv :
    (b : Bool) (m : Reader Executable) (bs : Bytes) {q : Executable × Bytes}
    → (if not b then nullopt else m) bs ≡ some q
    → (b ≡ true) × (m bs ≡ some q)
unless_inv true m bs h = (refl, h)
unless_inv false m bs h = cc

read_executable_inv :
    (bs rest : Bytes) (e : Executable)
    → All IsByte bs
    → read_executable bs ≡ some (e, rest)
    → IsValid e × (bs ≡ contents e ++ rest)
unfolding read_executable contents
read_executable_inv bs rest e hb h = bind_elim _ read_uint16 _ bs h λ v b1 e1 h1.
    let (t1, hb1) = read_uint16_inv bs b1 v hb e1 in
    bind_elim _ read_string _ b1 h1 λ s b2 e2 h2.
      let ((t2, hb2), hs) = read_string_inv b1 b2 s hb1 e2 in
      let (ev, h3) = unless_inv (v == executable_format_version) (read_contents s) b2 h2 in
      let (valid, es, t3) = read_contents_inv s b2 rest e hs hb2 h3 in
      let same : v ≡ executable_format_version = (==_iff v executable_format_version).0 ev in
      (valid, t1 ∙ rw (t2, t3, es, same) (simp append_assoc))

deserialize_inv :
    (bs : Bytes) {e : Executable}
    → deserialize bs ≡ some e
    → (rest : Bytes) × (read_executable (skip_line bs) ≡ some (e, rest))
unfolding deserialize
deserialize_inv bs {e} h = go (read_executable (skip_line bs)) refl
  where
    go :
        (o : Option (Executable × Bytes))
        → read_executable (skip_line bs) ≡ o
        → (rest : Bytes) × (read_executable (skip_line bs) ≡ some (e, rest))
    go none n = cc (rw (n, deserialize) at h)
    go (some (e', rest)) n =
        let same : some e' ≡ some e = rw (n, deserialize) at h in (rest, n ∙ cc)

skip_line-IsByte : (bs : Bytes) → All IsByte bs → All IsByte (skip_line bs)
unfolding skip_line
skip_line-IsByte [] h = h
skip_line-IsByte (b ∷ bs) (hb, hs) = elim (Bool-cases (b == 10)) [
  | inl e ↦ rw e hs
  | inr e ↦ rw e (skip_line-IsByte bs hs)
]

-- When a file of bytes is accepted, the executable it gives is valid, and behind its first line the
-- file holds exactly the bytes of that executable in the current format version and then bytes that
-- are ignored.
pub deserialize-contents :
    (bs : Bytes) (e : Executable)
    → All IsByte bs
    → deserialize bs ≡ some e
    → IsValid e × ((rest : Bytes) × (skip_line bs ≡ contents e ++ rest))
deserialize-contents bs e hb h =
    let (rest, r) = deserialize_inv bs h in
    let (v, t) = read_executable_inv (skip_line bs) rest e (skip_line-IsByte bs hb) r in
    (v, (rest, t))

-- Where something is left behind the line break, more input only adds to it.
skip_line-append :
    (bs more : Bytes) → skip_line bs ≢ [] → skip_line (bs ++ more) ≡ skip_line bs ++ more
unfolding skip_line
skip_line-append [] more h = absurd (h refl)
skip_line-append (b ∷ bs) more h = elim (Bool-cases (b == 10)) [
  | inl e ↦ rw e refl
  | inr e ↦ rw e (skip_line-append bs more (rw e at h))
]

contents-ne-nil : (e : Executable) (rest : Bytes) → (contents e ++ rest) ≢ []
unfolding contents le16
contents-ne-nil e rest h = cc

skip_line-serialize : (e : Executable) → IsValid e → skip_line (serialize e []) ≡ contents e
unfolding skip_line
skip_line-serialize e v = rw (serialize-contents e [] v)

text-IsByte : (s : Bytes) → IsText s → All IsByte (text s)
unfolding text le32
text-IsByte s h = All-append IsByte (le32 (length s)) s (omega arith) h.0

texts-IsByte : (ss : List Bytes) → All IsText ss → All IsByte (texts ss)
unfolding texts
texts-IsByte [] h = tt
texts-IsByte (s ∷ ss) (hs, hss) =
    All-append IsByte (text s) (texts ss) (text-IsByte s hs) (texts-IsByte ss hss)

contents-IsByte : (e : Executable) → IsValid e → All IsByte (contents e)
unfolding contents le16 le32
contents-IsByte e v =
    let strings = le32 (length e.lit_strings) ++ texts e.lit_strings in
    let tail = strings ++ text e.instructions in
    let version = text e.compiler_version in
    All-append IsByte (le16 executable_format_version) (version ++ (le32 e.entrypoint ++ tail))
      (omega arith)
      (All-append IsByte version (le32 e.entrypoint ++ tail)
        (text-IsByte e.compiler_version v.version_text)
        (All-append IsByte (le32 e.entrypoint) tail (omega arith) (
          All-append IsByte strings (text e.instructions)
            (All-append IsByte (le32 (length e.lit_strings)) (texts e.lit_strings) (omega arith)
              (texts-IsByte e.lit_strings v.strings_text))
            (text-IsByte e.instructions v.code_text))))

serialize-IsByte : (e : Executable) → IsValid e → All IsByte (serialize e [])
serialize-IsByte e v =
    rw (serialize-contents e [] v)
      (All-append IsByte shebang_line (contents e) (omega arith) (contents-IsByte e v))

append_cons-ne-nil : (xs ys : Bytes) (x : ℕ) → [] ≢ xs ++ (x ∷ ys)
append_cons-ne-nil [] ys x h = cc
append_cons-ne-nil (y ∷ xs) ys x h = cc

-- A proper prefix of a valid file that is read as an executable is impossible.
prefix_absurd :
    (e e' : Executable) (front back rest : Bytes) (x : ℕ)
    → IsValid e
    → IsValid e'
    → serialize e [] ≡ front ++ (x ∷ back)
    → skip_line front ≡ contents e' ++ rest
    → ⊥
prefix_absurd e e' front back rest x v v' cut t =
    let some_left : skip_line front ≢ [] = rw t (contents-ne-nil e' rest) in
    let whole : contents e ++ [] ≡ contents e' ++ (rest ++ (x ∷ back)) =
      append-nil (contents e)
      ∙ sym (skip_line-serialize e v)
      ∙ ap skip_line cut
      ∙ skip_line-append front (x ∷ back) some_left
      ∙ rw t (append_assoc (contents e') rest (x ∷ back)) in
    let first = read_executable-contents e [] v in
    let second = read_executable-contents e' (rest ++ (x ∷ back)) v' in
    append_cons-ne-nil rest back x (some_pair (sym first ∙ ap read_executable whole ∙ second)).1

-- A serialized valid executable that is cut off anywhere before its end is refused.
pub deserialize_truncated :
    (e : Executable) (front back : Bytes) (x : ℕ)
    → IsValid e
    → serialize e [] ≡ front ++ (x ∷ back)
    → deserialize front ≡ none
deserialize_truncated e front back x v cut = elim (Option-cases (deserialize front)) [
  | inl n ↦ n
  | inr (e', r) ↦
      let bytes =
        All-append_left IsByte front (x ∷ back) (subst (All IsByte) cut (serialize-IsByte e v)) in
      let (v', (rest, t)) = deserialize-contents front e' bytes r in
      absurd (prefix_absurd e e' front back rest x v v' cut t)
]
