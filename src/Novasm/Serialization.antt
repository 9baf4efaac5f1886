-- ===== src/Novasm/Serialization.antt =====
-- src/novasm/serialization.cpp: the executable file format. An output iterator is the list of the
-- bytes written so far; an input iterator and its end are the list of the bytes still to be read.
pub mod Format
pub mod RoundTrip
pub mod Parsed
pub mod Sound
mod Tests
use mathlib.Core.List.{foldl}
use novus.Base.{
  ℕ, zero, suc, ◌+◌, ◌*◌, ◌/◌, ◌%◌, ◌^◌, ◌≡◌, bit_or, List, [], ◌∷◌, ◌++◌, Option, none, some,
  length, ◌==◌, if◌then◌else◌, map, not,
}
use novus.Novasm.Executable.{Executable, Bytes}

-- "#!/usr/bin/env novrt\n"
abbrev pub shebang_line : Bytes
shebang_line =
    35 ∷ 33 ∷ 47 ∷ 117 ∷ 115 ∷ 114 ∷ 47 ∷ 98 ∷ 105 ∷ 110 ∷ 47 ∷ 101 ∷ 110 ∷ 118 ∷ 32 ∷ 110 ∷ 111
    ∷ 118 ∷ 114 ∷ 116 ∷ 10 ∷ []

abbrev pub executable_format_version : ℕ
executable_format_version = 20

-- The parameter type uint8_t keeps the low byte.
unfoldable pub write_uint8 : ℕ → Bytes → Bytes
write_uint8 val out = out ++ (val % 256 ∷ [])

unfoldable pub write_uint16 : ℕ → Bytes → Bytes
unfolding write_uint8
write_uint16 val out = let o1 = write_uint8 val out in write_uint8 (val / 2 ^ 8) o1

unfoldable pub write_uint32 : ℕ → Bytes → Bytes
unfolding write_uint8
write_uint32 val out =
    let o1 = write_uint8 val out in
    let o2 = write_uint8 (val / 2 ^ 8) o1 in
    let o3 = write_uint8 (val / 2 ^ 16) o2 in write_uint8 (val / 2 ^ 24) o3

unfoldable pub write_raw : Bytes → Bytes → Bytes
write_raw [] out = out
write_raw (b ∷ bs) out = write_raw bs (write_uint8 b out)

-- The length is passed as uint32_t.
unfoldable pub write_string : Bytes → Bytes → Bytes
write_string str out = write_raw str (write_uint32 (length str % 2 ^ 32) out)

module _ {A : Type 0} (writer : A → Bytes → Bytes) where
  unfoldable pub write_elems : List A → Bytes → Bytes
  write_elems [] out = out
  write_elems (x ∷ xs) out = write_elems xs (writer x out)

  unfoldable pub write_set : List A → Bytes → Bytes
  write_set xs out = write_elems xs (write_uint32 (length xs % 2 ^ 32) out)

unfoldable pub serialize : Executable → Bytes → Bytes
serialize e out =
    let o1 = write_raw shebang_line out in
    let o2 = write_uint16 executable_format_version o1 in
    let o3 = write_string e.compiler_version o2 in
    let o4 = write_uint32 e.entrypoint o3 in
    let o5 = write_set write_string e.lit_strings o4 in
    let o6 = write_uint32 (length e.instructions % 2 ^ 32) o5 in write_raw e.instructions o6

-- A reader gives its value and what is left of the input, or std::nullopt.
abbrev pub Reader : Type 0 → Type 0
Reader A = Bytes → Option (A × Bytes)

infixl 5 ◌>>=◌
abbrev pub ◌>>=◌ : {A B : Type 0} → Reader A → (A → Reader B) → Reader B
◌>>=◌ m f bs = elim (m bs) [ none ↦ none | some (a, rest) ↦ f a rest ]

abbrev pub pure : {A : Type 0} → A → Reader A
pure a bs = some (a, bs)

abbrev pub nullopt : {A : Type 0} → Reader A
nullopt bs = none

-- A reader that succeeds hands its value and the rest on.
pub bind_some :
    {A B : Type 0} (m : Reader A) (f : A → Reader B) {bs rest : Bytes} {a : A}
    → m bs ≡ some (a, rest)
    → (m >>= f) bs ≡ f a rest
bind_some m f h = rw (h, ◌>>=◌)

unfoldable pub read_uint8 : Reader ℕ
read_uint8 [] = none
read_uint8 (b ∷ bs) = some (b, bs)

unfoldable pub read_uint16 : Reader ℕ
unfolding read_uint8
read_uint16 = do a ← read_uint8; b ← read_uint8; pure (bit_or a (b * 2 ^ 8))

unfoldable pub read_uint32 : Reader ℕ
unfolding read_uint8
read_uint32 = do
  a ← read_uint8
  b ← read_uint8
  c ← read_uint8
  d ← read_uint8
  pure (bit_or (bit_or (bit_or a (b * 2 ^ 8)) (c * 2 ^ 16)) (d * 2 ^ 24))

-- The loop of readRaw over the bytes still wanted, with the output iterator's contents.
unfoldable pub read_raw : ℕ → Bytes → Reader Bytes
read_raw zero out bs = some (out, bs)
read_raw (suc n) out [] = none
read_raw (suc n) out (b ∷ bs) = read_raw n (out ++ (b ∷ [])) bs

unfoldable pub read_string : Reader Bytes
read_string = do size ← read_uint32; read_raw size []

module _ {A : Type 0} (reader : Reader A) where
  -- The loop of readSet, with the elements pushed so far.
  unfoldable pub read_elems : ℕ → List A → Reader (List A)
  read_elems zero result bs = some (result, bs)
  read_elems (suc n) result bs = elim (reader bs) [
    | none ↦ none
    | some (x, rest) ↦ read_elems n (result ++ (x ∷ [])) rest
  ]

  unfoldable pub read_set : Reader (List A)
  read_set = do size ← read_uint32; read_elems size []

unfoldable pub skip_line : Bytes → Bytes
skip_line [] = []
skip_line (b ∷ bs) = let rest = skip_line bs in if b == 10 then bs else rest

-- The part of `deserialize` behind the check of the format version.
unfoldable pub read_contents : Bytes → Reader Executable
read_contents compiler_version = do
  entrypoint ← read_uint32
  lit_strings ← read_set read_string
  count ← read_uint32
  instructions ← read_raw count []
  pure (record {
    compiler_version = compiler_version;
    entrypoint = entrypoint;
    lit_strings = lit_strings;
    instructions = instructions;
  })

-- The version is tested after the compiler version has been read.
unfoldable pub read_executable : Reader Executable
read_executable = do
  format_version ← read_uint16
  compiler_version ← read_string
  if not (format_version == executable_format_version)
      then nullopt
      else read_contents compiler_version

-- What follows the instructions is not looked at.
unfoldable pub deserialize : Bytes → Option Executable
deserialize bs = elim (read_executable (skip_line bs)) [ none ↦ none | some (e, _) ↦ some e ]
