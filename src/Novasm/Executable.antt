-- ===== src/Novasm/Executable.antt =====
-- include/novasm/executable.hpp, src/novasm/executable.cpp: the in-memory executable. A byte is a
-- native number, a string or a vector is a list.
use novus.Base.{ℕ, ◌<◌, ◌^◌, List, All, length}

abbrev pub IsByte : ℕ → Type 0
IsByte b = b < 256

abbrev pub IsU32 : ℕ → Type 0
IsU32 n = n < 2 ^ 32

abbrev pub Bytes : Type 0
Bytes = List ℕ

pub record Executable : Type 0 where
  pub compiler_version : Bytes
  pub entrypoint : ℕ
  pub lit_strings : List Bytes
  pub instructions : Bytes

-- A string whose length the format can record.
abbrev pub IsText : Bytes → Type 0
IsText s = All IsByte s × IsU32 (length s)

-- What the types of the fields guarantee, and sizes that fit the 32-bit counters of the format.
pub record IsValid (e : Executable) : Type 0 where
  pub version_text : IsText e.compiler_version
  pub entry_fits : IsU32 e.entrypoint
  pub strings_text : All IsText e.lit_strings
  pub strings_count : IsU32 (length e.lit_strings)
  pub code_text : IsText e.instructions
