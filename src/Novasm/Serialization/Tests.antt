-- ===== src/Novasm/Serialization/Tests.antt =====
-- Runs of the file format on small executables, and the theorems at concrete inputs.
use novus.Base.{◌≡◌, refl, ◌∷◌, [], ◌++◌, none, some, arith, codes}
use novus.Novasm.Executable.{Executable, IsValid, Bytes}
use novus.Novasm.Serialization.{
  write_uint16, write_uint32, write_raw, write_string, write_elems, write_set, serialize,
  read_uint16, read_uint32, read_raw, read_string, read_elems, read_set, skip_line, read_contents,
  read_executable, deserialize, shebang_line,
}
use novus.Novasm.Serialization.Format.{contents}
use novus.Novasm.Serialization.RoundTrip.{deserialize-serialize}
use novus.Novasm.Serialization.Sound.{deserialize-contents, deserialize_truncated}

abbrev sample : Executable
sample = record {
  compiler_version = codes "0.3";
  entrypoint = 1;
  lit_strings = codes "hi" ∷ [] ∷ [];
  instructions = 238 ∷ 12 ∷ 238 ∷ [];
}

sample-IsValid : IsValid sample
sample-IsValid = omega arith

abbrev front_bytes : Bytes
front_bytes =
    20 ∷ 0 ∷ 3 ∷ 0 ∷ 0 ∷ 0 ∷ 48 ∷ 46 ∷ 51 ∷ 1 ∷ 0 ∷ 0 ∷ 0 ∷ 2 ∷ 0 ∷ 0 ∷ 0 ∷ 2 ∷ 0 ∷ 0 ∷ 0 ∷ 104
    ∷ 105 ∷ 0 ∷ 0 ∷ 0 ∷ 0 ∷ 3 ∷ 0 ∷ 0 ∷ 0 ∷ 238 ∷ 12 ∷ []

serialize-sample : serialize sample [] ≡ (shebang_line ++ front_bytes) ++ (238 ∷ [])
unfolding serialize write_uint16 write_uint32 write_raw write_string write_elems write_set
serialize-sample = refl

read_sample : deserialize (shebang_line ++ (front_bytes ++ (238 ∷ 7 ∷ []))) ≡ some sample
unfolding deserialize read_executable read_contents read_uint16 read_uint32 read_raw read_string
    read_elems read_set skip_line
read_sample = refl

-- Another format version is refused.
other_version : deserialize (10 ∷ 21 ∷ 0 ∷ 0 ∷ 0 ∷ 0 ∷ 0 ∷ []) ≡ none
unfolding deserialize read_executable read_uint16 read_string read_uint32 read_raw skip_line
other_version = refl

deserialize-serialize_example : deserialize (serialize sample [] ++ (1 ∷ 2 ∷ [])) ≡ some sample
deserialize-serialize_example = deserialize-serialize sample (1 ∷ 2 ∷ []) sample-IsValid

deserialize-contents_example :
    IsValid sample
    × ((rest : Bytes) × (skip_line (shebang_line ++ (front_bytes ++ (238 ∷ 7 ∷ [])))
          ≡ contents sample ++ rest))
deserialize-contents_example =
    deserialize-contents (shebang_line ++ (front_bytes ++ (238 ∷ 7 ∷ []))) sample (omega arith)
      read_sample

deserialize_truncated_example : deserialize (shebang_line ++ front_bytes) ≡ none
deserialize_truncated_example =
    deserialize_truncated sample (shebang_line ++ front_bytes) [] 238 sample-IsValid
      serialize-sample
