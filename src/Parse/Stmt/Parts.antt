-- ===== src/Parse/Stmt/Parts.antt =====
-- src/parse/parser.cpp: nextTypeSubstitutionList and the loops of the declarations, with the tests that
-- type_substitution_list.cpp and node_stmt_enum_decl.cpp make. A loop gives the elements and the commas.
use novus.Base.{
  ℕ, zero, suc, List, [], ◌∷◌, Option, none, some, Bool, true, false, ◌&&◌, ◌||◌, not, length, ◌==◌,
  if◌then◌else◌,
}
use novus.Lex.Token.{TokenKind, Keyword, Token}
use novus.Parse.Tokens.{is_kind, is_kw, is_identifier, is_lit_int, is_keyword, is_end}
use novus.Parse.Syntax.{
  Types, no_types, type_and, TypeSubstitutionList, ValueSpec, EntrySpec, FieldSpec,
}
use novus.Parse.Input.{Parser, out_of_fuel, pure, ◌>>=◌, peek, consume_token}
use novus.Parse.Types.{is_possible_type_token, validate_type, commas_fit, next_type}

unfoldable pub all_of {ℓ} : {A : Type ℓ} → (A → Bool) → List A → Bool
all_of p [] = true
all_of p (x ∷ xs) = p x && all_of p xs

unfoldable pub validate_subs : TypeSubstitutionList → Bool
validate_subs l =
    is_kind TokenKind.sep_open_curly l.open_curly
    && (not (length l.subs == 0)
        && (all_of is_identifier l.subs
            && ((not l.missing_comma && commas_fit l.commas (length l.subs))
                && is_kind TokenKind.sep_close_curly l.close_curly)))

unfoldable pub subs_loop : ℕ → Parser (List Token × List Token × Bool)
subs_loop zero s = out_of_fuel
subs_loop (suc f) s =
    (do
      t ← peek
      if is_kind TokenKind.sep_close_curly t || is_end t then pure ([], [], false) else (do
        p ← consume_token
        t ← peek
        if is_kind TokenKind.sep_comma t
            then (do
              c ← consume_token
              (ps, cs, missing) ← subs_loop f
              pure (p ∷ ps, c ∷ cs, missing))
            else (do
              (ps, cs, missing) ← subs_loop f
              pure (p ∷ ps, cs, not (is_kind TokenKind.sep_close_curly t) || missing))))
      s

unfoldable pub next_type_substitution_list : ℕ → Parser TypeSubstitutionList
next_type_substitution_list f s =
    (do
      opening ← consume_token
      (subs, commas, missing) ← subs_loop f
      closing ← consume_token
      pure (record {
        open_curly = opening;
        subs = subs;
        commas = commas;
        close_curly = closing;
        missing_comma = missing;
      }))
      s

-- The substitutions, where the next token opens them.
unfoldable pub next_type_subs : ℕ → Parser (Option TypeSubstitutionList)
next_type_subs f s =
    (do
      t ← peek
      if is_kind TokenKind.sep_open_curly t
          then (do l ← next_type_substitution_list f; pure (some l))
          else pure none)
      s

unfoldable pub validate_type_subs : Option TypeSubstitutionList → Bool
validate_type_subs none = true
validate_type_subs (some l) = validate_subs l

-- noinline and implicit
unfoldable pub modifiers_loop : ℕ → Parser (List Token)
modifiers_loop zero s = out_of_fuel
modifiers_loop (suc f) s =
    (do
      t ← peek
      if is_kw Keyword.kw_noinline t || is_kw Keyword.kw_implicit t
          then (do m ← consume_token; ms ← modifiers_loop f; pure (m ∷ ms))
          else pure [])
      s

unfoldable pub fields_loop : ℕ → Parser (List FieldSpec × List Token)
fields_loop zero s = out_of_fuel
fields_loop (suc f) s =
    (do
      t ← peek
      if is_possible_type_token t || is_keyword t
          then (do
            p ← next_type f
            id ← consume_token
            t ← peek
            if is_kind TokenKind.sep_comma t
                then (do
                  c ← consume_token
                  (fs, cs) ← fields_loop f
                  pure (record { field_type = p; field_id = id } ∷ fs, c ∷ cs))
                else pure (record { field_type = p; field_id = id } ∷ [], []))
          else pure ([], []))
      s

unfoldable pub union_types_loop : ℕ → Parser (Types × List Token)
union_types_loop zero s = out_of_fuel
union_types_loop (suc f) s =
    (do
      t ← peek
      if is_possible_type_token t || is_keyword t
          then (do
            p ← next_type f
            t ← peek
            if is_kind TokenKind.sep_comma t
                then (do
                  c ← consume_token
                  (ps, cs) ← union_types_loop f
                  pure (type_and p ps, c ∷ cs))
                else pure (type_and p no_types, []))
          else pure (no_types, []))
      s

-- The value behind a `:`, or behind a `=`, which is refused later.
unfoldable pub next_value_spec : Parser (Option ValueSpec)
next_value_spec s =
    (do
      t ← peek
      if is_kind TokenKind.sep_colon t || is_kind TokenKind.op_eq t
          then (do
            colon ← consume_token
            t ← peek
            if is_kind TokenKind.op_minus t
                then (do
                  minus ← consume_token
                  value ← consume_token
                  pure (some (record { colon = colon; minus = some minus; value = value })))
                else (do
                  value ← consume_token
                  pure (some (record { colon = colon; minus = none; value = value }))))
          else pure none)
      s

unfoldable pub entries_loop : ℕ → Parser (List EntrySpec × List Token)
entries_loop zero s = out_of_fuel
entries_loop (suc f) s =
    (do
      t ← peek
      if is_identifier t
          then (do
            id ← consume_token
            value ← next_value_spec
            t ← peek
            if is_kind TokenKind.sep_comma t
                then (do
                  c ← consume_token
                  (es, cs) ← entries_loop f
                  pure (record { entry_id = id; entry_value = value } ∷ es, c ∷ cs))
                else pure (record { entry_id = id; entry_value = value } ∷ [], []))
          else pure ([], []))
      s

-- ValueSpec::validate and EntrySpec::validate
unfoldable pub validate_value : Option ValueSpec → Bool
validate_value none = true
validate_value (some v) = is_kind TokenKind.sep_colon v.colon && is_lit_int v.value

unfoldable pub validate_entry : EntrySpec → Bool
validate_entry e = is_identifier e.entry_id && validate_value e.entry_value

unfoldable pub validate_field : FieldSpec → Bool
validate_field a = is_identifier a.field_id && validate_type a.field_type
