-- ===== src/Parse/Types.antt =====
-- src/parse/parser.cpp: nextType and nextTypeParamList, with
-- the tests that type.cpp and type_param_list.cpp make.
-- A loop gives the elements, the commas, and whether a comma was missing. Each call takes fuel.
pub mod Print
pub mod Reads
use novus.Base.{
  ℕ, zero, suc, ◌-◌, ◌+◌, List, [], ◌∷◌, Option, none, some, Bool, true, false, ◌&&◌, ◌||◌, not,
  length, ◌==◌, if◌then◌else◌,
}
use novus.Lex.Token
use novus.Lex.Token.{TokenKind, Token}
use novus.Parse.Tokens.{is_kind, is_identifier, is_keyword, is_static_int, is_end}
use novus.Parse.Syntax.{
  ParseType, plain_type, type_with, TypeParamList, type_param_list, Types, no_types, type_and,
  TypeSubstitutionList, RetTypeSpec,
}
use novus.Parse.Input.{Parser, out_of_fuel, pure, ◌>>=◌, peek, consume_token}

unfoldable pub is_possible_type_token : Token → Bool
is_possible_type_token t = is_identifier t || (is_keyword t || is_static_int t)

unfoldable pub type_count : Types → ℕ
type_count no_types = 0
type_count (type_and p ps) = suc (type_count ps)

-- commas.size() == count - 1, for a count that is not zero.
abbrev pub commas_fit : List Token → ℕ → Bool
commas_fit commas count = length commas + 1 == count

unfoldable pub is_empty : Types → Bool
is_empty no_types = true
is_empty (type_and p ps) = false

-- Type::validate and TypeParamList::validate
unfoldable mutual
  pub validate_type : ParseType → Bool
  validate_type (plain_type id) = is_possible_type_token id
  validate_type (type_with id params) = is_possible_type_token id && validate_params params

  pub validate_params : TypeParamList → Bool
  validate_params (type_param_list opening params commas closing missing) =
      is_kind TokenKind.sep_open_curly opening
      && (not (is_empty params)
          && (validate_types params
              && ((not missing && commas_fit commas (type_count params))
                  && is_kind TokenKind.sep_close_curly closing)))

  pub validate_types : Types → Bool
  validate_types no_types = true
  validate_types (type_and p ps) = validate_type p && validate_types ps

unfoldable mutual
  pub next_type : ℕ → Parser ParseType
  next_type zero s = out_of_fuel
  next_type (suc f) s =
      (do
        id ← consume_token
        t ← peek
        if is_kind TokenKind.sep_open_curly t
            then (do params ← next_type_param_list f; pure (type_with id params))
            else pure (plain_type id))
        s

  pub next_type_param_list : ℕ → Parser TypeParamList
  next_type_param_list zero s = out_of_fuel
  next_type_param_list (suc f) s =
      (do
        opening ← consume_token
        (params, commas, missing) ← types_loop f
        closing ← consume_token
        pure (type_param_list opening params commas closing missing))
        s

  pub types_loop : ℕ → Parser (Types × List Token × Bool)
  types_loop zero s = out_of_fuel
  types_loop (suc f) s =
      (do
        t ← peek
        if is_kind TokenKind.sep_close_curly t || is_end t then pure (no_types, [], false) else (do
          p ← next_type f
          t ← peek
          if is_kind TokenKind.sep_comma t
              then (do
                c ← consume_token
                (ps, cs, missing) ← types_loop f
                pure (type_and p ps, c ∷ cs, missing))
              else (do
                (ps, cs, missing) ← types_loop f
                pure (type_and p ps, cs, not (is_kind TokenKind.sep_close_curly t) || missing))))
        s
