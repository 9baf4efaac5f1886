-- ===== src/Parse/Types/Print.antt =====
-- The tokens of a type, in order.
use novus.Base.{Bool, List, [], ◌∷◌, ◌++◌}
use novus.Lex.Token.{Token}
use novus.Parse.Tokens.{is_static_int}
use novus.Parse.Syntax.{
  ParseType, plain_type, type_with, TypeParamList, type_param_list, Types, no_types, type_and,
}

unfoldable mutual
  pub type_tokens : ParseType → List Token
  type_tokens (plain_type id) = id ∷ []
  type_tokens (type_with id params) = id ∷ params_tokens params

  pub params_tokens : TypeParamList → List Token
  params_tokens (type_param_list opening params commas closing missing) =
      opening ∷ (types_tokens params commas ++ (closing ∷ []))

  -- A comma behind each element, as long as there is one.
  pub types_tokens : Types → List Token → List Token
  types_tokens no_types commas = []
  types_tokens (type_and p ps) [] = type_tokens p ++ types_tokens ps []
  types_tokens (type_and p ps) (c ∷ commas) = type_tokens p ++ (c ∷ types_tokens ps commas)

unfoldable pub starts_static : ParseType → Bool
starts_static (plain_type id) = is_static_int id
starts_static (type_with id params) = is_static_int id
