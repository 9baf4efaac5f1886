-- ===== src/Parse/Stmt/Print.antt =====
-- The tokens of a statement without error nodes, in order.
use novus.Base.{List, [], ◌∷◌, ◌++◌, Option, none, some, Bool, true, false, ◌&&◌}
use novus.Lex.Token.{Token}
use novus.Parse.Syntax.{
  TypeSubstitutionList, ValueSpec, EntrySpec, FieldSpec, Stmt, comment, import_stmt, func_decl,
  struct_decl, union_decl, enum_decl, exec_stmt,
}
use novus.Parse.Types.Print.{type_tokens, types_tokens}
use novus.Parse.Expr.Print.{
  node_tokens, node_ok, option_tokens, ret_tokens, arg_list_tokens, arg_list_ok,
}

-- A comma behind each element, as long as there is one.
unfoldable pub with_commas {ℓ} : {A : Type ℓ} → (A → List Token) → List A → List Token → List Token
with_commas print [] commas = []
with_commas print (x ∷ xs) [] = print x ++ with_commas print xs []
with_commas print (x ∷ xs) (c ∷ commas) = print x ++ (c ∷ with_commas print xs commas)

abbrev pub only : Token → List Token
only t = t ∷ []

unfoldable pub subs_tokens : Option TypeSubstitutionList → List Token
subs_tokens none = []
subs_tokens (some l) = l.open_curly ∷ (with_commas only l.subs l.commas ++ (l.close_curly ∷ []))

unfoldable pub field_tokens : FieldSpec → List Token
field_tokens a = type_tokens a.field_type ++ (a.field_id ∷ [])

unfoldable pub value_tokens : Option ValueSpec → List Token
value_tokens none = []
value_tokens (some v) = v.colon ∷ (option_tokens v.minus ++ (v.value ∷ []))

unfoldable pub entry_tokens : EntrySpec → List Token
entry_tokens e = e.entry_id ∷ value_tokens e.entry_value

unfoldable pub stmt_tokens : Stmt → List Token
stmt_tokens (comment t) = t ∷ []
stmt_tokens (import_stmt kw path) = kw ∷ (path ∷ [])
stmt_tokens (func_decl kw modifiers id subs args ret body) =
    kw
    ∷ (modifiers
        ++ (id
            ∷ (subs_tokens subs ++ (arg_list_tokens args ++ (ret_tokens ret ++ node_tokens body)))))
stmt_tokens (struct_decl kw id subs eq fields commas) =
    kw ∷ (id ∷ (subs_tokens subs ++ (option_tokens eq ++ with_commas field_tokens fields commas)))
stmt_tokens (union_decl kw id subs eq types commas) =
    kw ∷ (id ∷ (subs_tokens subs ++ (eq ∷ types_tokens types commas)))
stmt_tokens (enum_decl kw id eq entries commas) =
    kw ∷ (id ∷ (eq ∷ with_commas entry_tokens entries commas))
stmt_tokens (exec_stmt e) = node_tokens e
stmt_tokens _ = []

-- There is no error node, and no argument whose type begins with a static int.
unfoldable pub stmt_ok : Stmt → Bool
stmt_ok (comment t) = true
stmt_ok (import_stmt kw path) = true
stmt_ok (func_decl kw modifiers id subs args ret body) = arg_list_ok args && node_ok body
stmt_ok (struct_decl kw id subs eq fields commas) = true
stmt_ok (union_decl kw id subs eq types commas) = true
stmt_ok (enum_decl kw id eq entries commas) = true
stmt_ok (exec_stmt e) = node_ok e
stmt_ok _ = false

unfoldable pub stmts_ok : List Stmt → Bool
stmts_ok [] = true
stmts_ok (x ∷ xs) = stmt_ok x && stmts_ok xs

unfoldable pub stmts_tokens : List Stmt → List Token
stmts_tokens [] = []
stmts_tokens (x ∷ xs) = stmt_tokens x ++ stmts_tokens xs
