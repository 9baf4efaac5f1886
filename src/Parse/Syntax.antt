-- ===== src/Parse/Syntax.antt =====
-- include/parse/node_*.hpp, type.hpp, type_param_list.hpp, type_substitution_list.hpp,
-- argument_list_decl.hpp and ret_type_spec.hpp: the nodes of the parse tree, with a constructor for each
-- factory, and for each err… function of src/parse/error.cpp with its arguments, of which it makes an
-- error node.
use novus.Base.{List, Option, Bool}
use novus.Lex.Token.{Token}

-- Type and TypeParamList. A type has an identifier; a parameter list its braces, the types between
-- them, the commas, and whether one is missing.
mutual
  pub data ParseType : Type 0 where
    plain_type : Token → ParseType
    type_with : Token → TypeParamList → ParseType

  pub data TypeParamList : Type 0 where
    type_param_list : Token → Types → List Token → Token → Bool → TypeParamList

  pub data Types : Type 0 where
    no_types : Types
    type_and : ParseType → Types → Types

pub record TypeSubstitutionList : Type 0 where
  pub open_curly : Token
  pub subs : List Token
  pub commas : List Token
  pub close_curly : Token
  pub missing_comma : Bool

pub record RetTypeSpec : Type 0 where
  pub arrow : Token
  pub ret_type : ParseType

-- EnumDeclStmtNode::ValueSpec and EntrySpec
pub record ValueSpec : Type 0 where
  pub colon : Token
  pub minus : Option Token
  pub value : Token

pub record EntrySpec : Type 0 where
  pub entry_id : Token
  pub entry_value : Option ValueSpec

-- StructDeclStmtNode::FieldSpec
pub record FieldSpec : Type 0 where
  pub field_type : ParseType
  pub field_id : Token

-- An initializer that lacks its expression has a null node.
mutual
  pub data Node : Type 0 where
    lit id_plain : Token → Node
    id_with : Token → TypeParamList → Node
    const_decl : Token → Token → Node → Node
    intrinsic : Token → Token → Token → Token → Option TypeParamList → Node
    unary : Token → Node → Node
    binary : Node → Token → Node → Node
    group : Nodes → List Token → Node
    call : List Token → Node → Token → Nodes → List Token → Token → Node
    field : Node → Token → Token → Node
    index : Node → Token → Nodes → List Token → Token → Node
    is_expr : Node → Token → ParseType → Option Token → Node
    conditional : Node → Token → Node → Token → Node → Node
    paren : Token → Node → Token → Node
    switch : Nodes → Node → Node
    switch_without_else : Nodes → Node
    switch_if : Token → Node → Token → Node → Node
    switch_else : Token → Token → Node → Node
    anon_func : List Token → Token → ArgumentListDecl → Option RetTypeSpec → Node → Node
    err_max_expr_recursion_depth err_primary : Token → Node
    err_unary_op : Token → Node → Node
    err_id : Token → TypeParamList → Node
    err_id_plain : Token → Node
    err_intrinsic : Token → Token → Token → Token → Option TypeParamList → Node
    err_field : Node → Token → Token → Node
    err_is : Node → Token → ParseType → Option Token → Node
    err_call : List Token → Node → Token → Nodes → List Token → Token → Bool → Node
    err_index : Node → Token → Nodes → List Token → Token → Node
    err_conditional : Node → Token → Node → Token → Node → Node
    err_paren : Token → Node → Token → Node
    err_switch_if : Token → Node → Token → Node → Node
    err_switch_else : Token → Token → Node → Node
    err_anon_func : List Token → Token → ArgumentListDecl → Option RetTypeSpec → Node → Node

  pub data Nodes : Type 0 where
    no_nodes : Nodes
    node_and : Node → Nodes → Nodes

  pub data ArgumentListDecl : Type 0 where
    argument_list_decl : Token → ArgSpecs → List Token → Token → Bool → ArgumentListDecl

  pub data ArgSpecs : Type 0 where
    no_args : ArgSpecs
    arg_and : ArgSpec → ArgSpecs → ArgSpecs

  pub data ArgSpec : Type 0 where
    arg : ParseType → Token → ArgSpec
    arg_initialized : ParseType → Token → Token → Node → ArgSpec
    arg_without_expr : ParseType → Token → Token → ArgSpec

pub data Stmt : Type 0 where
  comment : Token → Stmt
  import_stmt err_import : Token → Token → Stmt
  func_decl err_func_decl :
      Token
      → List Token
      → Token
      → Option TypeSubstitutionList
      → ArgumentListDecl
      → Option RetTypeSpec
      → Node
      → Stmt
  struct_decl err_struct_decl :
      Token
      → Token
      → Option TypeSubstitutionList
      → Option Token
      → List FieldSpec
      → List Token
      → Stmt
  union_decl err_union_decl :
      Token → Token → Option TypeSubstitutionList → Token → Types → List Token → Stmt
  enum_decl err_enum_decl : Token → Token → Token → List EntrySpec → List Token → Stmt
  exec_stmt : Node → Stmt
