-- ===== src/Migrations/Syntax.antt =====
-- What the linter reads of a Python module, as `ast.parse` gives it. A node that the linter does not look
-- into is `other`.
use prodkit_storage.Common.{
  ℕ, zero, suc, Bool, false, Option, none, some, String, ◌=?◌, if◌then◌else◌,
}

mutual
  pub data Expr : Type 0 where
    text : String → Expr
    boolean : Bool → Expr
    identifier : String → Expr
    attribute : Expr → String → Expr
    -- the function, the arguments, the keywords and the line; the number stands for the node
    call : Expr → Exprs → Keywords → (line node : ℕ) → Expr
    other : Expr

  pub data Exprs : Type 0 where
    nil : Exprs
    cons : Expr → Exprs → Exprs

  -- `**mapping` has no name.
  pub data Keywords : Type 0 where
    end : Keywords
    named : Option String → Expr → Keywords → Keywords

-- A call, which `Expr` holds as one of its nodes.
pub record Call : Type 0 where
  pub function : Expr
  pub args : Exprs
  pub keywords : Keywords
  pub line : ℕ
  pub node : ℕ

mutual
  pub data Stmt : Type 0 where
    expr : Expr → Stmt
    with_ : Exprs → Block → Stmt
    if_ : Block → Block → Stmt
    -- `for` and `while`: the body and `else`
    loop : Block → Block → Stmt
    -- the body, the bodies of the handlers, `else` and `finally`
    try_ : Block → Blocks → Block → Block → Stmt
    -- an assignment, a definition, `match`, `async with`, `try … except*` and so on
    other : Stmt

  pub data Block : Type 0 where
    nil : Block
    cons : Stmt → Block → Block

  pub data Blocks : Type 0 where
    no_handler : Blocks
    handler : Block → Blocks → Blocks

-- The value of an assignment, as far as the waivers read it: a set, list or tuple of elements.
pub data Assigned : Type 0 where
  literal : Exprs → Assigned
  not_literal : Assigned

-- What stands at the top of the module.
pub data Top : Type 0 where
  function : (name : String) (body : Block) → Top
  assign : (targets : Exprs) (value : Assigned) → Top
  other : Top

abbrev pub as_call : Expr → Option Call
as_call (Expr.call f args keywords line node) =
    some (record { function = f; args = args; keywords = keywords; line = line; node = node })
as_call _ = none

-- `_op_method`
abbrev pub op_attribute : Expr → String → Option String
op_attribute (identifier id) attr = if id =? "op" then some attr else none
op_attribute _ attr = none

abbrev pub op_of : Expr → Option String
op_of (attribute value attr) = op_attribute value attr
op_of _ = none

unfoldable pub op_method : Call → Option String
op_method c = op_of c.function

-- `_call_method`
abbrev pub method_of : Expr → Option String
method_of (attribute value attr) = some attr
method_of (identifier id) = some id
method_of _ = none

unfoldable pub call_method : Call → Option String
call_method c = method_of c.function

abbrev pub is_arg : Option String → String → Bool
is_arg none name = false
is_arg (some arg) name = arg =? name

abbrev pub keyword_in : Keywords → String → Option Expr
keyword_in end name = none
keyword_in (named arg value rest) name =
    if is_arg arg name then some value else keyword_in rest name

-- `_keyword_value`
unfoldable pub keyword_value : Call → String → Option Expr
keyword_value c name = keyword_in c.keywords name

-- `args[position]`, if there is one
abbrev pub arg_at : Exprs → ℕ → Option Expr
arg_at nil n = none
arg_at (cons e rest) zero = some e
arg_at (cons e rest) (suc n) = arg_at rest n

abbrev pub or_keyword : Option Expr → Option Expr → Option Expr
or_keyword none value = value
or_keyword (some e) value = some e

-- `call.args[position] if len(call.args) > position else _keyword_value(call, keyword)`
unfoldable pub argument : Call → ℕ → String → Option Expr
unfolding keyword_value
argument c position key = or_keyword (arg_at c.args position) (keyword_value c key)

abbrev pub as_text : Option Expr → Option String
as_text (some (text s)) = some s
as_text _ = none

abbrev pub as_boolean : Option Expr → Option Bool
as_boolean (some (boolean b)) = some b
as_boolean _ = none

abbrev pub call_in : Option Expr → Option Call
call_in none = none
call_in (some e) = as_call e

-- `_string_argument`, `_call_argument` and `_keyword_bool`
unfoldable pub string_argument : Call → ℕ → String → Option String
unfolding argument
string_argument c position key = as_text (argument c position key)

unfoldable pub call_argument : Call → ℕ → String → Option Call
unfolding argument
call_argument c position key = call_in (argument c position key)

unfoldable pub keyword_bool : Call → String → Option Bool
unfolding keyword_value
keyword_bool c name = as_boolean (keyword_value c name)

-- `_statement_call`
unfoldable pub statement_call : Stmt → Option Call
statement_call (expr e) = as_call e
statement_call _ = none

abbrev pub is_autocommit_function : Expr → Bool
is_autocommit_function (attribute value attr) = attr =? "autocommit_block"
is_autocommit_function _ = false

-- `_is_autocommit_context`
unfoldable pub is_autocommit_context : Expr → Bool
is_autocommit_context (Expr.call f args keywords line node) = is_autocommit_function f
is_autocommit_context _ = false
