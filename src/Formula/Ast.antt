-- ===== src/Formula/Ast.antt =====
-- generate/formula/parser.py: the syntax tree. A number is kept as the literal whose value `float` gives.
use salesforce.Common.{Bool, List}
use salesforce.Formula.{Text}

mutual
  pub data Node : Type 0 where
    number_lit : Text → Node
    string_lit : Text → Node
    bool_lit : Bool → Node
    null_lit : Node
    ident_ref : Text → Node
    field_ref : List Text → Node
    unary_op : Text → Node → Node
    binary_op : Text → Node → Node → Node
    func_call : Text → Nodes → Node

  pub data Nodes : Type 0 where
    no_nodes : Nodes
    node : Node → Nodes → Nodes
