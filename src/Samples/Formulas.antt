-- ===== src/Samples/Formulas.antt =====
-- A formula, from its text to its rule.
use salesforce.Common.{◌≡◌, ◌↔◌, refl, true, ◌&&◌, none, [], ◌∷◌, codes, leb}
use salesforce.Common.Exec.{ok, raise}
use salesforce.Formula.{
  Text, Unicode, Tokens, token, number, string, ident, lparen, rparen, comma, dot, gt, amp, eof,
  global_variable,
}
use salesforce.Formula.Ast.{
  Node, number_lit, string_lit, ident_ref, field_ref, binary_op, func_call, no_nodes, node,
}
use salesforce.Formula.Lexer.{tokenize}
use salesforce.Formula.Lexer.Scan.{Lexes, tokenize-Lexes}
use salesforce.Formula.Parser.{
  parse_tokens, literal_word, parse_path, operands, mul_op, add_op, operand_once, cmp_op, and_op,
  or_op, string_node, expect_rparen, known_call,
}
use salesforce.Formula.Literal.{decode_string}
use salesforce.Formula.Grammar.{Sentence}
use salesforce.Formula.Grammar.Sound.{parse_tokens_sound}
use salesforce.Formula.Grammar.Equivalence.{parse_tokens-Sentence}
use salesforce.Formula.Emit.{Python, emit, emit_rule_body}
use salesforce.Formula.Emit.Supported.{is_ok, supported, emit-supported}
use salesforce.Formula.Emit.Rule.{emit_rule_body-supported}
use salesforce.Formula.References.{tree_references}
use salesforce.Formula.References.Sorted.{has}
use salesforce.Formula.References.Walk.{
  is_field_name, is_global_name, reads, calls, tree_references-has,
}

-- The digits of ASCII, and no names of characters.
abbrev ascii : Unicode
ascii = record { decimal = λ c. leb b'0' c && leb c b'9'; name = λ s. none }

abbrev python : Python
python = record { is_integer = λ s. true; int_text = λ s. s; float_text = λ s. s; repr = λ s. s }

abbrev formula : Text
formula = codes "IF(Amount > 10, Owner.Name & '!', $User.Id)"

abbrev tree : Node
tree = func_call (codes "IF") (
    node (binary_op (codes ">") (ident_ref (codes "Amount")) (number_lit (codes "10"))) (
      node
        (binary_op (codes "&") (field_ref (codes "Owner" ∷ codes "Name" ∷ []))
          (string_lit (codes "!")))
        (node (field_ref (codes "$User" ∷ codes "Id" ∷ [])) no_nodes)))

abbrev tokens : Tokens
tokens =
    token ident (codes "IF") 0
    ∷ token lparen (codes "(") 2
    ∷ token ident (codes "Amount") 3
    ∷ token gt (codes ">") 10
    ∷ token number (codes "10") 12
    ∷ token comma (codes ",") 14
    ∷ token ident (codes "Owner") 16
    ∷ token dot (codes ".") 21
    ∷ token ident (codes "Name") 22
    ∷ token amp (codes "&") 27
    ∷ token string (codes "'!'") 29
    ∷ token comma (codes ",") 32
    ∷ token ident (codes "$User") 34
    ∷ token dot (codes ".") 39
    ∷ token ident (codes "Id") 40
    ∷ token rparen (codes ")") 42
    ∷ token eof [] 43
    ∷ []

tokenized : tokenize ascii formula ≡ ok tokens
unfolding tokenize
tokenized = refl

parsed : parse_tokens ascii tokens ≡ ok tree
unfolding parse_tokens literal_word parse_path operands mul_op add_op operand_once cmp_op and_op
    or_op string_node decode_string expect_rparen known_call
parsed = refl

-- The rule of this formula is refused for its global variable.
refused : emit python tree ≡ raise (global_variable (codes "$User.Id"))
unfolding emit
refused = refl

tree-Sentence : Sentence ascii tokens tree
tree-Sentence = parse_tokens_sound ascii tokens tree parsed

tokenize-Lexes_example : Lexes ascii 0 formula (tokenize ascii formula)
tokenize-Lexes_example = tokenize-Lexes ascii formula

parse_tokens-Sentence_example : parse_tokens ascii tokens ≡ ok tree ↔ Sentence ascii tokens tree
parse_tokens-Sentence_example = parse_tokens-Sentence ascii tokens tree

emit-supported_example : is_ok (emit python tree) ≡ supported tree
emit-supported_example = emit-supported python tree

emit_rule_body-supported_example :
    is_ok (emit_rule_body python ascii formula (codes "evaluate")) ≡ supported tree
emit_rule_body-supported_example =
    emit_rule_body-supported python ascii formula (codes "evaluate") tokens tree tokenized
      tree-Sentence

tree_references-has_example :
    (has (codes "Amount") (tree_references tree).fields ≡ reads is_field_name (codes "Amount") tree)
    × (has (codes "Amount") (tree_references tree).globals
        ≡ reads is_global_name (codes "Amount") tree)
    × (has (codes "Amount") (tree_references tree).functions ≡ calls (codes "Amount") tree)
tree_references-has_example = tree_references-has tree (codes "Amount")
