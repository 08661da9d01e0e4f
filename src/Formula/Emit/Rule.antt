-- ===== src/Formula/Emit/Rule.antt =====
-- generate/formula/emitter.py, `emit_rule_body`: the parser and the emitter together.
use salesforce.Common.{◌≡◌, refl, ◌∙◌, true}
use salesforce.Common.Exec.{ok}
use salesforce.Formula.{Text, Unicode, Tokens}
use salesforce.Formula.Ast.{Node}
use salesforce.Formula.Lexer.{tokenize}
use salesforce.Formula.Parser.{parse}
use salesforce.Formula.Grammar.{Sentence}
use salesforce.Formula.Grammar.Equivalence.{parse_tokens_complete}
use salesforce.Formula.Emit.{Python, emit, emit_rule_body}
use salesforce.Formula.Emit.Supported.{is_ok, supported, bind-is_ok, and_true, emit-supported}

-- Where the tokens of a formula are a sentence of the grammar, the formula has a rule exactly if the
-- emitter supports the tree that the grammar derives.
pub emit_rule_body-supported :
    (py : Python) (u : Unicode) (formula name : Text) (ts : Tokens) (n : Node)
    → tokenize u formula ≡ ok ts
    → Sentence u ts n
    → is_ok (emit_rule_body py u formula name) ≡ supported n
unfolding emit_rule_body parse
emit_rule_body-supported py u formula name ts n h s =
    rw (h, parse_tokens_complete u ts n s)
      (bind-is_ok (emit py n) _ true (λ t e. refl)
        ∙ and_true (is_ok (emit py n))
        ∙ emit-supported py n)
