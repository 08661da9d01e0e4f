-- ===== src/Formula.antt =====
-- generate/formula: the tokens of the Salesforce formula language and the ways in which its functions
-- fail. A text is the list of its code points.
pub mod Lexer
pub mod Literal
pub mod Ast
pub mod Parser
pub mod Grammar
pub mod Emit
pub mod References
use salesforce.Common.{ℕ, Bool, String, Option, List}

abbrev pub Text : Type 0
Text = List ℕ

-- The tables of the Unicode standard that `re` and the codec read: the characters of category Nd,
-- which `\d` matches, and the characters by their names.
pub record Unicode : Type 0 where
  pub decimal : ℕ → Bool
  pub name : Text → Option ℕ

pub data TokenKind : Type 0 where
  number string ident dot lparen rparen comma plus minus star slash eq neq lt le gt ge and or amp
        bang eof :
      TokenKind

-- `kind`, `text` and `pos`.
pub data Token : Type 0 where
  token : TokenKind → Text → ℕ → Token

abbrev pub Tokens : Type 0
Tokens = List Token

-- The constructors down to `wrong_arity` are the messages of `UnsupportedFormulaError`. `undecodable` is
-- the codec's `UnicodeError` and `index_error` a read past the last token; `out_of_fuel` has no
-- counterpart in the code.
pub data FormulaError : Type 0 where
  unexpected_character : ℕ → ℕ → FormulaError
  expected : TokenKind → Token → FormulaError
  unknown_function : Text → FormulaError
  unexpected_token : Token → FormulaError
  trailing_input : Token → FormulaError
  global_variable : Text → FormulaError
  unsupported_unary : Text → FormulaError
  unsupported_binary : Text → FormulaError
  unsupported_function : Text → FormulaError
  wrong_arity : Text → ℕ → FormulaError
  undecodable : FormulaError
  index_error : FormulaError
  out_of_fuel : FormulaError
