-- ===== src/Formula/Emit/Supported.antt =====
-- generate/formula/emitter.py: which trees have a Python expression.
use salesforce.Common.{
  ℕ, suc, ◌%◌, ◌≡◌, refl, ap, ◌∙◌, Bool, true, false, not, ◌&&◌, ◌||◌, Option, none, some, List, [],
  ◌∷◌, ◌==◌, ltb, length, codes, eq_codes, starts_with, if◌then◌else◌, is_some, arith,
}
use salesforce.Common.Exec.{ok, raise}
use salesforce.Formula.{Text}
use salesforce.Formula.Ast.{
  Node, Nodes, number_lit, string_lit, bool_lit, null_lit, ident_ref, field_ref, unary_op,
  binary_op, func_call, no_nodes, node,
}
use salesforce.Formula.Parser.{Result, bind}
use salesforce.Formula.Emit.{
  Python, lookup, direct_fn, bin_ops, join, quoted_field, unary_text, infix_text, concat_text,
  binary_text, one_arg, joined_args, if_call, pickval_call, case_call, direct_call, emit_call, emit,
  emit_args,
}

abbrev pub is_ok : {A : Type 0} → Result A → Bool
is_ok (ok a) = true
is_ok (raise e) = false

-- How many arguments a function of the language may have, where the emitter knows it.
pub arity_ok : Text → ℕ → Bool
unfolding eq_codes lookup
arity_ok name n =
    if eq_codes name (codes "ISBLANK")
      || eq_codes name (codes "ISNULL")
      || eq_codes name (codes "NOT")
    then n == 1
    else if eq_codes name (codes "AND") || eq_codes name (codes "OR")
    then not (n == 0)
    else if eq_codes name (codes "IF")
    then n == 3
    else if eq_codes name (codes "ISPICKVAL")
    then n == 2
    else if eq_codes name (codes "CASE")
    then not (ltb n 4) && n % 2 == 0
    else is_some (lookup name direct_fn)

abbrev pub count : Nodes → ℕ
count no_nodes = 0
count (node n args) = suc (count args)

-- The trees that have an expression: no global variable, only the operators and the functions of the
-- tables, and the functions at their arities.
mutual
  unfolding starts_with join lookup arity_ok eq_codes

  pub supported : Node → Bool
  supported (ident_ref name) = not (starts_with name (codes "$"))
  supported (field_ref parts) = not (starts_with (join (codes ".") parts) (codes "$"))
  supported (unary_op op operand) =
      supported operand && (eq_codes op (codes "-") || eq_codes op (codes "NOT"))
  supported (binary_op op left right) =
      (supported left && supported right)
      && (eq_codes op (codes "&") || is_some (lookup op bin_ops))
  supported (func_call name args) = supported_all args && arity_ok name (count args)
  supported _ = true

  pub supported_all : Nodes → Bool
  supported_all no_nodes = true
  supported_all (node n args) = supported n && supported_all args

is_ok-if :
    {A : Type 0} (b : Bool) (x y : Result A)
    → is_ok (if b then x else y) ≡ (if b then is_ok x else is_ok y)
is_ok-if true x y = refl
is_ok-if false x y = refl

pub bind-is_ok :
    {A B : Type 0} (r : Result A) (f : A → Result B) (s : Bool)
    → ((a : A) → r ≡ ok a → is_ok (f a) ≡ s)
    → is_ok (bind r f) ≡ is_ok r && s
bind-is_ok (ok a) f s h = h a refl
bind-is_ok (raise e) f s h = refl

one_arg-is_ok :
    (name before behind : Text) (args : List Text)
    → is_ok (one_arg name before behind args) ≡ length args == 1
unfolding one_arg
one_arg-is_ok name b c [] = refl
one_arg-is_ok name b c (x ∷ []) = refl
one_arg-is_ok name b c (x ∷ y ∷ args) = ground arith

case_call-is_ok :
    (name : Text) (args : List Text)
    → is_ok (case_call name args) ≡ not (ltb (length args) 4) && length args % 2 == 0
unfolding case_call
case_call-is_ok name [] = refl
case_call-is_ok name (x ∷ args) = ground arith

joined_args-is_ok :
    (name sep : Text) (args : List Text)
    → is_ok (joined_args name sep args) ≡ not (length args == 0)
unfolding joined_args
joined_args-is_ok name sep [] = refl
joined_args-is_ok name sep (x ∷ args) = ground arith

if_call-is_ok : (name : Text) (args : List Text) → is_ok (if_call name args) ≡ length args == 3
unfolding if_call
if_call-is_ok name [] = refl
if_call-is_ok name (x ∷ []) = refl
if_call-is_ok name (x ∷ y ∷ []) = refl
if_call-is_ok name (x ∷ y ∷ z ∷ []) = refl
if_call-is_ok name (x ∷ y ∷ z ∷ w ∷ args) = ground arith

pickval_call-is_ok :
    (name : Text) (args : List Text) → is_ok (pickval_call name args) ≡ length args == 2
unfolding pickval_call
pickval_call-is_ok name [] = refl
pickval_call-is_ok name (x ∷ []) = refl
pickval_call-is_ok name (x ∷ y ∷ []) = refl
pickval_call-is_ok name (x ∷ y ∷ z ∷ args) = ground arith

direct_call-is_ok :
    (name : Text) (args : List Text) (o : Option Text) → is_ok (direct_call name args o) ≡ is_some o
unfolding direct_call
direct_call-is_ok name args none = refl
direct_call-is_ok name args (some d) = refl

pub emit_call-is_ok :
    (name : Text) (args : List Text) → is_ok (emit_call name args) ≡ arity_ok name (length args)
unfolding emit_call arity_ok
emit_call-is_ok name args = ground (
  arith,
  one_arg-is_ok name (codes "_isblank(") (codes ")") args,
  one_arg-is_ok name (codes "(not (") (codes "))") args,
  joined_args-is_ok name (codes " and ") args,
  joined_args-is_ok name (codes " or ") args,
  if_call-is_ok name args,
  pickval_call-is_ok name args,
  case_call-is_ok name args,
  direct_call-is_ok name args (lookup name direct_fn),
)

infix_text-is_ok :
    (op : Text) (o : Option Text) (l r : Result Text)
    → is_ok (infix_text op o l r) ≡ (is_ok l && is_ok r) && is_some o
infix_text-is_ok op none (ok a) (ok b) = refl
infix_text-is_ok op none (ok a) (raise e) = refl
infix_text-is_ok op none (raise e) r = refl
infix_text-is_ok op (some t) (ok a) (ok b) = refl
infix_text-is_ok op (some t) (ok a) (raise e) = refl
infix_text-is_ok op (some t) (raise e) r = refl

concat_text-is_ok : (l r : Result Text) → is_ok (concat_text l r) ≡ is_ok l && is_ok r
concat_text-is_ok (ok a) (ok b) = refl
concat_text-is_ok (ok a) (raise e) = refl
concat_text-is_ok (raise e) r = refl

binary_text-is_ok :
    (op : Text) (l r : Result Text)
    → is_ok (binary_text op l r)
      ≡ (is_ok l && is_ok r) && (eq_codes op (codes "&") || is_some (lookup op bin_ops))
unfolding binary_text
binary_text-is_ok op l r =
    ground (arith, concat_text-is_ok l r, infix_text-is_ok op (lookup op bin_ops) l r)

unary_text-is_ok :
    (op t : Text) → is_ok (unary_text op t) ≡ eq_codes op (codes "-") || eq_codes op (codes "NOT")
unfolding unary_text
unary_text-is_ok op t = ground arith

quoted_field-is_ok :
    (py : Python) (name : Text) → is_ok (quoted_field py name) ≡ not (starts_with name (codes "$"))
unfolding quoted_field
quoted_field-is_ok py name = ground arith

pub and_true : (b : Bool) → b && true ≡ b
and_true true = refl
and_true false = refl

bind-count :
    (r : Result Text) (q : Result (List Text)) (n : ℕ)
    → ((ts : List Text) → q ≡ ok ts → length ts ≡ n)
    → (ts : List Text) → (bind r λ t. bind q λ us. ok (t ∷ us)) ≡ ok ts
    → length ts ≡ suc n
bind-count (ok a) (ok us) n h [] e = cc
bind-count (ok a) (ok us) n h (t ∷ ts) e = let j : us ≡ ts = cc in rw (← j) (ap suc (h us refl))
bind-count (ok a) (raise x) n h ts e = cc
bind-count (raise x) q n h ts e = cc

module _ (py : Python) where
  emit_args-count :
      (args : Nodes) (ts : List Text) → emit_args py args ≡ ok ts → length ts ≡ count args
  unfolding emit_args
  emit_args-count no_nodes [] e = refl
  emit_args-count no_nodes (t ∷ ts) e = cc
  emit_args-count (node n args) ts e =
      bind-count (emit py n) (emit_args py args) (count args) (emit_args-count args) ts e

  mutual
    unfolding emit supported

    emit-is_ok : (n : Node) → is_ok (emit py n) ≡ supported n
    emit-is_ok (number_lit s) = refl
    emit-is_ok (string_lit v) = refl
    emit-is_ok (bool_lit b) = refl
    emit-is_ok null_lit = refl
    emit-is_ok (ident_ref name) = quoted_field-is_ok py name
    emit-is_ok (field_ref parts) = quoted_field-is_ok py (join (codes ".") parts)
    emit-is_ok (unary_op op n) =
        bind-is_ok (emit py n) (unary_text op) _ (λ t e. unary_text-is_ok op t)
        ∙ rw (emit-is_ok n) refl
    emit-is_ok (binary_op op l r) =
        binary_text-is_ok op (emit py l) (emit py r) ∙ rw (emit-is_ok l, emit-is_ok r) refl
    emit-is_ok (func_call name args) =
        bind-is_ok (emit_args py args) (emit_call name) (arity_ok name (count args))
          (λ ts e. emit_call-is_ok name ts ∙ ap (arity_ok name) (emit_args-count args ts e))
        ∙ rw (emit_args-is_ok args) refl

    emit_args-is_ok : (args : Nodes) → is_ok (emit_args py args) ≡ supported_all args
    emit_args-is_ok no_nodes = refl
    emit_args-is_ok (node n args) =
        bind-is_ok (emit py n) _ (supported_all args) (λ t e.
          bind-is_ok (emit_args py args) _ true (λ ts h. refl)
          ∙ rw (emit_args-is_ok args) (and_true (supported_all args)))
        ∙ rw (emit-is_ok n) refl

  -- A tree has a Python expression exactly where it reads no global variable and uses only the
  -- operators and the functions that the emitter knows, each at an arity that it takes.
  pub emit-supported : (n : Node) → is_ok (emit py n) ≡ supported n
  emit-supported n = emit-is_ok n
