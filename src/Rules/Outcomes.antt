-- ===== src/Rules/Outcomes.antt =====
-- What the result of a rule says of its function (`Rule.evaluate` of runtime/rules/engine.py).
use salesforce.Common.{◌≡◌, refl, ◌↔◌, true, false, Option, none, some, arith, is_nonempty, String}
use salesforce.Common.Exec.{Outcome, ok, raise}
use salesforce.Value.{Value, mapping, Record, truthy}
use salesforce.Rules.{Exn, computation, is_validation, Rule, computed, outcome, evaluate}

rule_id-computed : (r : Rule) (f : Option String) (v : Value) → (computed r f v).rule_id ≡ r.rule_id
unfolding computed
rule_id-computed r (some name) v = ground arith
rule_id-computed r none (mapping fs) = ground arith
rule_id-computed r none _ = refl

rule_id-outcome : (r : Rule) (o : Outcome Exn Value) → (outcome r o).rule_id ≡ r.rule_id
unfolding outcome
rule_id-outcome r (raise e) = refl
rule_id-outcome r (ok v) = ground (arith, rule_id-computed r r.fixes_field v)

-- The result carries the name of its rule.
pub rule_id-evaluate : (r : Rule) (x c : Record) → (evaluate r x c).rule_id ≡ r.rule_id
unfolding evaluate
rule_id-evaluate r x c = rule_id-outcome r (r.fn x c)

passed-computed : (r : Rule) (f : Option String) (v : Value) → (computed r f v).passed ≡ true
unfolding computed
passed-computed r (some name) v = ground arith
passed-computed r none (mapping fs) = ground arith
passed-computed r none _ = refl

-- Why a rule did not pass: its function raised, or it is a validation rule whose error condition
-- held.
abbrev pub Fails : Rule → Outcome Exn Value → Type 0
Fails r (raise e) = Unit
Fails r (ok v) = (is_validation r.kind ≡ true) × (truthy v ≡ true)

passed-outcome : (r : Rule) (o : Outcome Exn Value) → ((outcome r o).passed ≡ false) ↔ Fails r o
unfolding outcome
passed-outcome r (raise e) = (λ h. tt, λ h. refl)
passed-outcome r (ok v) = (
  λ h. ground (arith, passed-computed r r.fixes_field v),
  λ h. ground (arith, passed-computed r r.fixes_field v),
)

-- A rule does not pass exactly when its function raised, or when it is a validation rule whose
-- function answered with a value that is true.
pub passed-evaluate :
    (r : Rule) (x c : Record) → ((evaluate r x c).passed ≡ false) ↔ Fails r (r.fn x c)
unfolding evaluate
passed-evaluate r x c = passed-outcome r (r.fn x c)

mutations-computed :
    (r : Rule) (f : Option String) (v : Value)
    → is_nonempty (computed r f v).field_mutations ≡ true
    → (computed r f v).kind ≡ computation
unfolding computed
mutations-computed r (some name) v h = ground arith
mutations-computed r none (mapping fs) h = ground arith
mutations-computed r none _ h = cc

mutations-outcome :
    (r : Rule) (o : Outcome Exn Value)
    → is_nonempty (outcome r o).field_mutations ≡ true
    → ((outcome r o).kind ≡ computation)
      × ((outcome r o).passed ≡ true)
      × (is_validation r.kind ≡ false)
unfolding outcome
mutations-outcome r (raise e) h = cc
mutations-outcome r (ok v) h =
    ground (arith, mutations-computed r r.fixes_field v, passed-computed r r.fixes_field v)

-- A result that changes fields is that of a computation that passed, and its rule is no validation
-- rule.
pub mutations-evaluate :
    (r : Rule) (x c : Record)
    → is_nonempty (evaluate r x c).field_mutations ≡ true
    → ((evaluate r x c).kind ≡ computation)
      × ((evaluate r x c).passed ≡ true)
      × (is_validation r.kind ≡ false)
unfolding evaluate
mutations-evaluate r x c h = mutations-outcome r (r.fn x c) h
