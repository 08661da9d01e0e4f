-- ===== src/Verify/Paths.antt =====
-- verify/compare.py, `verify_process`: the paths that its checks accept.
use salesforce.Common.{
  ◌≡◌, ◌⊎◌, inl, inr, Bool-cases, eq_iff, ◌=ₛ◌, member, refl, subst, sym, Bool, true, false, ◌||◌,
  String, Option, none, some, List, [], ◌∷◌, ◌++◌, is_nonempty, is_some, if◌then◌else◌, arith,
}
use salesforce.Common.{ap, ◌∙◌, eq_refl, any, ◌&&◌, not, member-append}
use salesforce.Common.Dict.{Dict, get}
use salesforce.Verify.Model.{loop, Branch, Step, is_kind, kind_value}
use salesforce.Verify.Checks.{
  wrong_entry, present, branch_nexts, successors, unknowns, allows, transition, bad_transitions,
  bad_entry,
}

-- Whether a name that may be missing is a given one.
abbrev pub is_text : String → Option String → Bool
is_text b none = false
is_text b (some s) = s =ₛ b

-- A successor that a step names: the next step, the default, the one after a fault, that of a branch,
-- and of a loop the one after it. An empty name names none.
pub data Successor (s : Step) (b : String) : Type 0 where
  by_next : s.next ≡ some b → Successor s b
  by_default : s.default_next ≡ some b → Successor s b
  by_fault : s.on_fault ≡ some b → Successor s b
  by_branch : any (λ (br : Branch). is_text b br.next) s.branches ≡ true → Successor s b
  by_loop : kind_value s.kind ≡ "loop" → s.after ≡ some b → Successor s b

-- A step that another may follow: a successor, any step from a loop or from a step that names no
-- successor, and the same step again.
pub data Leads (s : Step) (a b : String) : Type 0 where
  along : Successor s b → Leads s a b
  looping : kind_value s.kind ≡ "loop" → Leads s a b
  open_end : ((n : String) → n =ₛ "" ≡ false → ¬ (Successor s n)) → Leads s a b
  again : b ≡ a → Leads s a b

-- A path of steps of the model, each of which the step before it leads to.
pub data ModelPath (steps : Dict Step) : List String → Type 0 where
  no_path : ModelPath steps []
  last : (a : String) (s : Step) → get steps a ≡ some s → ModelPath steps (a ∷ [])
  next :
      (a b : String) (ns : List String) (s : Step)
      → get steps a ≡ some s
      → Leads s a b
      → ModelPath steps (b ∷ ns)
      → ModelPath steps (a ∷ b ∷ ns)

-- A path that begins at the entry of a model, if the model has one and the path a step.
pub data StartsAt : Option String → List String → Type 0 where
  no_entry : (ns : List String) → StartsAt none ns
  blank_entry : (ns : List String) → StartsAt (some "") ns
  not_entered : (entry : Option String) → StartsAt entry []
  at_entry : (entry : String) (ns : List String) → StartsAt (some entry) (entry ∷ ns)

pub append-empty :
    {A : Type 0} (xs ys : List A) → is_nonempty (xs ++ ys) ≡ is_nonempty xs || is_nonempty ys
append-empty [] ys = refl
append-empty (x ∷ xs) ys = refl

found :
    (steps : Dict Step) (a : String) (o : Option Step)
    → get steps a ≡ o
    → is_some o ≡ true
    → (s : Step) × (get steps a ≡ some s)
found steps a none e h = cc
found steps a (some s) e h = (s, e)

unknowns-head :
    (steps : Dict Step) (a : String) (ns : List String)
    → is_nonempty (unknowns steps (a ∷ ns)) ≡ false
    → (is_some (get steps a) ≡ true) × (is_nonempty (unknowns steps ns) ≡ false)
unfolding unknowns
unknowns-head steps a ns h = ground arith

pub decided :
    {A : Type 0} (b : Bool) (x : A) → is_nonempty (if b then [] else x ∷ []) ≡ false → b ≡ true
decided true x h = refl
decided false x h = cc

member-present :
    (b : String) (os : List (Option String))
    → member b (present os) ≡ any (λ o. is_text b o) os && not (b =ₛ "")
unfolding member present any
member-present b [] = refl
member-present b (none ∷ os) = member-present b os
member-present b (some s ∷ os) = elim (Bool-cases (s =ₛ b)) [
  | inl same ↦
      rw ((eq_iff s b).0 same, eq_refl b)
        (elim (Bool-cases (b =ₛ "")) [
          | inl blank ↦ rw blank (member-present b os ∙ rw blank (ground arith))
          | inr filled ↦ rw (filled, eq_refl b) refl
        ])
  | inr apart ↦ rw apart (elim (Bool-cases (s =ₛ "")) [
    | inl blank ↦ rw blank (member-present b os)
    | inr filled ↦ rw (filled, apart) (member-present b os)
  ])
]

is_text→≡ : (b : String) (o : Option String) → is_text b o ≡ true → o ≡ some b
is_text→≡ b none h = cc
is_text→≡ b (some s) h = ap some ((eq_iff s b).0 h)

≡→is_text : (b : String) (o : Option String) → o ≡ some b → is_text b o ≡ true
≡→is_text b o e = rw e (eq_refl b)

any-branch_nexts :
    (b : String) (brs : List Branch)
    → any (λ o. is_text b o) (branch_nexts brs) ≡ any (λ (br : Branch). is_text b br.next) brs
unfolding any branch_nexts
any-branch_nexts b [] = refl
any-branch_nexts b (br ∷ brs) = rw (any-branch_nexts b brs) refl

-- Whether a step names a successor.
names : Step → String → Bool
unfolding any
names s b =
    is_text b s.next
    || (is_text b s.default_next
        || (is_text b s.on_fault
            || (any (λ (br : Branch). is_text b br.next) s.branches
                || (kind_value s.kind =ₛ "loop" && is_text b s.after))))

member-successors : (s : Step) (b : String) → member b (successors s) ≡ names s b && not (b =ₛ "")
unfolding successors names any
member-successors s b =
    rw
      (member-append b (present (s.next ∷ s.default_next ∷ s.on_fault ∷ branch_nexts s.branches)) _)
      (elim (Bool-cases (kind_value s.kind =ₛ "loop")) [
        | inl l ↦
            rw
              (
                l,
                member-present b (s.next ∷ s.default_next ∷ s.on_fault ∷ branch_nexts s.branches),
                member-present b (s.after ∷ []),
                any-branch_nexts b s.branches,
              )
              (ground arith)
        | inr n ↦
            rw
              (
                n,
                member-present b (s.next ∷ s.default_next ∷ s.on_fault ∷ branch_nexts s.branches),
                any-branch_nexts b s.branches,
              )
              (unfold member in ground arith)
      ])

names-Successor : (s : Step) (b : String) → names s b ≡ true → Successor s b
unfolding names
names-Successor s b h = elim (Bool-cases (is_text b s.next)) [
  | inl e ↦ by_next (is_text→≡ b s.next e)
  | inr e1 ↦ elim (Bool-cases (is_text b s.default_next)) [
    | inl e ↦ by_default (is_text→≡ b s.default_next e)
    | inr e2 ↦ elim (Bool-cases (is_text b s.on_fault)) [
      | inl e ↦ by_fault (is_text→≡ b s.on_fault e)
      | inr e3 ↦ elim (Bool-cases (any (λ (br : Branch). is_text b br.next) s.branches)) [
        | inl e ↦ by_branch e
        | inr e4 ↦
            by_loop ((eq_iff (kind_value s.kind) "loop").0 (ground (arith, h, e1, e2, e3, e4)))
              (is_text→≡ b s.after (ground (arith, h, e1, e2, e3, e4)))
      ]
    ]
  ]
]

Successor-names : (s : Step) (b : String) → Successor s b → names s b ≡ true
unfolding names
Successor-names s b (by_next e) = ground (arith, ≡→is_text b s.next e)
Successor-names s b (by_default e) = ground (arith, ≡→is_text b s.default_next e)
Successor-names s b (by_fault e) = ground (arith, ≡→is_text b s.on_fault e)
Successor-names s b (by_branch e) = ground (arith, e)
Successor-names s b (by_loop k e) =
    ground (arith, ≡→is_text b s.after e, (eq_iff (kind_value s.kind) "loop").1 k)

allows-Leads : (s : Step) (a b : String) → allows s a b ≡ true → Leads s a b
unfolding allows
allows-Leads s a b h = go (successors s) refl (Bool-cases (is_kind s.kind loop))
  where
    go :
        (ss : List String)
        → successors s ≡ ss
        → (is_kind s.kind loop ≡ true) ⊎ (is_kind s.kind loop ≡ false)
        → Leads s a b
    go [] e c = open_end λ n filled m.
        let there : member n (successors s) ≡ true =
          member-successors s n ∙ rw (Successor-names s n m, filled) refl in
        let nothing : false ≡ true = ap (member n) (sym e) ∙ there in cc
    go (x ∷ xs) e (inl l) = looping ((eq_iff (kind_value s.kind) "loop").0 l)
    go (x ∷ xs) e (inr l) = elim (Bool-cases (member b (successors s))) [
      | inl m ↦ along (names-Successor s b (ground (arith, m, member-successors s b)))
      | inr m ↦ again ((eq_iff b a).0 (ground (arith, h, e, l, m)))
    ]

transition-Leads :
    (s : Step) (a b : String) → is_nonempty (transition (some s) a b) ≡ false → Leads s a b
unfolding transition
transition-Leads s a b h = allows-Leads s a b (decided (allows s a b) _ h)

pub bad_entry-StartsAt :
    (entry : Option String) (ns : List String)
    → is_nonempty (bad_entry entry ns) ≡ false
    → StartsAt entry ns
unfolding bad_entry
bad_entry-StartsAt none ns h = no_entry ns
bad_entry-StartsAt (some e) [] h = not_entered (some e)
bad_entry-StartsAt (some e) (n ∷ ns) h = elim (Bool-cases (e =ₛ "")) [
  | inl blank ↦
      subst (λ t. StartsAt (some t) (n ∷ ns)) (sym ((eq_iff e "").0 blank)) (blank_entry (n ∷ ns))
  | inr named ↦
      subst (λ t. StartsAt (some e) (t ∷ ns))
        (sym ((eq_iff n e).0 (decided (n =ₛ e) (wrong_entry n e) (ground (arith, h, named)))))
        (at_entry e ns)
]

pub path-ModelPath :
    (steps : Dict Step) (ns : List String)
    → is_nonempty (unknowns steps ns) ≡ false
    → is_nonempty (bad_transitions steps ns) ≡ false
    → ModelPath steps ns
unfolding bad_transitions
path-ModelPath steps [] h g = no_path
path-ModelPath steps (a ∷ []) h g =
    let (k, rest) = unknowns-head steps a [] h in
    let (s, e) = found steps a (get steps a) refl k in last a s e
path-ModelPath steps (a ∷ b ∷ ns) h g =
    let (k, rest) = unknowns-head steps a (b ∷ ns) h in
    let (s, e) = found steps a (get steps a) refl k in
    let parts = append-empty (transition (get steps a) a b) (bad_transitions steps (b ∷ ns)) in
    next a b ns s e
      (transition-Leads s a b
        (subst (λ o. is_nonempty (transition o a b) ≡ false) e (ground (arith, parts))))
      (path-ModelPath steps (b ∷ ns) rest (ground (arith, parts)))
