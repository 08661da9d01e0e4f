-- ===== src/Ooe/Fresh.antt =====
-- Actions that evaluate rules from a state in which no flow has fired, one after the other.
use mathlib.Core.List.{Perm}
use mathlib.Core.List.Perm
use salesforce.Common.{◌≡◌, sym, ap, ◌∙◌, String, List, [], ◌++◌, append_assoc}
use salesforce.Common.Exec.{ok, ◌>>◌, >>=-eq-ok}
use salesforce.Ooe.Context.{Save}
use salesforce.Ooe.Pipeline.{OoeM}
use salesforce.Ooe.Preserves.{Preserves, fired_of}
use salesforce.Ooe.Rounds.{result_ids, Evaluates}

-- An action that, from a state in which no flow has fired, evaluates the named rules once each when
-- it returns.
pub record EvaluatesFresh (m : OoeM) (names : List String) : Type 0 where
  pub at :
      (s t : Save)
      → fired_of s ≡ []
      → m s ≡ (ok tt, t)
      → Perm (result_ids t) (result_ids s ++ names)

pub EvaluatesFresh->> :
    (m n : OoeM) (xs ys : List String)
    → Evaluates m xs
    → Preserves fired_of m
    → EvaluatesFresh n ys
    → EvaluatesFresh (m >> n) (xs ++ ys)
EvaluatesFresh->> m n xs ys hm pm hn = record {
  at = λ s t fresh q.
      let (a, u, e, f) = >>=-eq-ok m (λ _. n) s q in
      let still : fired_of u ≡ [] = ap (λ p. fired_of p.1) (sym e) ∙ pm.at s ∙ fresh in
      rw (← append_assoc) (Perm.trans (hn.at u t still f) (Perm.append_right ys (hm.at s u e)));
}

-- The rearrangements of three actions, joined.
pub Perm-chain :
    (r : List String) {t w u : List String} (a b c : List String)
    → Perm t (w ++ c)
    → Perm w (u ++ b)
    → Perm u (r ++ a)
    → Perm t (r ++ ((a ++ b) ++ c))
Perm-chain r a b c p q o =
    let e : r ++ ((a ++ b) ++ c) ≡ ((r ++ a) ++ b) ++ c = simp append_assoc in
    rw e (Perm.trans p (Perm.append_right c (Perm.trans q (Perm.append_right b o))))
