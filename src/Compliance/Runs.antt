-- ===== src/Compliance/Runs.antt =====
-- Whole evaluations (compliance/evaluator.py): each subject on its own, each covering rule once, in
-- document order; and the lookup of rules in a loaded set (compliance/document.py).
use mathlib.Core.List.{append_assoc}
use mathlib.Core.Path.{subst}
use unityworks_vision_ai_bac.Prelude.{
  ℕ, String, ◌≡◌, ◌⊎◌, inl, inr, refl, sym, ap, true, false, any, List, [], ◌∷◌, ◌++◌, Option, some,
  arith, Result, ok, raise, ◌>>=◌, >>=-eq-ok, str_eq, eq_iff,
}
use unityworks_vision_ai_bac.Compliance.Value.{Value}
use unityworks_vision_ai_bac.Compliance.Document.{
  Error, Rule, RuleSet, member, check_ids, get, get_from, from_document, load_rules_from,
}
use unityworks_vision_ai_bac.Compliance.Finding.{Finding, SubjectRef}
use unityworks_vision_ai_bac.Compliance.Assess.{ObjectView, CoverageSummary}
use unityworks_vision_ai_bac.Compliance.Evaluator.{evaluate_object, evaluate, label_of}

module _ (str_of : Value → String) (id_factory : Rule → SubjectRef → ℕ → String) (rules : RuleSet)
    (now : ℕ) (coverage : Option CoverageSummary) (gaps : List String) where
  abbrev both :
      Result Error (List Finding) → Result Error (List Finding) → Result Error (List Finding)
  both r s = r >>= λ a. s >>= λ b. ok (a ++ b)

  both_assoc : (r s t : Result Error (List Finding)) → both (both r s) t ≡ both r (both s t)
  both_assoc (ok a) (ok b) (ok c) = ap ok (append_assoc a b c)
  both_assoc (ok a) (ok b) (raise x) = refl
  both_assoc (ok a) (raise x) t = refl
  both_assoc (raise x) s t = refl

  both_nil : (t : Result Error (List Finding)) → both (ok []) t ≡ t
  both_nil (ok c) = refl
  both_nil (raise x) = refl

  -- Subjects are evaluated independently: evaluating two groups together gives the findings of the
  -- first and then those of the second, each as if it stood alone.
  evaluate-append :
      (labels : List (String × String)) (views more : List ObjectView)
      → evaluate str_of id_factory rules now coverage gaps labels (views ++ more) ≡ (
          evaluate str_of id_factory rules now coverage gaps labels views >>= λ a.
          evaluate str_of id_factory rules now coverage gaps labels more >>= λ b. ok (a ++ b))
  unfolding evaluate
  evaluate-append labels [] more = sym (both_nil _)
  evaluate-append labels (v ∷ views) more = rw (evaluate-append labels views more) (
      sym (
        both_assoc
          (evaluate_object str_of id_factory rules now coverage gaps (label_of labels v.object_id)
            v)
          _ _))

-- In a set that loads the ids of the rules are distinct.
abbrev Absent : String → List Rule → Type 0
Absent i rs = any (λ r. str_eq r.rule_id i) rs ≡ false

-- On the list.
abbrev pub In : Rule → List Rule → Type 0
In x [] = ⊥
In x (r ∷ rs) = (x ≡ r) ⊎ In x rs

check_ids-absent :
    (seen : List String) (rs : List Rule) (i : String) (x : Rule)
    → check_ids seen rs ≡ ok tt
    → member i seen ≡ true
    → In x rs
    → str_eq i x.rule_id ≡ false
check_ids-absent seen [] i x h m inside = absurd inside
check_ids-absent seen (r ∷ rs) i x h m (inl e) = rw e (ground (arith, eq_iff i r.rule_id))
check_ids-absent seen (r ∷ rs) i x h m (inr l) =
    check_ids-absent (r.rule_id ∷ seen) rs i x (ground arith) (ground arith) l

get-In :
    (seen : List String) (rs : List Rule) (r : Rule)
    → check_ids seen rs ≡ ok tt
    → In r rs
    → get_from rs r.rule_id ≡ some r
get-In seen [] r h inside = absurd inside
get-In seen (s ∷ rs) r h (inl e) = rw e (ground (arith, eq_iff s.rule_id s.rule_id))
get-In seen (s ∷ rs) r h (inr l) =
    let rest : check_ids (s.rule_id ∷ seen) rs ≡ ok tt = ground arith in
    rw
      (check_ids-absent (s.rule_id ∷ seen) rs s.rule_id r rest
        (ground (arith, eq_iff s.rule_id s.rule_id)) l)
      (get-In (s.rule_id ∷ seen) rs r rest l)

-- Every rule of a loaded document is the one that `get` returns for its id.
pub from_document-get :
    (version : String) (entries : List Rule) (s : RuleSet) (r : Rule)
    → from_document version entries ≡ ok s
    → In r s.rules
    → get s r.rule_id ≡ some r
unfolding from_document
from_document-get version entries s r h inside =
    let (rules, _, k) = >>=-eq-ok (load_rules_from entries) _ h in
    let (u, distinct, l) = >>=-eq-ok (check_ids [] rules) _ k in
    let same : s.rules ≡ rules = ground arith in
    rw same (get-In [] rules r distinct (subst (In r) same inside))
