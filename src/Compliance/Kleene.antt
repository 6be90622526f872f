-- ===== src/Compliance/Kleene.antt =====
-- Three-valued logic, as compliance/evaluator.py describes it: a verdict is true, false or not known, a
-- failure outranks what is not known, and the guard decides whether the requirement counts.
use unityworks_vision_ai_bac.Prelude.{
  ℕ, String, ◌≡◌, refl, Bool, true, false, not, ◌||◌, any, keep_if, ◌≤◌, List, [], ◌∷◌, ◌++◌,
  Option, none, some, arith, ok, Returns, if◌then◌else◌, str_eq,
}
use unityworks_vision_ai_bac.Compliance.Value.{Value, one}
use unityworks_vision_ai_bac.Compliance.Document.{
  Rule, RuleSet, load_rule, check_all, check_condition, is_empty,
}
use unityworks_vision_ai_bac.Compliance.Finding.{
  ComplianceState, compliant, violation, unknown, not_applicable, ConditionOutcome, failed,
  unresolved, Finding, SubjectRef,
}
use unityworks_vision_ai_bac.Compliance.Assess.{ObjectView, CoverageSummary, assess}
use unityworks_vision_ai_bac.Compliance.Evaluator.{
  collect, state_of, observable_of, conclude, evaluate_rule,
}
use unityworks_vision_ai_bac.Compliance.Total.{collect-Succeeds}

-- Conjunction: false if any part is, true if all are.
abbrev pub and_known : Option Bool → Option Bool → Option Bool
and_known (some false) b = some false
and_known (some true) b = b
and_known none (some false) = some false
and_known none _ = none

abbrev pub all_known : List ConditionOutcome → Option Bool
all_known [] = some true
all_known (o ∷ os) = and_known o.satisfied (all_known os)

-- What a rule says, given its guard and its requirement.
abbrev pub verdict : Option Bool → Option Bool → ComplianceState
verdict (some false) require = not_applicable
verdict none require = unknown
verdict (some true) (some false) = violation
verdict (some true) none = unknown
verdict (some true) (some true) = compliant

all_known-any :
    (os : List ConditionOutcome)
    → all_known os
      ≡ (if any failed os then some false else if any unresolved os then none else some true)
all_known-any [] = refl
all_known-any (o ∷ os) = ground (arith, all_known-any os)

state_of-verdict : (os : List ConditionOutcome) → state_of os ≡ verdict (some true) (all_known os)
state_of-verdict os = ground (arith, all_known-any os)

keep_if-any :
    (p : ConditionOutcome → Bool) (os : List ConditionOutcome)
    → is_empty (keep_if p os) ≡ not (any p os)
keep_if-any p [] = refl
keep_if-any p (o ∷ os) = ground (arith, keep_if-any p os)

any-append :
    (p : ConditionOutcome → Bool) (os qs : List ConditionOutcome)
    → any p (os ++ qs) ≡ (any p os || any p qs)
any-append p [] qs = refl
any-append p (o ∷ os) qs = ground (arith, any-append p os qs)

load_rule-checks :
    (r : Rule)
    → load_rule r ≡ ok r
    → (check_all check_condition r.require ≡ ok tt)
      × (check_all check_condition r.when ≡ ok tt)
      × (str_eq r.rule_id "" ≡ false)
      × (str_eq r.version "" ≡ false)
unfolding load_rule
load_rule-checks r h = (ground arith, ground arith, ground arith, ground arith)

-- A fraction of the scope, in millionths, is at most 1.
abbrev pub CoverageFits : Option CoverageSummary → Type 0
CoverageFits none = Unit
CoverageFits (some s) = s.observable_fraction ≤ one

observable-le : (c : Option CoverageSummary) → CoverageFits c → observable_of c ≤ one
observable-le none h = omega arith
observable-le (some s) h = h

-- The parts of a finding that name the rule.
abbrev pub Names : Rule → ComplianceState → Finding → Type 0
Names rule s f = (f.state ≡ s) × (f.rule_id ≡ rule.rule_id) × (f.rule_version ≡ rule.version)

module _ (str_of : Value → String) (id_factory : Rule → SubjectRef → ℕ → String) (rules : RuleSet)
    (now : ℕ) (coverage : Option CoverageSummary) (gaps : List String) (rule : Rule) where
  conclude-verdict :
      (subject : SubjectRef) (g q : List ConditionOutcome) (observable : ℕ)
      → observable ≤ one
      → str_eq rule.rule_id "" ≡ false
      → str_eq rule.version "" ≡ false
      → Returns
          (conclude str_of id_factory rules now coverage gaps rule subject g (ok q) observable)
          (Names rule (verdict (all_known g) (all_known q)))
  unfolding conclude
  conclude-verdict subject g q n h i v = ground (
    arith,
    all_known-any g,
    all_known-any q,
    keep_if-any failed (g ++ q),
    keep_if-any unresolved (g ++ q),
    keep_if-any failed g,
    keep_if-any unresolved g,
    any-append failed g q,
    any-append unresolved g q,
  )

  -- Where the observable fraction of the coverage, if there is a coverage, is at most 1, a rule that loads
  -- reaches a finding on every object, whatever the attributes hold: no check of the constructors fires,
  -- and the state is the three-valued conjunction of the guard's outcomes and of
  -- the requirement's, with the guard first and a failure before what is not known.
  pub evaluate_rule-verdict :
      (label : String) (view : ObjectView)
      → load_rule rule ≡ ok rule
      → CoverageFits coverage
      → (g : List ConditionOutcome) × (q : List ConditionOutcome) × (collect
            (assess str_of view rule.evidence now gaps coverage)
            rule.when
          ≡ ok g)
        × (collect (assess str_of view rule.evidence now gaps coverage) rule.require ≡ ok q)
        × Returns
            (evaluate_rule str_of id_factory rules now coverage gaps label rule view)
            (Names rule (verdict (all_known g) (all_known q)))
  unfolding evaluate_rule
  evaluate_rule-verdict label view h fits =
      let (cq, cg, i, v) = load_rule-checks rule h in
      let (g, eg) = collect-Succeeds str_of view rule.evidence now gaps coverage rule.when cg in
      let (q, eq) = collect-Succeeds str_of view rule.evidence now gaps coverage rule.require cq in
      (g, q, eg, eq, rw (eg, eq) (conclude-verdict _ g q _ (observable-le coverage fits) i v))
