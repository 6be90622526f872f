-- ===== src/Compliance/Evaluator.antt =====
-- compliance/evaluator.py: `ComplianceEvaluator`. Its id factory is a parameter.
use unityworks_vision_ai_bac.Prelude.{
  ℕ, String, any, keep_if, str_eq, if◌then◌else◌, List, [], ◌∷◌, ◌++◌, Option, none, some, Result,
  ok, ◌>>=◌,
}
use unityworks_vision_ai_bac.Compliance.Value.{Value, one}
use unityworks_vision_ai_bac.Compliance.Document.{Error, Rule, RuleSet, covers_camera, for_class}
use unityworks_vision_ai_bac.Compliance.Finding.{
  ComplianceState, compliant, violation, unknown, not_applicable, SubjectRef, ConditionOutcome,
  failed, unresolved, Finding, new_finding,
}
use unityworks_vision_ai_bac.Compliance.Assess.{ObjectView, CoverageSummary, assess}

-- `[f(c) for c in xs]` where `f` may raise.
abbrev pub collect {ℓ κ} :
    {A : Type ℓ} {B : Type κ} → (A → Result Error B) → List A → Result Error (List B)
collect f [] = ok []
collect f (x ∷ xs) = do y ← f x; ys ← collect f xs; ok (y ∷ ys)

abbrev pub state_of : List ConditionOutcome → ComplianceState
state_of required =
    if any failed required
    then violation
    else if any unresolved required
    then unknown
    else compliant

-- The subject of a finding, and how much of its scope was observed.
abbrev pub subject_of : String → ObjectView → SubjectRef
subject_of label view = record {
  object_id = view.object_id;
  class_id = view.class_id;
  camera_id = view.camera_id;
  label = label;
}

abbrev pub observable_of : Option CoverageSummary → ℕ
observable_of none = one
observable_of (some s) = s.observable_fraction

-- `labels.get(str(view.object_id), "")`.
abbrev pub label_of : List (String × String) → String → String
label_of [] k = ""
label_of ((j, l) ∷ rest) k = if str_eq j k then l else label_of rest k

module _ (str_of : Value → String) (id_factory : Rule → SubjectRef → ℕ → String)
    (rules : RuleSet) where
  unfoldable pub finding :
      Rule
      → SubjectRef
      → ComplianceState
      → List ConditionOutcome
      → (now observable : ℕ) → Result Error Finding
  unfolding new_finding
  finding rule subject state outcomes now observable = new_finding (record {
    finding_id = id_factory rule subject now;
    rule_id = rule.rule_id;
    rule_version = rule.version;
    ruleset_version = rules.version;
    state = state;
    subject = subject;
    evaluated_at = now;
    conditions = outcomes;
    severity = rule.severity;
    coverage_fraction = observable;
    labels = rule.labels;
  })

  module _ (now : ℕ) (coverage : Option CoverageSummary) (capability_gaps : List String) where
    -- The verdict from the guard's outcomes and the requirement's, which are only assessed where the
    -- guard holds.
    unfoldable pub conclude :
        Rule
        → SubjectRef
        → List ConditionOutcome
        → Result Error (List ConditionOutcome)
        → (observable : ℕ) → Result Error Finding
    unfolding finding
    conclude rule subject guard required observable =
        if any failed guard
        then finding rule subject not_applicable guard now observable
        else if any unresolved guard
        then finding rule subject unknown guard now observable
        else (required >>= λ outcomes.
            finding rule subject (state_of outcomes) (guard ++ outcomes) now observable)

    unfoldable pub evaluate_rule :
        (subject_label : String) → Rule → ObjectView → Result Error Finding
    unfolding assess conclude
    evaluate_rule subject_label rule view =
        let assess_one = assess str_of view rule.evidence now capability_gaps coverage in
        do
          guard ← collect assess_one rule.when
          conclude rule (subject_of subject_label view) guard (collect assess_one rule.require)
              (observable_of coverage)

    unfoldable pub evaluate_object :
        (subject_label : String) → ObjectView → Result Error (List Finding)
    unfolding evaluate_rule
    evaluate_object subject_label view =
        collect (λ rule. evaluate_rule subject_label rule view)
          (keep_if (λ rule. covers_camera rule.scope view.camera_id)
            (for_class rules view.class_id))

    unfoldable pub evaluate : List (String × String) → List ObjectView → Result Error (List Finding)
    unfolding evaluate_object
    evaluate labels [] = ok []
    evaluate labels (view ∷ views) = do
      found ← evaluate_object (label_of labels view.object_id) view
      rest ← evaluate labels views
      ok (found ++ rest)
