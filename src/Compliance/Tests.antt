-- ===== src/Compliance/Tests.antt =====
-- Runs of the evaluator, and the theorems at concrete inputs.
use unityworks_vision_ai_bac.Prelude.{
  ℕ, String, ◌≡◌, inl, refl, true, false, List, [], ◌∷◌, none, some, Result, ok, raise, Returns,
}
use unityworks_vision_ai_bac.Compliance.Value.{Value, text, single, several, one}
use unityworks_vision_ai_bac.Compliance.Document.{
  Error, Rule, RuleSet, Condition, eq, is_in, load_rule, from_document, get, rule_document_error,
}
use unityworks_vision_ai_bac.Compliance.Finding.{
  ConditionOutcome, violation, unknown, compliant, Finding, SubjectRef,
}
use unityworks_vision_ai_bac.Compliance.Assess.{
  is_refusal, is_stale, uncorroborated, compare, AttributeView, ObjectView, assess,
}
use unityworks_vision_ai_bac.Compliance.Evaluator.{collect, evaluate_rule, evaluate}
use unityworks_vision_ai_bac.Compliance.Kleene.{all_known, verdict, Names, evaluate_rule-verdict}
use unityworks_vision_ai_bac.Compliance.Grounds.{FailedOnGrounds, evaluate_rule-violation}
use unityworks_vision_ai_bac.Compliance.Runs.{from_document-get}

abbrev wears : Condition
wears = record {
  attribute = "head_covering";
  operator = eq;
  expected = single (text "hairnet");
  message = "no hairnet";
  unknown_values = "not_visible" ∷ [];
}

abbrev cooks : Condition
cooks = record wears {
  attribute = "role";
  operator = is_in;
  expected = several (text "cook" ∷ []);
  message = "";
}

abbrev hairnet : Rule
hairnet = record {
  rule_id = "R1";
  version = "1";
  require = wears ∷ [];
  when = cooks ∷ [];
  subject_classes = "person" ∷ [];
  scope = record { tenant_id = ""; site_ids = []; camera_ids = [] };
  evidence = record { max_staleness = some 100; requires = []; require_full_coverage = false };
  severity = "high";
  labels = [];
}

abbrev rules : RuleSet
rules = record { version = "1.0.0"; rules = hairnet ∷ [] }

abbrev seen : String → ℕ → AttributeView
seen v at = record { value = text v; observed_at = at; valid_until = none; evidence_ref = none }

abbrev person : String → ObjectView
person covering = record {
  object_id = "obj-1";
  class_id = "person.staff";
  camera_id = "cam-12";
  attributes = ("role", seen "cook" 950) ∷ ("head_covering", seen covering 950) ∷ [];
}

abbrev str_of : Value → String
str_of _ = "?"

abbrev name_finding : Rule → SubjectRef → ℕ → String
name_finding r s now = r.rule_id

abbrev judge : String → ℕ → Result Error Finding
judge covering now =
    evaluate_rule str_of name_finding rules now none [] "" hairnet (person covering)

program : Unit {0}
unfolding evaluate from_document is_refusal is_stale uncorroborated compare
program = tt

-- A bare head is a violation; a head that was not visible, or was seen too long ago, is not.
bare_head : Returns (judge "none" 1000) (λ f. f.state ≡ violation)
unfolding program
bare_head = refl

hidden_head : Returns (judge "not_visible" 1000) (λ f. f.state ≡ unknown)
unfolding program
hidden_head = refl

stale_head : Returns (judge "none" 1051) (λ f. f.state ≡ unknown)
unfolding program
stale_head = refl

covered_head : Returns (judge "hairnet" 1000) (λ f. f.state ≡ compliant)
unfolding program
covered_head = refl

twice_declared : from_document "1" (hairnet ∷ hairnet ∷ []) ≡ raise rule_document_error
unfolding program
twice_declared = refl

hairnet_loads : load_rule hairnet ≡ ok hairnet
unfolding program
hairnet_loads = refl

abbrev assess_one : Condition → Result Error ConditionOutcome
assess_one = assess str_of (person "none") hairnet.evidence 1000 [] none

evaluate_rule-verdict_example :
    (g : List ConditionOutcome) × (q : List ConditionOutcome) × (collect assess_one hairnet.when
      ≡ ok g)
    × (collect assess_one hairnet.require ≡ ok q)
    × Returns (judge "none" 1000) (Names hairnet (verdict (all_known g) (all_known q)))
evaluate_rule-verdict_example =
    evaluate_rule-verdict str_of name_finding rules 1000 none [] hairnet "" (person "none")
      hairnet_loads tt

abbrev bare : Finding
bare = record {
  finding_id = "R1";
  rule_id = "R1";
  rule_version = "1";
  ruleset_version = "1.0.0";
  state = violation;
  subject = record {
    object_id = "obj-1";
    class_id = "person.staff";
    camera_id = "cam-12";
    label = "";
  };
  evaluated_at = 1000;
  conditions =
      record {
        attribute_key = "role";
        operator = is_in;
        expected = several (text "cook" ∷ []);
        observed = text "cook";
        satisfied = some true;
        unknown_reason = none;
        observed_at = some 950;
        evidence_ref = none;
        message = "";
      }
      ∷ record {
        attribute_key = "head_covering";
        operator = eq;
        expected = single (text "hairnet");
        observed = text "none";
        satisfied = some false;
        unknown_reason = none;
        observed_at = some 950;
        evidence_ref = none;
        message = "no hairnet";
      }
      ∷ [];
  severity = "high";
  coverage_fraction = one;
  labels = [];
}

judge-bare : judge "none" 1000 ≡ ok bare
unfolding program
judge-bare = refl

evaluate_rule-violation_example :
    FailedOnGrounds str_of
      (person "none")
      hairnet.evidence
      1000
      []
      none
      hairnet.require
      bare.conditions
evaluate_rule-violation_example =
    evaluate_rule-violation str_of name_finding rules 1000 none [] "" hairnet (person "none") bare
      judge-bare refl

loads : from_document "1.0.0" (hairnet ∷ []) ≡ ok rules
unfolding program
loads = refl

from_document-get_example : get rules "R1" ≡ some hairnet
from_document-get_example = from_document-get "1.0.0" (hairnet ∷ []) rules hairnet loads (inl refl)
