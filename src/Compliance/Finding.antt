-- ===== src/Compliance/Finding.antt =====
-- compliance/finding.py: outcomes of conditions and findings, with the checks of their constructors.
use unityworks_vision_ai_bac.Prelude.{
  ℕ, ◌-◌, String, Bool, true, false, not, ◌&&◌, keep_if, ltb, str_eq, if◌then◌else◌, List, Option,
  none, some, Result, ok, raise, ◌>>◌,
}
use unityworks_vision_ai_bac.Compliance.Value.{Value, Expected, one}
use unityworks_vision_ai_bac.Compliance.Document.{Operator, Error, value_error, is_empty}

pub data ComplianceState : Type 0 where
  compliant violation unknown not_applicable : ComplianceState

abbrev pub is_decided : ComplianceState → Bool
is_decided compliant = true
is_decided violation = true
is_decided _ = false

pub data UnknownReason : Type 0 where
  attribute_absent attribute_stale evidence_unverified not_observable coverage_gap capability_gap
        subject_not_observed value_unparseable :
      UnknownReason

pub record SubjectRef : Type 0 where
  pub object_id : String
  pub class_id : String
  pub camera_id : String
  pub label : String

-- `satisfied` is the three-valued verdict; `none` is "could not be established".
pub record ConditionOutcome : Type 0 where
  pub attribute_key : String
  pub operator : Operator
  pub expected : Expected
  pub observed : Value
  pub satisfied : Option Bool
  pub unknown_reason : Option UnknownReason
  pub observed_at : Option ℕ
  pub evidence_ref : Option String
  pub message : String

abbrev pub check_verdict : Option Bool → Option UnknownReason → Result Error (Unit {0})
check_verdict none none = raise value_error
check_verdict (some v) (some r) = raise value_error
check_verdict _ _ = ok tt

unfoldable pub new_outcome : ConditionOutcome → Result Error ConditionOutcome
new_outcome o = do check_verdict o.satisfied o.unknown_reason; ok o

abbrev pub failed : ConditionOutcome → Bool
failed o = elim o.satisfied [ none ↦ false | some b ↦ not b ]

abbrev pub unresolved : ConditionOutcome → Bool
unresolved o = elim o.satisfied [ none ↦ true | some b ↦ false ]

abbrev pub held_true : ConditionOutcome → Bool
held_true o = elim o.satisfied [ none ↦ false | some b ↦ b ]

-- `coverage_fraction` is in millionths.
pub record Finding : Type 0 where
  pub finding_id : String
  pub rule_id : String
  pub rule_version : String
  pub ruleset_version : String
  pub state : ComplianceState
  pub subject : SubjectRef
  pub evaluated_at : ℕ
  pub conditions : List ConditionOutcome
  pub severity : String
  pub coverage_fraction : ℕ
  pub labels : List (String × String)

abbrev pub failed_conditions : Finding → List ConditionOutcome
failed_conditions f = keep_if failed f.conditions

abbrev pub unresolved_conditions : Finding → List ConditionOutcome
unresolved_conditions f = keep_if unresolved f.conditions

abbrev pub satisfied_conditions : Finding → List ConditionOutcome
satisfied_conditions f = keep_if held_true f.conditions

abbrev pub is_violation : ComplianceState → Bool
is_violation violation = true
is_violation _ = false

abbrev pub is_unknown : ComplianceState → Bool
is_unknown unknown = true
is_unknown _ = false

-- A fraction is not negative here: it comes from a coverage report, whose constructor refuses a negative
-- one, so that of the two bounds only the upper one can be missed.
unfoldable pub new_finding : Finding → Result Error Finding
new_finding f =
    if str_eq f.rule_id ""
    then raise value_error
    else if str_eq f.rule_version ""
    then raise value_error
    else if is_violation f.state && is_empty (failed_conditions f)
    then raise value_error
    else if is_unknown f.state && is_empty (unresolved_conditions f)
    then raise value_error
    else if ltb one f.coverage_fraction
    then raise value_error
    else ok f

-- `max(0, now - evaluated_at)`: subtraction on ℕ stops at 0.
abbrev pub age : Finding → ℕ → ℕ
age f now = now - f.evaluated_at
