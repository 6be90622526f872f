-- ===== src/Compliance/Assess.antt =====
-- compliance/evaluator.py: the assessment of one condition against one object (`_assess`, `_compare`,
-- `_is_stale`, `_uncorroborated`). Python's `str` on a value that is no text is a parameter.
use unityworks_vision_ai_bac.Prelude.{
  ℕ, ◌+◌, String, Bool, true, false, not, ◌&&◌, any, ltb, leb, str_eq, if◌then◌else◌, List, [], ◌∷◌,
  Option, none, some, Result, ok, raise, ◌>>=◌,
}
use unityworks_vision_ai_bac.Compliance.Value.{
  ℤ, less, Value, null, number, text, same_value, Expected, single, several, characters, one,
}
use unityworks_vision_ai_bac.Compliance.Document.{
  Error, type_error, Operator, eq, ne, is_in, not_in, gt, gte, lt, present, Condition,
  EvidenceRequirements, member, is_empty,
}
use unityworks_vision_ai_bac.Compliance.Finding.{
  UnknownReason, attribute_absent, attribute_stale, evidence_unverified, not_observable,
  coverage_gap, capability_gap, value_unparseable, ConditionOutcome, new_outcome,
}

-- `AttributeView`, `ObjectView` and `CoverageSummary` of core/model/api.py, as far as rules read them.
pub record AttributeView : Type 0 where
  pub value : Value
  pub observed_at : ℕ
  pub valid_until : Option ℕ
  pub evidence_ref : Option String

abbrev pub is_stale_at : AttributeView → ℕ → Bool
is_stale_at a now = elim a.valid_until [ none ↦ false | some until ↦ ltb until now ]

pub record ObjectView : Type 0 where
  pub object_id : String
  pub class_id : String
  pub camera_id : String
  pub attributes : List (String × AttributeView)

pub record CoverageSummary : Type 0 where
  pub observable_fraction : ℕ
  pub unavailable : List (String × String)

abbrev pub fully_observable : CoverageSummary → Bool
fully_observable c = leb one c.observable_fraction && is_empty c.unavailable

abbrev pub find_attribute : String → List (String × AttributeView) → Option AttributeView
find_attribute k [] = none
find_attribute k ((j, a) ∷ rest) = if str_eq j k then some a else find_attribute k rest

abbrev pub held_of : ObjectView → String → Option AttributeView
held_of view key = find_attribute key view.attributes

-- `now - observed_at > max_staleness`, with the subtraction moved to the other side.
unfoldable pub is_stale : AttributeView → EvidenceRequirements → ℕ → Bool
is_stale held evidence now = if is_stale_at held now then true else elim evidence.max_staleness [
  | none ↦ false
  | some limit ↦ ltb (held.observed_at + limit) now
]

unfoldable pub uncorroborated : ObjectView → EvidenceRequirements → ℕ → Bool
uncorroborated view evidence now =
    any (λ key. elim (held_of view key) [ none ↦ true | some a ↦ is_stale_at a now ])
      evidence.requires

-- `tuple(expected)`.
abbrev pub members : Expected → Result Error (List Value)
members (several vs) = ok vs
members (single (text s)) = ok (characters s)
members (single _) = raise type_error

-- `held == expected`: a scalar is no list.
abbrev pub equals : Value → Expected → Bool
equals v (single w) = same_value v w
equals v (several ws) = false

abbrev pub contains : Value → List Value → Bool
contains v ws = any (λ w. same_value v w) ws

abbrev pub compare_numbers : Operator → ℤ → ℤ → Bool
compare_numbers gt a b = less b a
compare_numbers gte a b = not (less a b)
compare_numbers lt a b = less a b
compare_numbers _ a b = not (less b a)

-- Booleans and texts have no order here.
abbrev pub compare_ordered : Operator → Value → Expected → Option Bool
compare_ordered op (number a) (single (number b)) = some (compare_numbers op a b)
compare_ordered op _ _ = none

unfoldable pub compare : Operator → Expected → Value → Result Error (Option Bool)
compare eq expected held = ok (some (equals held expected))
compare ne expected held = ok (some (not (equals held expected)))
compare is_in expected held = do vs ← members expected; ok (some (contains held vs))
compare not_in expected held = do vs ← members expected; ok (some (not (contains held vs)))
compare present expected held = ok none
compare op expected held = ok (compare_ordered op held expected)

abbrev pub is_present : Operator → Bool
is_present present = true
is_present _ = false

abbrev observed_value : Option AttributeView → Value
observed_value none = null
observed_value (some a) = a.value

abbrev outcome :
    Condition → Option AttributeView → Option Bool → Option UnknownReason → ConditionOutcome
outcome c held satisfied reason = record {
  attribute_key = c.attribute;
  operator = c.operator;
  expected = c.expected;
  observed = observed_value held;
  satisfied = satisfied;
  unknown_reason = reason;
  observed_at = elim held [ none ↦ none | some a ↦ some a.observed_at ];
  evidence_ref = elim held [ none ↦ none | some a ↦ a.evidence_ref ];
  message = c.message;
}

abbrev is_some {ℓ} : {A : Type ℓ} → Option A → Bool
is_some none = false
is_some (some a) = true

module _ (str_of : Value → String) where
  abbrev pub as_text : Value → String
  as_text (text s) = s
  as_text v = str_of v

  -- The value is one of those that mean "could not tell".
  unfoldable pub is_refusal : Condition → Value → Bool
  is_refusal c v = not (is_empty c.unknown_values) && member (as_text v) c.unknown_values

  module _ (view : ObjectView) (evidence : EvidenceRequirements) (now : ℕ) where
    -- `_assess` from the point where a value is held.
    unfoldable pub assess_held : Condition → AttributeView → Result Error ConditionOutcome
    unfolding new_outcome
    assess_held c held =
        if is_refusal c held.value
        then new_outcome (outcome c (some held) none (some not_observable))
        else if is_stale held evidence now
        then new_outcome (outcome c (some held) none (some attribute_stale))
        else if uncorroborated view evidence now
        then new_outcome (outcome c (some held) none (some evidence_unverified))
        else do
          verdict ← compare c.operator c.expected held.value
          new_outcome (
              outcome c (some held) verdict
                (elim verdict [ none ↦ some value_unparseable | some _ ↦ none ]))

    unfoldable pub assess :
        (capability_gaps : List String) (coverage : Option CoverageSummary)
        → Condition
        → Result Error ConditionOutcome
    unfolding assess_held
    assess capability_gaps coverage c =
        let held = held_of view c.attribute in
        let blind : Bool = elim coverage [ none ↦ false | some s ↦ not (fully_observable s) ] in
        if member c.attribute capability_gaps
        then new_outcome (outcome c held none (some capability_gap))
        else if evidence.require_full_coverage && blind
        then new_outcome (outcome c held none (some coverage_gap))
        else if is_present c.operator
        then new_outcome (outcome c held (some (is_some held)) none)
        else elim held [
          | none ↦ new_outcome (outcome c none none (some attribute_absent))
          | some a ↦ assess_held c a
        ]
