-- ===== src/Compliance/Document.antt =====
-- compliance/document.py: conditions, evidence requirements, scopes, rules and rule sets. A document is
-- taken after JSON parsing; `check_condition` and `check_rule` are the constructors' checks.
use Prim.Native.String
use text.Mathlib.Text.{starts_with}
use unityworks_vision_ai_bac.Prelude.{
  ℕ, String, Bool, true, false, not, ◌&&◌, ◌||◌, any, keep_if, str_eq, if◌then◌else◌, List, [], ◌∷◌,
  ◌++◌, map, Option, none, some, Result, ok, raise, ◌>>=◌, ◌>>◌,
}
use unityworks_vision_ai_bac.Compliance.Value.{null, Expected, single, several}

pub data Error : Type 0 where
  rule_document_error value_error type_error : Error

pub data Operator : Type 0 where
  eq ne is_in not_in gt gte lt lte present : Operator

abbrev pub needs_expected : Operator → Bool
needs_expected present = false
needs_expected _ = true

abbrev pub is_ordering : Operator → Bool
is_ordering gt = true
is_ordering gte = true
is_ordering lt = true
is_ordering lte = true
is_ordering _ = false

-- `expected` is `single null` where the document gives no value.
pub record Condition : Type 0 where
  pub attribute : String
  pub operator : Operator
  pub expected : Expected
  pub message : String
  pub unknown_values : List String

abbrev pub is_missing : Expected → Bool
is_missing (single null) = true
is_missing _ = false

abbrev pub is_list : Expected → Bool
is_list (several vs) = true
is_list (single v) = false

abbrev pub wants_list : Operator → Bool
wants_list is_in = true
wants_list not_in = true
wants_list _ = false

unfoldable pub check_condition : Condition → Result Error (Unit {0})
check_condition c =
    if str_eq c.attribute ""
    then raise rule_document_error
    else if needs_expected c.operator && is_missing c.expected
    then raise rule_document_error
    else if wants_list c.operator && not (is_list c.expected)
    then raise rule_document_error
    else ok tt

-- A time span is in nanoseconds, and no rule asks for a negative one.
pub record EvidenceRequirements : Type 0 where
  pub max_staleness : Option ℕ
  pub requires : List String
  pub require_full_coverage : Bool

pub record RuleScope : Type 0 where
  pub tenant_id : String
  pub site_ids : List String
  pub camera_ids : List String

-- `x in xs`, and `not xs`.
abbrev pub member : String → List String → Bool
member x xs = any (λ y. str_eq y x) xs

abbrev pub is_empty {ℓ} : {A : Type ℓ} → List A → Bool
is_empty [] = true
is_empty (x ∷ xs) = false

abbrev pub covers_camera : RuleScope → String → Bool
covers_camera scope camera_id = is_empty scope.camera_ids || member camera_id scope.camera_ids

pub record Rule : Type 0 where
  pub rule_id : String
  pub version : String
  pub require : List Condition
  pub when : List Condition
  pub subject_classes : List String
  pub scope : RuleScope
  pub evidence : EvidenceRequirements
  pub severity : String
  pub labels : List (String × String)

unfoldable pub check_rule : Rule → Result Error (Unit {0})
check_rule r =
    if str_eq r.rule_id ""
    then raise rule_document_error
    else if str_eq r.version ""
    then raise rule_document_error
    else if is_empty r.require
    then raise rule_document_error
    else ok tt

-- `if key not in keys: keys.append(key)`, for each key in turn.
abbrev pub add_new : List String → List String → List String
add_new seen [] = seen
add_new seen (k ∷ ks) = add_new (if member k seen then seen else seen ++ k ∷ []) ks

unfoldable pub attributes : Rule → List String
attributes r =
    add_new (add_new [] (map (λ c. c.attribute) (r.when ++ r.require))) r.evidence.requires

abbrev pub covers_class : Rule → String → Bool
covers_class r class_id =
    is_empty r.subject_classes
    || any (λ allowed. str_eq class_id allowed || starts_with class_id (String.◌++◌ allowed "."))
        r.subject_classes

pub record RuleSet : Type 0 where
  pub version : String
  pub rules : List Rule

abbrev pub for_class : RuleSet → String → List Rule
for_class s class_id = keep_if (λ r. covers_class r class_id) s.rules

abbrev pub get_from : List Rule → String → Option Rule
get_from [] rule_id = none
get_from (r ∷ rs) rule_id = if str_eq r.rule_id rule_id then some r else get_from rs rule_id

abbrev pub get : RuleSet → String → Option Rule
get s = get_from s.rules

abbrev required_from : List String → List Rule → List String
required_from seen [] = seen
required_from seen (r ∷ rs) = required_from (add_new seen (attributes r)) rs

unfoldable pub required_attributes : RuleSet → List String
unfolding attributes
required_attributes s = required_from [] s.rules

abbrev gaps_of : Rule → List String → List String → List (String × String)
gaps_of r producible keys =
    map (λ k. (r.rule_id, k)) (keep_if (λ k. not (member k producible)) keys)

abbrev gaps_from : List String → List Rule → List (String × String)
gaps_from producible [] = []
gaps_from producible (r ∷ rs) = gaps_of r producible (attributes r) ++ gaps_from producible rs

unfoldable pub unproducible_against : RuleSet → List String → List (String × String)
unproducible_against s producible = gaps_from producible s.rules

-- The check of `from_document` that no rule id is declared twice.
abbrev pub check_ids : List String → List Rule → Result Error (Unit {0})
check_ids seen [] = ok tt
check_ids seen (r ∷ rs) =
    if member r.rule_id seen then raise rule_document_error else check_ids (r.rule_id ∷ seen) rs

abbrev pub check_all {ℓ} :
    {A : Type ℓ} → (A → Result Error (Unit {0})) → List A → Result Error (Unit {0})
check_all f [] = ok tt
check_all f (x ∷ xs) = f x >> check_all f xs

-- `_rule_from` on the fields of an entry: its conditions first, then the rule.
unfoldable pub load_rule : Rule → Result Error Rule
unfolding check_condition check_rule
load_rule r = do
  check_all check_condition r.require
  check_all check_condition r.when
  check_rule r
  ok r

abbrev pub load_rules_from : List Rule → Result Error (List Rule)
load_rules_from [] = ok []
load_rules_from (r ∷ rs) = do r' ← load_rule r; rest ← load_rules_from rs; ok (r' ∷ rest)

unfoldable pub from_document : String → List Rule → Result Error RuleSet
unfolding load_rule
from_document version entries = do
  rules ← load_rules_from entries
  check_ids [] rules
  ok (record { version = version; rules = rules })
