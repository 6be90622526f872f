-- ===== src/Compliance/Total.antt =====
-- On the conditions that a loaded rule can hold, an assessment never raises.
use unityworks_vision_ai_bac.Prelude.{
  ℕ, String, ◌≡◌, refl, false, not, ◌&&◌, List, [], ◌∷◌, Option, none, some, arith, Result, ok,
  raise, ◌>>◌, Returns, Returns-value,
}
use unityworks_vision_ai_bac.Compliance.Value.{Value, Expected, single, several}
use unityworks_vision_ai_bac.Compliance.Document.{
  Error, Operator, eq, is_in, not_in, Condition, EvidenceRequirements, check_condition, check_all,
  wants_list, is_list,
}
use unityworks_vision_ai_bac.Compliance.Finding.{ConditionOutcome}
use unityworks_vision_ai_bac.Compliance.Assess.{
  AttributeView, ObjectView, CoverageSummary, held_of, compare, assess_held, assess,
}
use unityworks_vision_ai_bac.Compliance.Evaluator.{collect}

abbrev Succeeds {ℓ} : {A : Type ℓ} → Result Error A → Type 0
Succeeds r = Returns r (λ _. Unit)

compare-Succeeds :
    (op : Operator) (e : Expected) (v : Value)
    → (wants_list op && not (is_list e)) ≡ false
    → Succeeds (compare op e v)
unfolding compare
compare-Succeeds is_in (single w) v h = cc
compare-Succeeds is_in (several ws) v h = tt
compare-Succeeds not_in (single w) v h = cc
compare-Succeeds not_in (several ws) v h = tt
compare-Succeeds eq e v h = tt
compare-Succeeds _ e v h = tt

-- A checked condition that wants a list has one.
list_of_check :
    (c : Condition)
    → check_condition c ≡ ok tt
    → (wants_list c.operator && not (is_list c.expected)) ≡ false
unfolding check_condition
list_of_check c h = ground arith

module _ (str_of : Value → String) (view : ObjectView) (evidence : EvidenceRequirements) (now : ℕ)
    (gaps : List String) (coverage : Option CoverageSummary) where
  assess_held-Succeeds :
      (c : Condition) (a : AttributeView)
      → check_condition c ≡ ok tt
      → Succeeds (assess_held str_of view evidence now c a)
  unfolding assess_held
  assess_held-Succeeds c a h =
      let (v, e, _) =
        Returns-value (compare c.operator c.expected a.value)
          (compare-Succeeds c.operator c.expected a.value (list_of_check c h)) in
      rw e (ground arith)

  assess-Succeeds :
      (c : Condition)
      → check_condition c ≡ ok tt
      → Succeeds (assess str_of view evidence now gaps coverage c)
  unfolding assess
  assess-Succeeds c h = go (held_of view c.attribute) refl
    where
      go :
          (o : Option AttributeView)
          → held_of view c.attribute ≡ o
          → Succeeds (assess str_of view evidence now gaps coverage c)
      go none e = rw (e, assess) (ground arith)
      go (some a) e = rw (e, assess) (ground (arith, assess_held-Succeeds c a h))

  pub collect-Succeeds :
      (cs : List Condition)
      → check_all check_condition cs ≡ ok tt
      → (os : List ConditionOutcome) × (collect (assess str_of view evidence now gaps coverage) cs
          ≡ ok os)
  collect-Succeeds [] h = ([], refl)
  collect-Succeeds (c ∷ cs) h = go (check_condition c) refl h (λ k. collect-Succeeds cs k)
    where
      go :
          (r : Result Error (Unit {0}))
          → check_condition c ≡ r
          → (r >> check_all check_condition cs) ≡ ok tt
          → (check_all check_condition cs ≡ ok tt
              → (os : List ConditionOutcome) × (collect
                    (assess str_of view evidence now gaps coverage)
                    cs
                  ≡ ok os))
          → (os : List ConditionOutcome) × (collect
                (assess str_of view evidence now gaps coverage)
                (c ∷ cs)
              ≡ ok os)
      go (ok u) e h rec =
          let (o, eo, _) =
            Returns-value (assess str_of view evidence now gaps coverage c) (assess-Succeeds c e) in
          let (os, eos) = rec h in (o ∷ os, rw (eo, eos))
      go (raise x) e h rec = cc
