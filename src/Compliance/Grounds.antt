-- ===== src/Compliance/Grounds.antt =====
-- What a violation rests on (compliance/evaluator.py): a fact that was observed, fresh, corroborated
-- where the rule asks for it, and compared; or the absence that `present` asks about.
use unityworks_vision_ai_bac.Prelude.{
  ℕ, String, ◌≡◌, ◌⊎◌, inl, inr, refl, true, false, any, In, In-append-right, List, [], ◌∷◌, ◌++◌,
  Option, none, some, arith, Result, ok, raise, ◌>>=◌, >>=-eq-ok, Bool-cases, Option-cases,
}
use unityworks_vision_ai_bac.Compliance.Value.{Value}
use unityworks_vision_ai_bac.Compliance.Document.{
  Error, Rule, RuleSet, Condition, present, EvidenceRequirements, member,
}
use unityworks_vision_ai_bac.Compliance.Finding.{
  violation, ConditionOutcome, failed, Finding, SubjectRef,
}
use unityworks_vision_ai_bac.Compliance.Assess.{
  AttributeView, ObjectView, CoverageSummary, held_of, compare, is_refusal, is_stale,
  uncorroborated, assess_held, assess,
}
use unityworks_vision_ai_bac.Compliance.Evaluator.{collect, conclude, evaluate_rule}

module _ (str_of : Value → String) (view : ObjectView) (evidence : EvidenceRequirements)
    (now : ℕ) where
  -- The value that the condition was held against: not a refusal, not stale, corroborated, and the
  -- comparison says no.
  pub record IsRefuted (c : Condition) (a : AttributeView) : Type 0 where
    pub held : held_of view c.attribute ≡ some a
    pub factual : is_refusal str_of c a.value ≡ false
    pub fresh : is_stale a evidence now ≡ false
    pub corroborated : uncorroborated view evidence now ≡ false
    pub compared : compare c.operator c.expected a.value ≡ ok (some false)

  -- The outcome says which condition it is of.
  abbrev pub Reports : Condition → ConditionOutcome → Type 0
  Reports c o =
      (o.attribute_key ≡ c.attribute)
      × (o.operator ≡ c.operator)
      × (o.expected ≡ c.expected)
      × (o.message ≡ c.message)

  -- Why a condition failed.
  abbrev pub Ground : Condition → Type 0
  Ground c =
      ((c.operator ≡ present) × (held_of view c.attribute ≡ none))
      ⊎ ((a : AttributeView) × IsRefuted c a)

  assess_held-refutes :
      (c : Condition) (a : AttributeView) (o : ConditionOutcome)
      → assess_held str_of view evidence now c a ≡ ok o
      → failed o ≡ true
      → (is_refusal str_of c a.value ≡ false)
        × (is_stale a evidence now ≡ false)
        × (uncorroborated view evidence now ≡ false)
        × (compare c.operator c.expected a.value ≡ ok (some false))
  unfolding assess_held
  assess_held-refutes c a o h f = (ground arith, ground arith, ground arith, ground arith)

  assess_held-Reports :
      (c : Condition) (a : AttributeView) (o : ConditionOutcome)
      → assess_held str_of view evidence now c a ≡ ok o
      → failed o ≡ true
      → Reports c o
  unfolding assess_held
  assess_held-Reports c a o h f = (ground arith, ground arith, ground arith, ground arith)

  module _ (gaps : List String) (coverage : Option CoverageSummary) where
    assess-none :
        (c : Condition) (o : ConditionOutcome)
        → held_of view c.attribute ≡ none
        → assess str_of view evidence now gaps coverage c ≡ ok o
        → failed o ≡ true
        → (member c.attribute gaps ≡ false) × (c.operator ≡ present)
    unfolding assess
    assess-none c o e h f = (ground arith, ground arith)

    assess-some :
        (c : Condition) (a : AttributeView) (o : ConditionOutcome)
        → held_of view c.attribute ≡ some a
        → assess str_of view evidence now gaps coverage c ≡ ok o
        → failed o ≡ true
        → (member c.attribute gaps ≡ false) × (assess_held str_of view evidence now c a ≡ ok o)
    unfolding assess
    assess-some c a o e h f = (ground arith, ground arith)

    absent-Reports :
        (c : Condition) (o : ConditionOutcome)
        → held_of view c.attribute ≡ none
        → assess str_of view evidence now gaps coverage c ≡ ok o
        → failed o ≡ true
        → Reports c o
    unfolding assess
    absent-Reports c o e h f = (ground arith, ground arith, ground arith, ground arith)

    assess-Reports :
        (c : Condition) (o : ConditionOutcome)
        → assess str_of view evidence now gaps coverage c ≡ ok o
        → failed o ≡ true
        → Reports c o
    assess-Reports c o h f = elim (Option-cases (held_of view c.attribute)) [
      | inl e ↦ absent-Reports c o e h f
      | inr (a, e) ↦ assess_held-Reports c a o (assess-some c a o e h f).1 f
    ]

    -- A condition fails only on grounds, and never where its attribute is a capability gap.
    assess-Ground :
        (c : Condition) (o : ConditionOutcome)
        → assess str_of view evidence now gaps coverage c ≡ ok o
        → failed o ≡ true
        → (member c.attribute gaps ≡ false) × Ground c
    assess-Ground c o h f = elim (Option-cases (held_of view c.attribute)) [
      | inl e ↦ let (m, p) = assess-none c o e h f in (m, inl (p, e))
      | inr (a, e) ↦
          let (m, k) = assess-some c a o e h f in
          let (r, s, u, q) = assess_held-refutes c a o k f in
          (m, inr (a, record { held = e; factual = r; fresh = s; corroborated = u; compared = q }))
    ]

    -- A condition of the list failed on grounds, and an outcome of the list reports it.
    abbrev pub FailedOnGrounds : List Condition → List ConditionOutcome → Type 0
    FailedOnGrounds [] os = ⊥
    FailedOnGrounds (c ∷ cs) os =
        ((o : ConditionOutcome) × In o os
          × (failed o ≡ true)
          × Reports c o
          × (member c.attribute gaps ≡ false)
          × Ground c)
        ⊎ FailedOnGrounds cs os

    weaken-FailedOnGrounds :
        (cs : List Condition) (os qs : List ConditionOutcome)
        → ((o : ConditionOutcome) → In o os → In o qs)
        → FailedOnGrounds cs os
        → FailedOnGrounds cs qs
    weaken-FailedOnGrounds [] os qs within h = absurd h
    weaken-FailedOnGrounds (c ∷ cs) os qs within (inl (o, m, f, r, g, k)) =
        inl (o, within o m, f, r, g, k)
    weaken-FailedOnGrounds (c ∷ cs) os qs within (inr h) =
        inr (weaken-FailedOnGrounds cs os qs within h)

    collect-cons :
        (c : Condition) (cs : List Condition) (os : List ConditionOutcome)
        → collect (assess str_of view evidence now gaps coverage) (c ∷ cs) ≡ ok os
        → (o : ConditionOutcome) × (rest : List ConditionOutcome) × (assess str_of view evidence now
              gaps coverage c
            ≡ ok o)
          × (collect (assess str_of view evidence now gaps coverage) cs ≡ ok rest)
          × (os ≡ o ∷ rest)
    collect-cons c cs os h =
        go (assess str_of view evidence now gaps coverage c)
          (collect (assess str_of view evidence now gaps coverage) cs) refl refl h
      where
        go :
            (r : Result Error ConditionOutcome) (rs : Result Error (List ConditionOutcome))
            → assess str_of view evidence now gaps coverage c ≡ r
            → collect (assess str_of view evidence now gaps coverage) cs ≡ rs
            → (r >>= λ y. rs >>= λ ys. ok (y ∷ ys)) ≡ ok os
            → (o : ConditionOutcome) × (rest : List ConditionOutcome) × (assess str_of view evidence
                  now gaps coverage c
                ≡ ok o)
              × (collect (assess str_of view evidence now gaps coverage) cs ≡ ok rest)
              × (os ≡ o ∷ rest)
        go (ok o) (ok rest) e es h = (o, rest, e, es, ground arith)
        go (ok o) (raise x) e es h = cc
        go (raise x) rs e es h = cc

    collect-FailedOnGrounds :
        (cs : List Condition) (os : List ConditionOutcome)
        → collect (assess str_of view evidence now gaps coverage) cs ≡ ok os
        → any failed os ≡ true
        → FailedOnGrounds cs os
    collect-FailedOnGrounds [] os h f = cc
    collect-FailedOnGrounds (c ∷ cs) os h f =
        let (o, rest, e, es, q) = collect-cons c cs os h in
        rw q (elim (Bool-cases (failed o)) [
          | inl y ↦
              let (m, k) = assess-Ground c o e y in
              inl (o, inl refl, y, assess-Reports c o e y, m, k)
          | inr n ↦ inr (
              weaken-FailedOnGrounds cs rest (o ∷ rest) (λ x m. inr m)
                (collect-FailedOnGrounds cs rest es (ground arith)))
        ])

module _ (str_of : Value → String) (id_factory : Rule → SubjectRef → ℕ → String) (rules : RuleSet)
    (now : ℕ) (coverage : Option CoverageSummary) (gaps : List String) where
  conclude_violation :
      (rule : Rule) (subject : SubjectRef) (g : List ConditionOutcome)
      (required : Result Error (List ConditionOutcome)) (n : ℕ) (f : Finding)
      → conclude str_of id_factory rules now coverage gaps rule subject g required n ≡ ok f
      → f.state ≡ violation
      → (q : List ConditionOutcome) × (required ≡ ok q)
        × (any failed q ≡ true)
        × (f.conditions ≡ g ++ q)
  unfolding conclude
  conclude_violation rule subject g (ok q) n f h v = (q, refl, ground arith, ground arith)
  conclude_violation rule subject g (raise x) n f h v = absurd (ground arith)

  -- A violation names a required condition that failed on grounds: among the finding's conditions is a
  -- failed outcome with the attribute, the operator, the expected value and the message of a required
  -- condition. That condition's attribute is no capability gap, and either the rule asks whether it is
  -- present and it is absent, or a value of it is held that is no refusal, is fresh, is corroborated as
  -- the rule asks, and does not satisfy the comparison.
  pub evaluate_rule-violation :
      (label : String) (rule : Rule) (view : ObjectView) (f : Finding)
      → evaluate_rule str_of id_factory rules now coverage gaps label rule view ≡ ok f
      → f.state ≡ violation
      → FailedOnGrounds str_of view rule.evidence now gaps coverage rule.require f.conditions
  unfolding evaluate_rule
  evaluate_rule-violation label rule view f h v =
      let assess_one = assess str_of view rule.evidence now gaps coverage in
      let (g, _, k) = >>=-eq-ok (collect assess_one rule.when) _ h in
      let (q, eq, fails, same) = conclude_violation rule _ g _ _ f k v in
      rw same (
        weaken-FailedOnGrounds str_of view rule.evidence now gaps coverage rule.require q (g ++ q)
          (λ o. In-append-right o g q)
          (collect-FailedOnGrounds str_of view rule.evidence now gaps coverage rule.require q eq
            fails))
