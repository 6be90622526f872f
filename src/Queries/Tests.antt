-- ===== src/Queries/Tests.antt =====
-- Rates, pages and collections on concrete queries.
use unityworks_vision_ai_bac.Prelude.{
  ℕ, ◌-◌, ◌≤◌, ◌≡◌, refl, Bool, true, ltb, length, String, List, [], ◌∷◌, none, some, raise, arith,
}
use unityworks_vision_ai_bac.Queries.{
  index_error, index_from, page_of, charge, collect, collect_partition,
}
use unityworks_vision_ai_bac.Queries.Rate.{last_minute, serve, serve-bounded}
use unityworks_vision_ai_bac.Queries.Pages.{follow, follow-matched}
use unityworks_vision_ai_bac.Queries.Limits.{length-collect_full}

-- Whole nanoseconds in place of floats.
abbrev exact : ℕ → ℕ
exact now = now

abbrev minute_before : ℕ → ℕ
minute_before now = now - 60000000000

abbrev later : ℕ → ℕ → Bool
later a b = ltb b a

-- Two calls a minute: the third is refused, the one after the minute is granted.
abbrev four_calls : List ℕ
four_calls = 10 ∷ 20 ∷ 30 ∷ 60000000010 ∷ []

granted_three : serve exact minute_before later 2 four_calls [] [] ≡ 60000000010 ∷ 20 ∷ 10 ∷ []
unfolding serve charge
granted_three = refl

minute_before_mono :
    (a b t : ℕ)
    → a ≤ b
    → later t (minute_before (exact b)) ≡ true
    → later t (minute_before (exact a)) ≡ true
minute_before_mono a b t le h = ground arith

serve-bounded_example :
    last_minute exact minute_before later 25 (serve exact minute_before later 2 four_calls [] [])
    ≤ 2
serve-bounded_example =
    serve-bounded exact minute_before later minute_before_mono 2 four_calls 25 (omega arith)

abbrev three_ids : List String
three_ids = "a" ∷ "b" ∷ "c" ∷ []

-- A page of no observations has no last one to point at.
empty_page : page_of (λ (o : String). o) 100 0 three_ids none ≡ raise index_error
unfolding page_of index_from
empty_page = refl

follow-matched_example : follow (λ (o : String). o) 100 2 three_ids 4 none ≡ some three_ids
follow-matched_example =
    follow-matched (λ (o : String). o) 100 2 three_ids (omega arith) (refl, (refl, (refl, tt)))

-- A limit of one, and three partitions: three objects come back.
three_partitions : collect 1 (("a" ∷ []) ∷ ("b" ∷ []) ∷ ("c" ∷ []) ∷ []) [] ≡ three_ids
unfolding collect collect_partition
three_partitions = refl

length-collect_full_example :
    length (collect {A = String} 1 (("b" ∷ []) ∷ ("c" ∷ []) ∷ []) ("a" ∷ [])) ≡ 3
length-collect_full_example =
    length-collect_full {A = String} 1 (("b" ∷ []) ∷ ("c" ∷ []) ∷ []) ("a" ∷ []) (omega arith)
