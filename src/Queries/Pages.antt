-- ===== src/Queries/Pages.antt =====
-- vision_os/exposure/api.py: paging through what a historical query matches.
use mathlib.Core.Path.{subst}
use mathlib.Core.List.{append_assoc}
use unityworks_vision_ai_bac.Prelude.{
  ℕ, zero, suc, ◌+◌, ◌≤◌, ◌<◌, ◌≡◌, refl, sym, ap, ◌∙◌, String, Bool, true, false, leb, str_eq,
  eq_iff, min, Bool-cases, inl, inr, any, length, length-append, take, drop, length-drop,
  take-append-drop, List, [], ◌∷◌, ◌++◌, Option, none, some, ok, raise, arith,
}
use unityworks_vision_ai_bac.Queries.{index_from, cursor_index, last_id, page_of}

module _ {A : Type 0} (id_of : A → String) where
  abbrev pub has_id : String → List A → Bool
  has_id id os = any (λ o. str_eq (id_of o) id) os

  -- No two observations have the same id.
  abbrev pub IdsDistinct : List A → Type 0
  IdsDistinct [] = Unit {0}
  IdsDistinct (o ∷ os) = (has_id (id_of o) os ≡ false) × IdsDistinct os

  last_id-append :
      (xs : List A) (p : A) (ps : List A) → last_id id_of (xs ++ (p ∷ ps)) ≡ last_id id_of (p ∷ ps)
  last_id-append [] p ps = refl
  last_id-append (x ∷ []) p ps = refl
  last_id-append (x ∷ (y ∷ xs)) p ps = last_id-append (y ∷ xs) p ps

  last_id_ok : (p : A) (ps : List A) → (c : String) × (last_id id_of (p ∷ ps) ≡ ok c)
  last_id_ok p [] = (id_of p, refl)
  last_id_ok p (q ∷ ps) = last_id_ok q ps

  has_id-last_id :
      (front rest : List A) (c : String)
      → last_id id_of front ≡ ok c
      → has_id c (front ++ rest) ≡ true
  has_id-last_id [] rest c h = cc
  has_id-last_id (o ∷ []) rest c h = ground (arith, eq_iff (id_of o) c)
  has_id-last_id (o ∷ (p ∷ front)) rest c h = ground (arith, has_id-last_id (p ∷ front) rest c h)

  -- The cursor of the last observation of a front leads to what comes after that front.
  index_from-last_id :
      (k : ℕ) (front rest : List A) (c : String)
      → IdsDistinct (front ++ rest)
      → last_id id_of front ≡ ok c
      → index_from id_of k (front ++ rest) c ≡ k + length front
  unfolding index_from
  index_from-last_id k [] rest c d h = cc
  index_from-last_id k (o ∷ []) rest c d h = ground (arith, eq_iff (id_of o) c)
  index_from-last_id k (o ∷ (p ∷ front)) rest c d h = ground (
    arith,
    eq_iff (id_of o) c,
    has_id-last_id (p ∷ front) rest c h,
    index_from-last_id (k + 1) (p ∷ front) rest c d.1 h,
  )

  drop-append : (xs ys : List A) → drop (length xs) (xs ++ ys) ≡ ys
  drop-append [] ys = refl
  drop-append (x ∷ xs) ys = drop-append xs ys

  take_whole : (n : ℕ) (xs : List A) → length xs ≤ n → take n xs ≡ xs
  take_whole zero [] h = refl
  take_whole (suc n) [] h = refl
  take_whole zero (x ∷ xs) h = absurd (omega arith)
  take_whole (suc n) (x ∷ xs) h = ap (◌∷◌ x) (take_whole n xs (omega arith))

  module _ (max_page_size limit : ℕ) (matched : List A) where
    -- A consumer that follows the cursors, as often as its fuel allows, and keeps what it gets.
    abbrev pub keep_page : List A → Option (List A) → Option (List A)
    keep_page page none = none
    keep_page page (some later) = some (page ++ later)

    unfoldable pub follow : (fuel : ℕ) → Option String → Option (List A)
    unfolding page_of
    follow zero cursor = none
    follow (suc fuel) cursor = elim (page_of id_of max_page_size limit matched cursor) [
      | raise e ↦ none
      | ok page ↦ elim page.cursor [
        | none ↦ some page.observations
        | some c ↦ keep_page page.observations (follow fuel (some c))
      ]
    ]

    -- A page that starts after `done`.
    page_of-last :
        (done rest : List A) (cursor : Option String)
        → matched ≡ done ++ rest
        → cursor_index id_of matched cursor ≡ length done
        → length rest ≤ min limit max_page_size
        → page_of id_of max_page_size limit matched cursor
          ≡ ok (record { observations = rest; cursor = none })
    unfolding page_of
    page_of-last done rest cursor parts at_cursor few =
        let from : drop (length done) matched ≡ rest =
          ap (drop (length done)) parts ∙ drop-append done rest in
        let total : length matched ≡ length done + length rest =
          ap length parts ∙ length-append done rest in
        ground (arith, at_cursor, from, total, few, take_whole (min limit max_page_size) rest)

    page_of-more :
        (done rest : List A) (cursor : Option String) (c : String)
        → matched ≡ done ++ rest
        → cursor_index id_of matched cursor ≡ length done
        → min limit max_page_size < length rest
        → last_id id_of (take (min limit max_page_size) rest) ≡ ok c
        → page_of id_of max_page_size limit matched cursor
          ≡ ok (record { observations = take (min limit max_page_size) rest; cursor = some c })
    unfolding page_of
    page_of-more done rest cursor c parts at_cursor many last =
        let from : drop (length done) matched ≡ rest =
          ap (drop (length done)) parts ∙ drop-append done rest in
        let total : length matched ≡ length done + length rest =
          ap length parts ∙ length-append done rest in
        ground (arith, at_cursor, from, total, many, last)

    last_of_take :
        (b : ℕ) (rest : List A)
        → 1 ≤ b
        → 1 ≤ length rest
        → (p : A) × (ps : List A) × (take b rest ≡ p ∷ ps)
    last_of_take zero rest pos some_left = absurd (omega arith)
    last_of_take (suc b) [] pos some_left = absurd (omega arith)
    last_of_take (suc b) (o ∷ rest) pos some_left = (o, take b rest, refl)

    -- The cursor of a page stands after that page.
    cursor_after :
        (done page rest : List A) (p : A) (ps : List A) (c : String)
        → IdsDistinct matched
        → matched ≡ (done ++ page) ++ rest
        → page ≡ p ∷ ps
        → last_id id_of page ≡ ok c
        → cursor_index id_of matched (some c) ≡ length (done ++ page)
    cursor_after done page rest p ps c distinct parts shape last =
        let front_last : last_id id_of (done ++ page) ≡ ok c =
          ap (λ (q : List A). last_id id_of (done ++ q)) shape
          ∙ last_id-append done p ps
          ∙ ap (last_id id_of) (sym shape)
          ∙ last in
        ap (λ (m : List A). index_from id_of 0 m c) parts
        ∙ index_from-last_id 0 (done ++ page) rest c (subst IdsDistinct (parts) distinct) front_last
        ∙ omega arith

    follow_from :
        (fuel : ℕ) (done rest : List A) (cursor : Option String)
        → 1 ≤ min limit max_page_size
        → IdsDistinct matched
        → matched ≡ done ++ rest
        → cursor_index id_of matched cursor ≡ length done
        → length rest < fuel
        → follow fuel cursor ≡ some rest
    unfolding follow
    follow_from zero done rest cursor pos distinct parts at_cursor enough = absurd (omega arith)
    follow_from (suc fuel) done rest cursor pos distinct parts at_cursor enough =
        elim (Bool-cases (leb (length rest) (min limit max_page_size))) [
          | inl few ↦
              ground (arith, page_of-last done rest cursor parts at_cursor (ground (arith, few)))
          | inr many ↦
              let b = min limit max_page_size in
              let more : b < length rest = ground (arith, many) in
              let (p, ps, shape) = last_of_take b rest pos (omega arith) in
              let (c, last) = last_id_ok p ps in
              let page_last : last_id id_of (take b rest) ≡ ok c =
                ap (last_id id_of) shape ∙ last in
              let apart : matched ≡ (done ++ take b rest) ++ drop b rest =
                parts
                ∙ ap (λ (r : List A). done ++ r) (sym (take-append-drop b rest))
                ∙ sym (append_assoc done (take b rest) (drop b rest)) in
              ground (
                arith,
                page_of-more done rest cursor c parts at_cursor more page_last,
                follow_from fuel (done ++ take b rest) (drop b rest) (some c) pos distinct apart
                    (cursor_after done (take b rest) (drop b rest) p ps c distinct apart shape
                      page_last)
                    (omega (arith, length-drop b rest)),
                take-append-drop b rest,
              )
        ]

    -- Following the cursors from the start, where the page size is positive and no two matching
    -- observations have the same id, ends within one page more than there are observations, never raises,
    -- and hands out exactly the observations that match, in their order, each once.
    pub follow-matched :
        1 ≤ min limit max_page_size
        → IdsDistinct matched
        → follow (suc (length matched)) none ≡ some matched
    follow-matched pos distinct =
        follow_from (suc (length matched)) [] matched none pos distinct refl refl (omega arith)
