-- ===== src/Queries.antt =====
-- vision_os/exposure/api.py: the rate limit of a call, the pages of a historical query and the collection
-- of a state query. Instants are nanoseconds.
pub mod Rate
pub mod Pages
pub mod Limits
mod Tests
use unityworks_vision_ai_bac.Prelude.{
  ℕ, zero, suc, ◌+◌, ◌-◌, min, String, Bool, true, false, ltb, leb, str_eq, if◌then◌else◌, keep_if,
  length, take, drop, List, [], ◌∷◌, ◌++◌, Option, none, some, Result, ok, raise,
}

pub data Error : Type 0 where
  overloaded index_error : Error

-- `_charge`, on the bucket of one subject: it is trimmed also where it raises. The bucket holds instants as
-- Python floats of seconds, which are a parameter: `seconds` is the division of nanoseconds by 10^9,
-- `minute_before` the subtraction of 60.0, and `later` the comparison `>`.
module _ {Float : Type 0} (seconds : ℕ → Float) (minute_before : Float → Float)
    (later : Float → Float → Bool) where
  abbrev pub recent : (now : Float) → List Float → List Float
  recent now window = keep_if (λ t. later t (minute_before now)) window

  unfoldable pub charge :
      (requests_per_minute now : ℕ) → List Float → List Float × Result Error (Unit {0})
  charge requests_per_minute now window =
      let kept = recent (seconds now) window in
      if leb requests_per_minute (length kept)
      then (kept, raise overloaded)
      else (kept ++ (seconds now ∷ []), ok tt)

-- The observations that match a query, sorted: `id_of` reads an observation's id.
module _ {A : Type 0} (id_of : A → String) where
  -- `_cursor_index`: the index after the cursor's observation, 0 if there is none.
  unfoldable pub index_from : (index : ℕ) → List A → String → ℕ
  index_from index [] cursor = 0
  index_from index (o ∷ os) cursor =
      let rest = index_from (index + 1) os cursor in
      if str_eq (id_of o) cursor then index + 1 else rest

  abbrev pub cursor_index : List A → Option String → ℕ
  cursor_index os none = 0
  cursor_index os (some cursor) = index_from 0 os cursor

  -- `page[-1].observation_id`.
  abbrev pub last_id : List A → Result Error String
  last_id [] = raise index_error
  last_id (o ∷ []) = ok (id_of o)
  last_id (o ∷ (p ∷ os)) = last_id (p ∷ os)

  pub record Page : Type 0 where
    pub observations : List A
    pub cursor : Option String

  -- The end of `query_observations`: one page of what matched, with the cursor for the one after it.
  abbrev pub page_with : List A → Result Error String → Result Error Page
  page_with page (ok cursor) = ok (record { observations = page; cursor = some cursor })
  page_with page (raise e) = raise e

  unfoldable pub page_of : (max_page_size limit : ℕ) → List A → Option String → Result Error Page
  unfolding index_from
  page_of max_page_size limit matched cursor =
      let bounded = min limit max_page_size in
      let start = cursor_index matched cursor in
      let page = take bounded (drop start matched) in
      if ltb (start + bounded) (length matched)
      then page_with page (last_id page)
      else ok (record { observations = page; cursor = none })

-- The loops of `query_state` over the partitions of the permitted cameras, each with the objects that
-- the filter matches: the `break` leaves the loop over one partition.
module _ {A : Type 0} where
  unfoldable pub collect_partition : (limit : ℕ) → List A → List A → List A
  collect_partition limit [] objects = objects
  collect_partition limit (held ∷ partition) objects =
      let more = objects ++ (held ∷ []) in
      let rest = collect_partition limit partition more in
      if leb limit (length more) then more else rest

  unfoldable pub collect : (limit : ℕ) → List (List A) → List A → List A
  unfolding collect_partition
  collect limit [] objects = objects
  collect limit (partition ∷ partitions) objects =
      collect limit partitions (collect_partition limit partition objects)
