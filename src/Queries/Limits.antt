-- ===== src/Queries/Limits.antt =====
-- vision_os/exposure/api.py: how many objects a state query returns.
use unityworks_vision_ai_bac.Prelude.{
  ℕ, ◌+◌, ◌≤◌, ◌<◌, ◌≡◌, refl, is_empty, if◌then◌else◌, length, length-append, List, [], ◌∷◌, ◌++◌,
  arith,
}
use unityworks_vision_ai_bac.Queries.{collect_partition, collect}

-- The partitions that hold a matching object.
abbrev pub occupied {ℓ} : {A : Type ℓ} → List (List A) → ℕ
occupied [] = 0
occupied (partition ∷ partitions) =
    let rest = occupied partitions in if is_empty partition then rest else rest + 1

length-collect_partition_full :
    {A : Type 0} (limit : ℕ) (partition objects : List A)
    → limit ≤ length objects
    → length (collect_partition limit partition objects)
      ≡ (if is_empty partition then length objects else length objects + 1)
unfolding collect_partition
length-collect_partition_full limit [] objects full = refl
length-collect_partition_full limit (held ∷ partition) objects full =
    ground (arith, length-append objects (held ∷ []))

length-collect_partition-le :
    {A : Type 0} (limit : ℕ) (partition objects : List A)
    → length objects < limit
    → length (collect_partition limit partition objects) ≤ limit
unfolding collect_partition
length-collect_partition-le limit [] objects room = omega arith
length-collect_partition-le limit (held ∷ partition) objects room = ground (
  arith,
  length-append objects (held ∷ []),
  length-collect_partition-le limit partition (objects ++ (held ∷ [])),
)

-- A state query that has as many objects as its limit is not done: each further partition that holds a
-- match adds one object more.
pub length-collect_full :
    {A : Type 0} (limit : ℕ) (partitions : List (List A)) (objects : List A)
    → limit ≤ length objects
    → length (collect limit partitions objects) ≡ length objects + occupied partitions
unfolding collect
length-collect_full limit [] objects full = omega arith
length-collect_full limit (partition ∷ partitions) objects full = ground (
  arith,
  length-collect_partition_full limit partition objects full,
  length-collect_full limit partitions (collect_partition limit partition objects),
)
