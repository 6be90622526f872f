-- ===== src/Registry/Partition/Population.antt =====
-- The population of a partition is bounded, and only provisional objects make room
-- (perception/registry/partition.py, `_mint` of perception/registry/engine.py).
use unityworks_vision_ai_bac.Prelude.{
  ◌≤◌, ◌<◌, ◌≡◌, ◌⊎◌, String, Bool, true, false, any, str_eq, length, List, [], ◌∷◌, Option, none,
  some,
}
use unityworks_vision_ai_bac.Registry.Lifecycle.{provisional, is_state}
use unityworks_vision_ai_bac.Registry.Partition.{ObjectRecord, RegistryPartition}

abbrev pub is_provisional : ObjectRecord → Bool
is_provisional r = is_state r.lifecycle provisional

abbrev has_key : String → List ObjectRecord → Bool
has_key k records = any (λ r. str_eq r.object_id k) records

abbrev pub Holds : ObjectRecord → List ObjectRecord → Type 0
Holds c [] = ⊥
Holds c (r ∷ records) = (r ≡ c) ⊎ Holds c records

-- What every candidate is.
abbrev IsCandidate : List ObjectRecord → ObjectRecord → Type 0
IsCandidate records c = (is_provisional c ≡ true) × Holds c records

-- The answer of a mint: the new object, in a table within its bound, for which at most one provisional
-- object was shed; or none, where the table is full of objects that are not provisional.
abbrev pub Mints :
    String → RegistryPartition → RegistryPartition × Option ObjectRecord × List String → Type 0
Mints object_id p (p', some r, []) =
    (r.object_id ≡ object_id)
    × (length p'.records ≤ p'.max_objects)
    × (length p.records < p.max_objects)
Mints object_id p (p', some r, k ∷ []) =
    (r.object_id ≡ object_id)
    × (length p'.records ≤ p'.max_objects)
    × ((c : ObjectRecord) × (c.object_id ≡ k) × (c.lifecycle ≡ provisional) × Holds c p.records)
Mints object_id p (p', none, []) =
    (p' ≡ p) × (p.max_objects ≤ length p.records) × (any is_provisional p.records ≡ false)
Mints object_id p _ = ⊥
