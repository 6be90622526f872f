-- ===== src/Registry/Partition/Shedding.antt =====
-- Creating an object in a full partition (perception/registry/partition.py `shed_candidates`,
-- perception/registry/engine.py `_mint`).
use Prim.Native.Nat.{Ordering}
use Prim.Native.String.{compare}
use unityworks_vision_ai_bac.Prelude.{
  ℕ, String, Bool, true, false, ◌&&◌, ◌||◌, ltb, ◌==◌, if◌then◌else◌, List, [], ◌∷◌, Option, none,
  some, Result, ok, raise,
}
use unityworks_vision_ai_bac.Registry.Lifecycle.{provisional, is_state, on_shed}
use unityworks_vision_ai_bac.Registry.Partition.{
  Error, illegal_transition, ObjectRecord, RegistryPartition, mint, evict,
}

-- The order of `shed_candidates`: by first sighting, then by id.
abbrev pub sheds_before : ObjectRecord → ObjectRecord → Bool
sheds_before a b =
    ltb a.first_seen b.first_seen
    || ((a.first_seen == b.first_seen)
        && elim (compare a.object_id b.object_id) [ Ordering.lt ↦ true | _ ↦ false ])

abbrev pub insert_candidate : ObjectRecord → List ObjectRecord → List ObjectRecord
insert_candidate r [] = r ∷ []
insert_candidate r (q ∷ rest) =
    let later = insert_candidate r rest in if sheds_before q r then q ∷ later else r ∷ q ∷ rest

abbrev pub shed_candidates : List ObjectRecord → List ObjectRecord
shed_candidates [] = []
shed_candidates (r ∷ records) =
    let rest = shed_candidates records in
    if is_state r.lifecycle provisional then insert_candidate r rest else rest

-- `ObjectRegistry._mint`: with the ids of what was shed.
abbrev pub minted :
    Result Error (RegistryPartition × ObjectRecord)
    → RegistryPartition
    → List String
    → RegistryPartition × Option ObjectRecord × List String
minted (ok (p', r)) p shed = (p', some r, shed)
minted (raise e) p shed = (p, none, shed)

unfoldable pub mint_or_shed :
    (object_id : String)
    → (now : ℕ) → RegistryPartition
    → Result Error (RegistryPartition × Option ObjectRecord × List String)
unfolding mint on_shed evict
mint_or_shed object_id now p = elim (mint object_id now p) [
  | ok (p', r) ↦ ok (p', some r, [])
  | raise e ↦ elim (shed_candidates p.records) [
    | [] ↦ ok (p, none, [])
    | c ∷ rest ↦ elim (on_shed c.lifecycle) [
      | raise e' ↦ raise illegal_transition
      | ok t ↦
          let smaller = evict c.object_id p in
          ok (minted (mint object_id now smaller) smaller (c.object_id ∷ []))
    ]
  ]
]
