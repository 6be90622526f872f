-- ===== src/Registry/Partition/Merging.antt =====
-- Merging two objects of a partition and following the merges (perception/registry/partition.py `merge`
-- and `resolve`, perception/registry/engine.py `merge` and `_locate`).
use unityworks_vision_ai_bac.Prelude.{
  ℕ, zero, suc, ◌+◌, min, String, not, any, str_eq, if◌then◌else◌, List, [], ◌∷◌, ◌++◌, Option,
  none, some, Result, ok, raise, ◌>>=◌,
}
use unityworks_vision_ai_bac.Registry.Lifecycle.{merged_into as merged_state, on_merged}
use unityworks_vision_ai_bac.Registry.Partition.{
  Error, identity_conflict, object_not_found, illegal_transition, ObjectRecord, RegistryPartition,
  find_record, put_record, close_bindings, is_some,
}

-- What the survivor of a merge inherits.
abbrev pub inherit : (source target : ObjectRecord) → ObjectRecord
inherit source target = record target {
  lineage = target.lineage ++ source.object_id ∷ [];
  first_seen = min target.first_seen source.first_seen;
  observation_count = target.observation_count + source.observation_count;
}

-- `RegistryPartition.merge`.
unfoldable pub merge_records :
    (source target : ObjectRecord) → (now : ℕ) → RegistryPartition → Result Error RegistryPartition
unfolding close_bindings
merge_records source target now p =
    if str_eq source.object_id target.object_id
    then raise identity_conflict
    else if not (str_eq source.camera_id target.camera_id)
    then raise identity_conflict
    else if is_some target.merged_into
    then raise identity_conflict
    else (close_bindings now source p >>= λ (p', closed).
        let gone = record closed {
          merged_into = some target.object_id;
          lifecycle = merged_state;
        } in
        ok (record p' {
          records = put_record (inherit source target) (put_record gone p'.records);
          version = p'.version + 1;
        }))

abbrev pub locate : String → RegistryPartition → Result Error ObjectRecord
locate object_id p = elim (find_record object_id p.records) [
  | none ↦ raise object_not_found
  | some r ↦ ok r
]

-- `ObjectRegistry.merge`, for two objects of one camera.
unfoldable pub merge :
    (source_id target_id : String) → (now : ℕ) → RegistryPartition → Result Error RegistryPartition
unfolding on_merged merge_records
merge source_id target_id now p = do
  source ← locate source_id p
  target ← locate target_id p
  elim (on_merged source.lifecycle) [
    | raise e ↦ raise illegal_transition
    | ok t ↦ merge_records source target now p
  ]

-- `resolve`: the walk along `merged_into`. The source walks without a bound; the steps are the fuel here.
pub data Walk : Type 0 where
  arrived : Option ObjectRecord → Walk
  cyclic unfinished : Walk

unfoldable pub walk : ℕ → (seen : List String) → Option ObjectRecord → List ObjectRecord → Walk
walk n seen none records = arrived none
walk zero seen (some r) records = unfinished
walk (suc n) seen (some r) records = elim r.merged_into [
  | none ↦ arrived (some r)
  | some k ↦
      let on = walk n (r.object_id ∷ seen) (find_record k records) records in
      if any (λ s. str_eq s r.object_id) seen then cyclic else on
]

unfoldable pub resolve : ℕ → String → RegistryPartition → Walk
unfolding walk
resolve fuel object_id p = walk fuel [] (find_record object_id p.records) p.records
