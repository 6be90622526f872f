-- ===== src/Registry/Tests.antt =====
-- Runs of the object lifecycle and of the partition, and the theorems at concrete inputs.
use unityworks_vision_ai_bac.Prelude.{
  ℕ, String, any, map, false, none, List, [], ◌∷◌, Option, some, ◌≡◌, refl, true, ok, ◌>>=◌,
  Returns, ◌+◌, arith,
}
use unityworks_vision_ai_bac.Registry.Lifecycle.{
  active, occluded, departed, expired, provisional, default_policy, LifecyclePolicy, is_legal,
}
use unityworks_vision_ai_bac.Registry.Lifecycle.Legality.{
  Answers, accepts, take_call, merged, take_call-Answers, Call as MachineCall, is_legal-reached,
}
use unityworks_vision_ai_bac.Registry.Partition.{
  ObjectRecord, RegistryPartition, find_record, init, new_object, mint, adopt, is_open, evict,
  set_lifecycle, close_bindings,
}
use unityworks_vision_ai_bac.Registry.Partition.Merging.{
  Walk, arrived, merge, merge_records, resolve, walk,
}
use unityworks_vision_ai_bac.Registry.Partition.Walks.{Leads}
use unityworks_vision_ai_bac.Registry.Partition.Runs.{
  Call, mint_call, lifecycle_call, merge_call, adopt_call, run, run-resolves,
}
use unityworks_vision_ai_bac.Registry.Sweep.Records.{advance, sweep_record}
use unityworks_vision_ai_bac.Registry.Sweep.{
  sweep_object, drive_horizons, drive, sweep_object-between, sweep_object-expires,
}

take_call-Answers_example :
    Answers occluded (accepts occluded merged) (take_call default_policy occluded merged)
take_call-Answers_example = take_call-Answers default_policy occluded merged

may_be_occluded : is_legal active occluded ≡ true
unfolding is_legal
may_be_occluded = refl

is_legal-reached_example :
    (c : MachineCall) × Returns (take_call default_policy active c) (λ t. t.current ≡ occluded)
is_legal-reached_example = is_legal-reached active occluded may_be_occluded

-- After two minutes without a measurement an active object has departed.
abbrev two_minutes : ℕ
two_minutes = 120_000_000_000

swept : sweep_object default_policy 0 two_minutes active ≡ ok departed
unfolding sweep_object drive_horizons drive
swept = refl

sweep_object-between_example :
    (sweep_object default_policy 0 5 active >>= sweep_object default_policy 0 two_minutes)
    ≡ sweep_object default_policy 0 two_minutes active
sweep_object-between_example =
    sweep_object-between default_policy 0 5 two_minutes active (omega arith)

-- An active object with a track, which loses it.
abbrev tracked : ObjectRecord
tracked = record (new_object "a" "cam" 0) {
  lifecycle = active;
  bindings =
      record {
        binding_id = "b1";
        track_id = "t1";
        bound_from = 0;
        bound_to = none;
        superseded_by = none;
      }
      ∷ [];
}

abbrev one_object : RegistryPartition
one_object = record (init "cam" default_policy) { records = tracked ∷ [] }

unbound :
    Returns
      (sweep_record default_policy two_minutes tracked one_object)
      (λ p. map (λ (r : ObjectRecord). any is_open r.bindings) p.records ≡ false ∷ [])
unfolding sweep_record advance close_bindings set_lifecycle evict drive_horizons drive
unbound = refl

abbrev an_hour : ℕ
an_hour = 3_600_000_000_000

sweep_object-expires_example : sweep_object default_policy 0 an_hour provisional ≡ ok expired
sweep_object-expires_example =
    sweep_object-expires default_policy 0 an_hour provisional refl (omega arith) (omega arith)
      (omega arith) (omega arith)

abbrev small_policy : LifecyclePolicy
small_policy = record default_policy { max_objects_per_camera = 1 }

-- Two objects become active; the second is merged into the first.
abbrev merges : List Call
merges =
    mint_call "a" 1
    ∷ mint_call "b" 2
    ∷ lifecycle_call "a" active
    ∷ lifecycle_call "b" active
    ∷ merge_call "b" "a" 5
    ∷ merge_call "a" "b" 6
    ∷ adopt_call (new_object "c" "cam" 7)
    ∷ []

abbrev survivor : Walk → String
survivor (arrived (some r)) = r.object_id
survivor _ = ""

abbrev merged_partition : RegistryPartition
merged_partition = run merges (init "cam" default_policy)

survivor_is_first : survivor (resolve 3 "b" merged_partition) ≡ "a"
unfolding mint set_lifecycle adopt merge merge_records close_bindings resolve walk
survivor_is_first = refl

run-resolves_example :
    (n : ℕ) × (out : Option ObjectRecord) × Leads merged_partition.records
      (find_record "b" merged_partition.records)
      out
    × ((extra : ℕ) → resolve (n + extra) "b" merged_partition ≡ arrived out)
run-resolves_example =
    run-resolves merges "cam" default_policy "b" (tt, (tt, (tt, (tt, (tt, (tt, (refl, tt)))))))

-- A full table with one provisional object.
abbrev crowded : RegistryPartition
crowded = record (init "cam" small_policy) { records = new_object "a" "cam" 1 ∷ [] }
