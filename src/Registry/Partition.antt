-- ===== src/Registry/Partition.antt =====
-- vision_os/perception/registry/partition.py: the objects of one camera, with the merge and the minting
-- of vision_os/perception/registry/engine.py. A record of the table is found by its object id, as a key
-- of the source's dictionary; new ids are arguments. The class, the position, the attributes and the
-- identity confidence of an object are not part of the records.
pub mod Merging
pub mod Shedding
pub mod Forest
pub mod Walks
pub mod Steps
pub mod Runs
pub mod Population
use Prim.Native.Nat.{Ordering}
use Prim.Native.String.{compare}
use unityworks_vision_ai_bac.Prelude.{
  ℕ, zero, suc, ◌+◌, min, String, Bool, true, false, not, ◌&&◌, ◌||◌, any, all, map, keep_if, ltb,
  leb, ◌==◌, str_eq, if◌then◌else◌, length, List, [], ◌∷◌, ◌++◌, Option, none, some, Result, ok,
  raise, ◌>>=◌,
}
use unityworks_vision_ai_bac.Registry.Lifecycle.{
  LifecycleState, provisional, merged_into as merged_state, is_state, is_terminal, LifecyclePolicy,
  Error as MachineError, on_merged, on_shed,
}

pub data Error : Type 0 where
  capacity identity_conflict object_not_found value_error illegal_transition : Error

pub record TrackBinding : Type 0 where
  pub binding_id : String
  pub track_id : String
  pub bound_from : ℕ
  pub bound_to : Option ℕ
  pub superseded_by : Option String

abbrev pub is_open : TrackBinding → Bool
is_open b = elim b.bound_to [ none ↦ true | some t ↦ false ]

pub record ObjectRecord : Type 0 where
  pub object_id : String
  pub camera_id : String
  pub lifecycle : LifecycleState
  pub first_seen : ℕ
  pub last_seen : ℕ
  pub last_confirmed : ℕ
  pub observation_count : ℕ
  pub unmeasured_frames : ℕ
  pub bindings : List TrackBinding
  pub merged_into : Option String
  pub lineage : List String

pub record RegistryPartition : Type 0 where
  pub camera_id : String
  pub max_objects : ℕ
  pub records : List ObjectRecord
  pub sequence : ℕ
  pub version : ℕ

abbrev pub init : (camera_id : String) → LifecyclePolicy → RegistryPartition
init camera_id policy = record {
  camera_id = camera_id;
  max_objects = policy.max_objects_per_camera;
  records = [];
  sequence = 0;
  version = 0;
}

abbrev pub find_record : String → List ObjectRecord → Option ObjectRecord
find_record k [] = none
find_record k (r ∷ records) = if str_eq r.object_id k then some r else find_record k records

abbrev pub put_record : ObjectRecord → List ObjectRecord → List ObjectRecord
put_record r [] = r ∷ []
put_record r (q ∷ records) =
    let rest = put_record r records in
    if str_eq q.object_id r.object_id then r ∷ records else q ∷ rest

abbrev pub pop_record : String → List ObjectRecord → List ObjectRecord
pop_record k [] = []
pop_record k (r ∷ records) =
    let rest = pop_record k records in if str_eq r.object_id k then records else r ∷ rest

-- A change to a record of the table, which counts as one version.
abbrev pub written : RegistryPartition → ObjectRecord → RegistryPartition
written p r = record p { records = put_record r p.records; version = p.version + 1 }

abbrev pub new_object : (object_id camera_id : String) → (now : ℕ) → ObjectRecord
new_object object_id camera_id now = record {
  object_id = object_id;
  camera_id = camera_id;
  lifecycle = provisional;
  first_seen = now;
  last_seen = now;
  last_confirmed = now;
  observation_count = 1;
  unmeasured_frames = 0;
  bindings = [];
  merged_into = none;
  lineage = [];
}

unfoldable pub mint :
    (object_id : String)
    → (now : ℕ) → RegistryPartition
    → Result Error (RegistryPartition × ObjectRecord)
mint object_id now p =
    if leb p.max_objects (length p.records)
    then raise capacity
    else let r = new_object object_id p.camera_id now in
      ok (
        record p {
          records = put_record r p.records;
          sequence = p.sequence + 1;
          version = p.version + 1;
        },
        r,
      )

unfoldable pub observe :
    (now : ℕ) → (measured : Bool) → ObjectRecord → RegistryPartition → RegistryPartition
observe now measured r p =
    let seen = record r { last_seen = now; observation_count = r.observation_count + 1 } in
    written p (
      if measured
      then record seen { last_confirmed = now; unmeasured_frames = 0 }
      else record seen { unmeasured_frames = r.unmeasured_frames + 1 })

unfoldable pub set_lifecycle : LifecycleState → ObjectRecord → RegistryPartition → RegistryPartition
set_lifecycle s r p = written p (record r { lifecycle = s })

-- Closing a binding before it opened raises in its constructor.
abbrev pub close : (now : ℕ) → TrackBinding → TrackBinding
close now b = if is_open b then record b { bound_to = some now } else b

abbrev pub closes_early : (now : ℕ) → TrackBinding → Bool
closes_early now b = is_open b && ltb now b.bound_from

unfoldable pub close_bindings :
    (now : ℕ) → ObjectRecord → RegistryPartition → Result Error (RegistryPartition × ObjectRecord)
close_bindings now r p =
    if not (any is_open r.bindings)
    then ok (p, r)
    else if any (closes_early now) r.bindings
    then raise value_error
    else let closed = record r { bindings = map (close now) r.bindings } in
      ok (written p closed, closed)

abbrev pub supersede : Option String → (binding_id : String) → TrackBinding → TrackBinding
supersede none binding_id b = b
supersede (some old) binding_id b =
    if str_eq b.binding_id old then record b { superseded_by = some binding_id } else b

abbrev pub bind_track :
    (binding_id track_id : String)
    → (now : ℕ) → (supersedes : Option String) → ObjectRecord
    → ObjectRecord
bind_track binding_id track_id now supersedes r = record r {
  bindings =
      map (supersede supersedes binding_id) r.bindings
      ++ (record {
        binding_id = binding_id;
        track_id = track_id;
        bound_from = now;
        bound_to = none;
        superseded_by = none;
      })
        ∷ [];
}

unfoldable pub open_binding :
    (binding_id track_id : String)
    → (now : ℕ) → (supersedes : Option String) → ObjectRecord
    → RegistryPartition
    → Result Error (RegistryPartition × ObjectRecord)
unfolding close_bindings
open_binding binding_id track_id now supersedes r p = do
  (p', r') ← close_bindings now r p
  let bound = bind_track binding_id track_id now supersedes r'
  ok (written p' bound, bound)

abbrev pub is_some {ℓ} : {A : Type ℓ} → Option A → Bool
is_some none = false
is_some (some a) = true

unfoldable pub adopt : ObjectRecord → RegistryPartition → Result Error RegistryPartition
adopt r p =
    if is_some (find_record r.object_id p.records)
    then raise identity_conflict
    else if leb p.max_objects (length p.records)
    then raise capacity
    else ok (written p r)

unfoldable pub evict : String → RegistryPartition → RegistryPartition
evict object_id p = elim (find_record object_id p.records) [
  | none ↦ p
  | some r ↦ record p { records = pop_record object_id p.records; version = p.version + 1 }
]
