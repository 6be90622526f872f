-- ===== src/Registry/Partition/Steps.antt =====
-- Each operation of the partition keeps its merged objects a forest (perception/registry/partition.py).
use unityworks_vision_ai_bac.Prelude.{
  ℕ, ◌<◌, ◌≡◌, refl, inl, inr, String, true, false, str_eq, List, [], ◌∷◌, none, some, arith,
  eq_iff, Bool-cases, Option-cases, ◌⊎◌, ok, ◌∙◌, leb, length,
}
use unityworks_vision_ai_bac.Registry.Partition.{
  ObjectRecord, RegistryPartition, find_record, put_record, new_object, mint, close_bindings, adopt,
  evict,
}
use unityworks_vision_ai_bac.Registry.Partition.Forest.{
  Falls, IsForest, found-Falls, put-Descends, put-Unique, pop-Descends, pop-Unique, lifted,
  lifted-Descends,
}

-- A record that stays the same object, merged into the same one.
abbrev pub SameLink : ObjectRecord → ObjectRecord → Type 0
SameLink r q = (r.object_id ≡ q.object_id) × (r.merged_into ≡ q.merged_into)

SameLink-Falls :
    (rank : String → ℕ) (r q : ObjectRecord) → SameLink r q → Falls rank q → Falls rank r
SameLink-Falls rank r q (i, m) f = elim (Option-cases q.merged_into) [
  | inl e ↦ rw (Falls, m ∙ e) tt
  | inr (k, e) ↦
      let falls : rank k < rank q.object_id = rw (Falls, e) at f in rw (Falls, m ∙ e, i) falls
]

pub put-IsForest :
    (r q : ObjectRecord) (k : String) (records : List ObjectRecord)
    → find_record k records ≡ some q
    → SameLink r q
    → IsForest records
    → IsForest (put_record r records)
put-IsForest r q k records h same (u, rank, d) = (
  put-Unique r records u,
  rank,
  put-Descends rank r records (SameLink-Falls rank r q same (found-Falls rank k records q d h)) d,
)

eq_refl : (s : String) → str_eq s s ≡ true
eq_refl s = ground (arith, eq_iff s s)

find-put-other :
    (j : String) (r : ObjectRecord) (records : List ObjectRecord)
    → str_eq r.object_id j ≡ false
    → find_record j (put_record r records) ≡ find_record j records
find-put-other j r [] n = ground arith
find-put-other j r (q ∷ records) n = elim (Bool-cases (str_eq q.object_id r.object_id)) [
  | inl e ↦
      let same : q.object_id ≡ r.object_id = ground (arith, eq_iff q.object_id r.object_id) in
      let other : str_eq q.object_id j ≡ false = rw same n in rw (e, n, other) refl
  | inr e ↦ rw e (ground (arith, find-put-other j r records n))
]

-- Closing bindings leaves the table, or writes the record with its bindings closed.
pub close-cases :
    (now : ℕ) (r : ObjectRecord) (p : RegistryPartition) (out : RegistryPartition × ObjectRecord)
    → close_bindings now r p ≡ ok out
    → (((out.0.records ≡ p.records) × (out.1 ≡ r)) ⊎ (out.0.records ≡ put_record out.1 p.records))
      × SameLink out.1 r
unfolding close_bindings
close-cases now r p out c = ground arith

pub closed-IsForest :
    (now : ℕ) (r : ObjectRecord) (k : String) (p : RegistryPartition)
    (out : RegistryPartition × ObjectRecord)
    → find_record k p.records ≡ some r
    → close_bindings now r p ≡ ok out
    → IsForest p.records
    → IsForest out.0.records
closed-IsForest now r k p out h c f =
    let (cases, same) = close-cases now r p out c in
    elim cases [ inl (e, _) ↦ rw e f | inr e ↦ rw e (put-IsForest out.1 r k p.records h same f) ]

pub closed-find :
    (now : ℕ) (r : ObjectRecord) (j : String) (p : RegistryPartition)
    (out : RegistryPartition × ObjectRecord)
    → close_bindings now r p ≡ ok out
    → str_eq r.object_id j ≡ false
    → find_record j out.0.records ≡ find_record j p.records
closed-find now r j p out c n =
    let (cases, same) = close-cases now r p out c in
    elim cases [
      | inl (e, _) ↦ rw e refl
      | inr e ↦
          let other : str_eq out.1.object_id j ≡ false = rw same.0 n in
          rw e (find-put-other j out.1 p.records other)
    ]

pub find-put_self :
    (r : ObjectRecord) (records : List ObjectRecord)
    → find_record r.object_id (put_record r records) ≡ some r
find-put_self r [] = rw (eq_refl r.object_id) refl
find-put_self r (q ∷ records) = elim (Bool-cases (str_eq q.object_id r.object_id)) [
  | inl e ↦ rw (e, eq_refl r.object_id) refl
  | inr e ↦ rw (e, e) (find-put_self r records)
]

pub closed-find_self :
    (now : ℕ) (r : ObjectRecord) (p : RegistryPartition) (out : RegistryPartition × ObjectRecord)
    → find_record r.object_id p.records ≡ some r
    → close_bindings now r p ≡ ok out
    → find_record out.1.object_id out.0.records ≡ some out.1
closed-find_self now r p out h c =
    let (cases, same) = close-cases now r p out c in
    elim cases [ inl (e, q) ↦ rw (e, q) h | inr e ↦ rw e (find-put_self out.1 p.records) ]

-- A merge into an object that is merged into no other.
pub joined-IsForest :
    (gone target : ObjectRecord) (survivor : ObjectRecord) (records : List ObjectRecord)
    → find_record target.object_id records ≡ some target
    → target.merged_into ≡ none
    → str_eq gone.object_id target.object_id ≡ false
    → gone.merged_into ≡ some target.object_id
    → survivor.merged_into ≡ none
    → IsForest records
    → IsForest (put_record survivor (put_record gone records))
joined-IsForest gone target survivor records h root other m n (u, rank, d) =
    let t = target.object_id in
    let up : Falls (lifted rank t) gone = rw (Falls, m, other, eq_refl t) (omega arith) in
    (
      put-Unique survivor (put_record gone records) (put-Unique gone records u),
      lifted rank t,
      put-Descends (lifted rank t) survivor (put_record gone records) (rw (Falls, n) tt) (
          put-Descends (lifted rank t) gone records up
            (lifted-Descends rank t records target h root u d)),
    )

pub mint-IsForest :
    (object_id : String) (now : ℕ) (p : RegistryPartition) (out : RegistryPartition × ObjectRecord)
    → mint object_id now p ≡ ok out
    → IsForest p.records
    → IsForest out.0.records
unfolding mint
mint-IsForest object_id now p out m (u, rank, d) =
    elim (Bool-cases (leb p.max_objects (length p.records))) [
      | inl e ↦ cc
      | inr e ↦
          let r = new_object object_id p.camera_id now in
          let same : put_record r p.records ≡ out.0.records = ground arith in
          rw (← same) (put-Unique r p.records u, rank, put-Descends rank r p.records tt d)
    ]

-- A record built elsewhere that is merged into no other.
pub adopt-IsForest :
    (r : ObjectRecord) (p out : RegistryPartition)
    → r.merged_into ≡ none
    → adopt r p ≡ ok out
    → IsForest p.records
    → IsForest out.records
unfolding adopt
adopt-IsForest r p out root m (u, rank, d) =
    let same : put_record r p.records ≡ out.records = ground arith in
    rw (← same)
      (put-Unique r p.records u, rank, put-Descends rank r p.records (rw (Falls, root) tt) d)

pub evict-IsForest :
    (object_id : String) (p : RegistryPartition)
    → IsForest p.records
    → IsForest (evict object_id p).records
unfolding evict
evict-IsForest object_id p (u, rank, d) = elim (Option-cases (find_record object_id p.records)) [
  | inl e ↦ rw (evict, e) (u, rank, d)
  | inr (r, e) ↦
      rw (evict, e)
        (pop-Unique object_id p.records u, rank, pop-Descends rank object_id p.records d)
]
