-- ===== src/Registry/Partition/Walks.antt =====
-- `resolve` along the chain of merged objects (perception/registry/partition.py).
use unityworks_vision_ai_bac.Prelude.{
  ℕ, zero, suc, ◌+◌, ◌≤◌, ◌<◌, ◌≡◌, refl, inl, inr, String, false, any, str_eq, List, [], ◌∷◌,
  Option, none, some, All, arith, eq_iff, Bool-cases, Option-cases,
}
use unityworks_vision_ai_bac.Registry.Partition.{ObjectRecord, RegistryPartition, find_record}
use unityworks_vision_ai_bac.Registry.Partition.Merging.{arrived, walk, resolve}
use unityworks_vision_ai_bac.Registry.Partition.Forest.{
  Falls, Descends, IsForest, found_id, found-Falls,
}

-- Where the chain of merges leads from an object that is held, or from none: to the object that is merged
-- into no other, or to none where an object on it is not held.
pub data Leads (records : List ObjectRecord)
    : Option ObjectRecord → Option ObjectRecord → Type 0 where
  lost : Leads records none none
  root : (r : ObjectRecord) → r.merged_into ≡ none → Leads records (some r) (some r)
  step :
      (r : ObjectRecord) (k : String) (out : Option ObjectRecord)
      → r.merged_into ≡ some k
      → Leads records (find_record k records) out
      → Leads records (some r) out

-- The ids that were seen rank above the record the walk stands at.
abbrev Above : (String → ℕ) → ℕ → List String → Type 0
Above rank n seen = All (λ s. n < rank s) seen

Above-lower :
    (rank : String → ℕ) (n m : ℕ) (seen : List String)
    → m ≤ n
    → Above rank n seen
    → Above rank m seen
Above-lower rank n m [] l a = tt
Above-lower rank n m (s ∷ seen) l a = (omega arith, Above-lower rank n m seen l a.1)

unseen :
    (rank : String → ℕ) (k : String) (seen : List String)
    → Above rank (rank k) seen
    → any (λ s. str_eq s k) seen ≡ false
unseen rank k [] a = refl
unseen rank k (s ∷ seen) a = elim (Bool-cases (str_eq s k)) [
  | inl e ↦
      let same : s ≡ k = ground (arith, eq_iff s k) in
      let below : rank k < rank k = rw same at a.0 in absurd (omega arith)
  | inr e ↦ ground (arith, unseen rank k seen)
]

module _ (rank : String → ℕ) (records : List ObjectRecord) where
  -- From `n` steps on, a walk that has seen only what ranks above the record arrives.
  abbrev Walked : ℕ → ObjectRecord → Option ObjectRecord → Type 0
  Walked n r out =
      (m : ℕ) (seen : List String)
      → n ≤ m
      → Above rank (rank r.object_id) seen
      → walk m seen (some r) records ≡ arrived out

  root-Walked : (n : ℕ) (r : ObjectRecord) → 1 ≤ n → r.merged_into ≡ none → Walked n r (some r)
  unfolding walk
  root-Walked n r pos e zero seen le a = absurd (omega arith)
  root-Walked n r pos e (suc m) seen le a = ground (arith, e)

  lost-Walked :
      (n : ℕ) (r : ObjectRecord) (k : String)
      → 1 ≤ n
      → r.merged_into ≡ some k
      → find_record k records ≡ none
      → Walked n r none
  unfolding walk
  lost-Walked n r k pos e missing zero seen le a = absurd (omega arith)
  lost-Walked n r k pos e missing (suc m) seen le a =
      rw (walk, e, unseen rank r.object_id seen a, missing, walk) refl

  step-Walked :
      (n : ℕ) (r q : ObjectRecord) (k : String) (out : Option ObjectRecord)
      → r.merged_into ≡ some k
      → find_record k records ≡ some q
      → rank q.object_id < rank r.object_id
      → Walked n q out
      → Walked (suc n) r out
  unfolding walk
  step-Walked n r q k out e found low w zero seen le a = absurd (omega arith)
  step-Walked n r q k out e found low w (suc m) seen le a =
      rw (walk, e, unseen rank r.object_id seen a, found)
        (w m (r.object_id ∷ seen) (omega arith)
          (low, Above-lower rank (rank r.object_id) (rank q.object_id) seen (omega arith) a))

  walk-Leads :
      (n : ℕ) (r : ObjectRecord)
      → Descends rank records
      → Falls rank r
      → rank r.object_id < n
      → (out : Option ObjectRecord) × Leads records (some r) out × Walked n r out
  walk-Leads zero r d f l = absurd (omega arith)
  walk-Leads (suc n) r d f l = elim (Option-cases r.merged_into) [
    | inl e ↦ (some r, root r e, root-Walked (suc n) r (omega arith) e)
    | inr (k, e) ↦
        let falls : rank k < rank r.object_id = rw (Falls, e) at f in
        elim (Option-cases (find_record k records)) [
          | inl missing ↦ (
            none,
            step r k none e (rw missing lost),
            lost-Walked (suc n) r k (omega arith) e missing,
          )
          | inr (q, found) ↦
              let id : q.object_id ≡ k = found_id k records q found in
              let low : rank q.object_id < rank r.object_id = rw id falls in
              let (out, leads, walked) =
                walk-Leads n q d (found-Falls rank k records q d found) (omega arith) in
              (out, step r k out e (rw found leads), step-Walked n r q k out e found low walked)
        ]
  ]

-- In a table whose merged objects form a forest, enough steps take `resolve` to where the chain leads.
pub resolve-Leads :
    (p : RegistryPartition) (object_id : String)
    → IsForest p.records
    → (n : ℕ) × (out : Option ObjectRecord) × Leads p.records (find_record object_id p.records) out
      × ((extra : ℕ) → resolve (n + extra) object_id p ≡ arrived out)
unfolding resolve
resolve-Leads p object_id (u, rank, d) = elim (Option-cases (find_record object_id p.records)) [
  | inl e ↦ (0, none, rw e lost, λ extra. rw (resolve, e, walk) refl)
  | inr (r, e) ↦
      let falls = found-Falls rank object_id p.records r d e in
      let (out, leads, walked) =
        walk-Leads rank p.records (rank r.object_id + 1) r d falls (omega arith) in
      (
        rank r.object_id + 1,
        out,
        rw e leads,
        λ extra. rw (resolve, e) (walked (rank r.object_id + 1 + extra) [] (omega arith) tt),
      )
]
