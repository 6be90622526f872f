-- ===== src/Tracking/Table/Records.antt =====
-- The lists of records and of retired ids of a track table: what storing and popping keep, for ids that
-- rise in the order of insertion.
use unityworks_vision_ai_bac.Prelude.{
  ℕ, suc, ◌+◌, ◌≤◌, ◌<◌, ◌≡◌, refl, inl, inr, String, true, false, List, [], ◌∷◌, ◌++◌, some,
  length, All, any, arith, eq_iff, Bool-cases,
}
use unityworks_vision_ai_bac.Tracking.Record.{TrackId, TrackRecord}
use unityworks_vision_ai_bac.Tracking.Table.{
  same_id, has_record, find_record, put_record, pop_record,
}

-- The id was issued by this table in its epoch.
abbrev pub Issued : String → ℕ → ℕ → TrackId → Type 0
Issued camera epoch next i =
    (i.camera_id ≡ camera) × (i.tracker_epoch ≡ epoch) × (i.local_id < next)

-- The local ids of the records rise, from `low` on.
abbrev pub Ascending : ℕ → List TrackRecord → Type 0
Ascending low [] = Unit
Ascending low (r ∷ rs) = (low ≤ r.track_id.local_id) × Ascending (suc r.track_id.local_id) rs

module _ (c : String) (e n : ℕ) where
  pub Issued-grow : (is : List TrackId) → All (Issued c e n) is → All (Issued c e (n + 1)) is
  Issued-grow [] h = tt
  Issued-grow (i ∷ is) h = ((h.0.0, h.0.1, omega arith), Issued-grow is h.1)

  pub Issued-records-grow :
      (rs : List TrackRecord)
      → All (λ r. Issued c e n r.track_id) rs
      → All (λ r. Issued c e (n + 1) r.track_id) rs
  Issued-records-grow [] h = tt
  Issued-records-grow (r ∷ rs) h = ((h.0.0, h.0.1, omega arith), Issued-records-grow rs h.1)

  -- An id that has not been issued yet is on no record, and is not retired.
  pub has_record-fresh :
      (rs : List TrackRecord) (i : TrackId)
      → n ≤ i.local_id
      → All (λ r. Issued c e n r.track_id) rs
      → has_record i rs ≡ false
  has_record-fresh [] i h a = refl
  has_record-fresh (r ∷ rs) i h a = ground (arith, has_record-fresh rs i h a.1)

  pub retired-fresh :
      (is : List TrackId) (i : TrackId)
      → n ≤ i.local_id
      → All (Issued c e n) is
      → any (λ j. same_id j i) is ≡ false
  retired-fresh [] i h a = refl
  retired-fresh (j ∷ is) i h a = ground (arith, retired-fresh is i h a.1)

pub put_record-fresh :
    (r : TrackRecord) (rs : List TrackRecord)
    → has_record r.track_id rs ≡ false
    → put_record r rs ≡ rs ++ r ∷ []
put_record-fresh r [] h = refl
put_record-fresh r (s ∷ rs) h = ground (arith, put_record-fresh r rs)

pub All-snoc {ℓ κ} :
    {A : Type ℓ} (P : A → Type κ) (xs : List A) (x : A) → All P xs → P x → All P (xs ++ x ∷ [])
All-snoc P [] x h p = (p, tt)
All-snoc P (y ∷ xs) x h p = (h.0, All-snoc P xs x h.1 p)

pub Ascending-snoc :
    (c : String) (e n low : ℕ) (rs : List TrackRecord) (r : TrackRecord)
    → Ascending low rs
    → All (λ r. Issued c e n r.track_id) rs
    → low ≤ n
    → r.track_id.local_id ≡ n
    → Ascending low (rs ++ r ∷ [])
Ascending-snoc c e n low [] r a h l q = (omega arith, tt)
Ascending-snoc c e n low (s ∷ rs) r a h l q =
    (a.0, Ascending-snoc c e n (suc s.track_id.local_id) rs r a.1 h.1 (h.0.2) q)

pub All-pop {κ} :
    (P : TrackRecord → Type κ) (i : TrackId) (rs : List TrackRecord)
    → All P rs
    → All P (pop_record i rs)
All-pop P i [] h = tt
All-pop P i (r ∷ rs) h = elim (Bool-cases (same_id r.track_id i)) [
  | inl e ↦ rw e h.1
  | inr e ↦ rw e (h.0, All-pop P i rs h.1)
]

pub Ascending-lower :
    (low low2 : ℕ) (rs : List TrackRecord) → low ≤ low2 → Ascending low2 rs → Ascending low rs
Ascending-lower low low2 [] h a = tt
Ascending-lower low low2 (r ∷ rs) h a = (omega arith, a.1)

pub Ascending-pop :
    (low : ℕ) (i : TrackId) (rs : List TrackRecord)
    → Ascending low rs
    → Ascending low (pop_record i rs)
Ascending-pop low i [] a = tt
Ascending-pop low i (r ∷ rs) a = elim (Bool-cases (same_id r.track_id i)) [
  | inl e ↦ rw e (Ascending-lower low (suc r.track_id.local_id) rs (omega arith) a.1)
  | inr e ↦ rw e (a.0, Ascending-pop (suc r.track_id.local_id) i rs a.1)
]

pub length-pop-le : (i : TrackId) (rs : List TrackRecord) → length (pop_record i rs) ≤ length rs
length-pop-le i [] = omega arith
length-pop-le i (r ∷ rs) = ground (arith, length-pop-le i rs)

pub has_record-pop :
    (j i : TrackId) (rs : List TrackRecord)
    → has_record j rs ≡ false
    → has_record j (pop_record i rs) ≡ false
has_record-pop j i [] h = refl
has_record-pop j i (r ∷ rs) h = ground (arith, has_record-pop j i rs)

pub has_record-above :
    (i : TrackId) (low : ℕ) (rs : List TrackRecord)
    → i.local_id < low
    → Ascending low rs
    → has_record i rs ≡ false
has_record-above i low [] h a = refl
has_record-above i low (r ∷ rs) h a =
    ground (arith, has_record-above i (suc r.track_id.local_id) rs)

-- The popped id is on no record any more.
pub has_record-pop_self :
    (i : TrackId) (low : ℕ) (rs : List TrackRecord)
    → Ascending low rs
    → has_record i (pop_record i rs) ≡ false
has_record-pop_self i low [] a = refl
has_record-pop_self i low (r ∷ rs) a = ground (
  arith,
  has_record-above i (suc r.track_id.local_id) rs,
  has_record-pop_self i (suc r.track_id.local_id) rs,
)

pub gone-pop :
    (i : TrackId) (rs : List TrackRecord) (is : List TrackId)
    → All (λ j. has_record j rs ≡ false) is
    → All (λ j. has_record j (pop_record i rs) ≡ false) is
gone-pop i rs [] h = tt
gone-pop i rs (j ∷ is) h = (has_record-pop j i rs h.0, gone-pop i rs is h.1)

-- The id of a record that is found was issued.
pub find-Issued :
    (c : String) (e n : ℕ) (i : TrackId) (rs : List TrackRecord) (r : TrackRecord)
    → All (λ r. Issued c e n r.track_id) rs
    → find_record i rs ≡ some r
    → Issued c e n i
find-Issued c e n i [] r a h = absurd (cc)
find-Issued c e n i (s ∷ rs) r a h =
    ground (arith, eq_iff s.track_id.camera_id i.camera_id, find-Issued c e n i rs r a.1)

pub length-pop :
    (i : TrackId) (rs : List TrackRecord) (r : TrackRecord)
    → find_record i rs ≡ some r
    → length (pop_record i rs) + 1 ≡ length rs
length-pop i [] r h = absurd (cc)
length-pop i (s ∷ rs) r h = ground (arith, length-pop i rs r)

pub has_record-snoc :
    (i : TrackId) (rs : List TrackRecord) (r : TrackRecord)
    → has_record i rs ≡ false
    → same_id r.track_id i ≡ false
    → has_record i (rs ++ r ∷ []) ≡ false
has_record-snoc i [] r h q = rw q
has_record-snoc i (s ∷ rs) r h q = ground (arith, has_record-snoc i rs r)

pub same_id_refl : (i : TrackId) → same_id i i ≡ true
same_id_refl i = ground (arith, eq_iff i.camera_id i.camera_id)
