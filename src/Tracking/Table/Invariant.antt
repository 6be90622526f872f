-- ===== src/Tracking/Table/Invariant.antt =====
-- The invariant of a track table (perception/tracking/table.py), and that its methods keep it.
use unityworks_vision_ai_bac.Prelude.{
  ℕ, ◌+◌, ◌≤◌, ◌<◌, ◌≡◌, refl, inl, inr, String, Bool, true, false, List, [], ◌∷◌, ◌++◌, length,
  length-append, All, arith, leb, if◌then◌else◌, ok, Returns, Option-cases,
}
use unityworks_vision_ai_bac.Tracking.Record.{TrackId, TrackRecord, new_record}
use unityworks_vision_ai_bac.Tracking.Table.{
  TrackTable, init, has_record, find_record, was_retired, put_record, next_id, create, remove,
  weakest, evict_from, evict_weakest, reset,
}
use unityworks_vision_ai_bac.Tracking.Table.Records.{
  Issued, Ascending, Issued-grow, Issued-records-grow, has_record-fresh, put_record-fresh, All-snoc,
  Ascending-snoc, All-pop, Ascending-pop, length-pop-le, has_record-pop_self, gone-pop, find-Issued,
  has_record-snoc,
}

-- The table is within its bound, its ids were issued in this epoch and rise in the order of insertion,
-- and no retired id is on a record.
pub record IsValid (t : TrackTable) : Type 0 where
  pub positive : 0 < t.max_tracks
  pub bounded : length t.records ≤ t.max_tracks
  pub issued : All (λ r. Issued t.camera_id t.epoch t.next_local_id r.track_id) t.records
  pub ascending : Ascending 0 t.records
  pub retired_issued : All (Issued t.camera_id t.epoch t.next_local_id) t.retired
  pub retired_gone : All (λ i. has_record i t.records ≡ false) t.retired

pub init-IsValid : (c : String) (e m h : ℕ) {t : TrackTable} → init c e m h ≡ ok t → IsValid t
unfolding init
init-IsValid c e m h q = ground arith

pub reset-IsValid : (t : TrackTable) (e : ℕ) → IsValid t → IsValid (reset t e).0
unfolding reset
reset-IsValid t e v = ground arith

-- A new record beside the others: the retired ids stay off the records.
gone-snoc :
    (c : String) (e n : ℕ) (rs : List TrackRecord) (r : TrackRecord) (is : List TrackId)
    → r.track_id.local_id ≡ n
    → All (Issued c e n) is
    → All (λ i. has_record i rs ≡ false) is
    → All (λ i. has_record i (rs ++ r ∷ []) ≡ false) is
gone-snoc c e n rs r [] q a h = tt
gone-snoc c e n rs r (i ∷ is) q a h =
    (has_record-snoc i rs r h.0 (ground arith), gone-snoc c e n rs r is q a.1 h.1)

pub next-fresh : (t : TrackTable) → IsValid t → has_record (next_id t) t.records ≡ false
next-fresh t v =
    has_record-fresh t.camera_id t.epoch t.next_local_id t.records (next_id t) (omega arith)
      v.issued

pub room : (m n : ℕ) → n < m → leb m n ≡ false
room m n h = ground arith

pub create-IsValid :
    (t : TrackTable) (now : ℕ)
    → IsValid t
    → length t.records < t.max_tracks
    → Returns (create t now) (λ out.
      IsValid out.0
      × (out.0.records ≡ t.records ++ out.1 ∷ [])
      × (out.1.track_id ≡ next_id t)
      × (out.0.next_local_id ≡ t.next_local_id + 1))
unfolding create
create-IsValid t now v h =
    let rec = new_record (next_id t) now in
    let fresh : put_record rec t.records ≡ t.records ++ rec ∷ [] =
      put_record-fresh rec t.records (next-fresh t v) in
    rw (room t.max_tracks (length t.records) h, fresh)
      (
        record {
          positive = v.positive;
          bounded = omega (arith, length-append t.records (rec ∷ []));
          issued =
              All-snoc _ t.records rec
                (Issued-records-grow t.camera_id t.epoch t.next_local_id t.records v.issued)
                (refl, refl, omega arith);
          ascending =
              Ascending-snoc t.camera_id t.epoch t.next_local_id 0 t.records rec v.ascending
                v.issued (omega arith) refl;
          retired_issued =
              Issued-grow t.camera_id t.epoch t.next_local_id t.retired v.retired_issued;
          retired_gone =
              gone-snoc t.camera_id t.epoch t.next_local_id t.records rec t.retired refl
                v.retired_issued v.retired_gone;
        },
        refl,
        refl,
        refl,
      )

All-if {ℓ κ} :
    {A : Type ℓ} (P : A → Type κ) (b : Bool) (xs : List A) (x : A)
    → All P xs
    → P x
    → All P (if b then xs else x ∷ xs)
All-if P true xs x h p = h
All-if P false xs x h p = (p, h)

pub remove-IsValid : (t : TrackTable) (i : TrackId) → IsValid t → IsValid (remove t i).0
unfolding remove
remove-IsValid t i v = elim (Option-cases (find_record i t.records)) [
  | inl e ↦ rw (e, remove) v
  | inr (r, e) ↦
      rw (e, remove)
        (record {
          positive = v.positive;
          bounded = omega (arith, length-pop-le i t.records);
          issued = All-pop _ i t.records v.issued;
          ascending = Ascending-pop 0 i t.records v.ascending;
          retired_issued =
              All-if _ (was_retired t i) t.retired i v.retired_issued
                (find-Issued t.camera_id t.epoch t.next_local_id i t.records r v.issued e);
          retired_gone =
              All-if _ (was_retired t i) t.retired i (gone-pop i t.records t.retired v.retired_gone)
                (has_record-pop_self i 0 t.records v.ascending);
        })
]

pub evict-IsValid : (t : TrackTable) → IsValid t → IsValid (evict_weakest t).0
unfolding evict_weakest
evict-IsValid t v = go t.records
  where
    go : (rs : List TrackRecord) → IsValid (evict_from t rs).0
    go [] = v
    go (r ∷ rs) = remove-IsValid t (weakest r rs).track_id v
