-- ===== src/Buffer/Held.antt =====
-- vision_os/acquisition/buffer/buffer.py: neither an eviction nor a sweep of the buffer takes a frame
-- that is held.
use mathlib.Core.Path.{subst}
use unityworks_vision_ai_bac.Prelude.{
  ℕ, ◌+◌, ◌≡◌, refl, sym, ◌∙◌, String, Bool, leb, str_eq, eq_iff, if◌then◌else◌, Bool-cases, inl,
  inr, length, List, [], ◌∷◌, Option, arith,
}
use unityworks_vision_ai_bac.Buffer.{
  FrameRef, SourceSemantics, may_drop_frames, Entry, Ring, new_ring, Book, find_entry, put_entry,
  refresh, free, without, evict_oldest, sweep_from,
}
use unityworks_vision_ai_bac.Buffer.Calls.{
  FrameBuffer, ring_or, put_ring, ring_of, with_ring, acquire_slot, sweep_rings, sweep,
}
use unityworks_vision_ai_bac.Buffer.Cases.{sweep_from_cases}
use unityworks_vision_ai_bac.Buffer.Rings.{evict_from-camera}
use unityworks_vision_ai_bac.Buffer.Validity.{ring_or-camera}
use unityworks_vision_ai_bac.Buffer.Residents.{StaysHeld, evict_from_stays, sweep_from_stays}

-- The entry of a frame in the buffer.
abbrev pub resident : FrameRef → FrameBuffer → Option Entry
resident ref b = find_entry ref (ring_of ref.camera_id b).entries

ring_or-put_ring :
    (camera_id : String) (slots : ℕ) (ring : Ring) (rings : List Ring)
    → ring_or (new_ring camera_id slots) (put_ring ring rings)
      ≡ (if str_eq ring.camera_id camera_id then ring else ring_or (new_ring camera_id slots) rings)
ring_or-put_ring camera_id slots ring [] = refl
ring_or-put_ring camera_id slots ring (r ∷ rings) = ground (
  arith,
  ring_or-put_ring camera_id slots ring rings,
  eq_iff r.camera_id camera_id,
  eq_iff ring.camera_id camera_id,
  eq_iff r.camera_id ring.camera_id,
)

pub ring_of-with_ring :
    (camera_id : String) (ring : Ring) (book : Book) (b : FrameBuffer)
    → ring_of camera_id (record (with_ring ring b) { book = book })
      ≡ (if str_eq ring.camera_id camera_id then ring else ring_of camera_id b)
ring_of-with_ring camera_id ring book b =
    ring_or-put_ring camera_id b.config.slots_per_camera ring b.rings

-- Work on the ring of one camera that leaves a frame there leaves it in the buffer.
with_ring_stays :
    (now allocation : ℕ) (ref : FrameRef) (camera_id : String) (ring : Ring) (book : Book)
    (b : FrameBuffer)
    → ring.camera_id ≡ camera_id
    → (StaysHeld now allocation (find_entry ref (ring_of camera_id b).entries)
        → StaysHeld now allocation (find_entry ref ring.entries))
    → StaysHeld now allocation (resident ref b)
    → StaysHeld now allocation (resident ref (record (with_ring ring b) { book = book }))
with_ring_stays now allocation ref camera_id ring book b same keeps stays =
    elim (Bool-cases (str_eq ring.camera_id ref.camera_id)) [
      | inr apart ↦ rw (ring_of-with_ring ref.camera_id ring book b, apart) stays
      | inl here ↦
          rw (ring_of-with_ring ref.camera_id ring book b, here)
            (keeps (
              subst (λ c. StaysHeld now allocation (find_entry ref (ring_of c b).entries))
                (sym ((eq_iff ring.camera_id ref.camera_id).0 here) ∙ same) stays))
    ]

register_stays :
    (now allocation : ℕ) (ref : FrameRef) (camera_id : String) (b : FrameBuffer)
    → StaysHeld now allocation (resident ref b)
    → StaysHeld now allocation (resident ref (with_ring (ring_of camera_id b) b))
register_stays now allocation ref camera_id b stays =
    with_ring_stays now allocation ref camera_id (ring_of camera_id b) b.book b
      (ring_or-camera camera_id b.config.slots_per_camera b.rings) (λ h. h) stays

acquire_slot_stays :
    (now slot allocation : ℕ) (camera_id : String) (semantics : SourceSemantics) (ref : FrameRef)
    (b : FrameBuffer)
    → StaysHeld now allocation (resident ref b)
    → StaysHeld now allocation (resident ref (acquire_slot now slot camera_id semantics b).0)
unfolding acquire_slot
acquire_slot_stays now slot allocation camera_id semantics ref b stays =
    elim (Bool-cases (leb ring.capacity (length ring.order))) [
      | inr room ↦ rw room (register_stays now allocation ref camera_id b stays)
      | inl full ↦ elim (Bool-cases evicted.0) [
        | inl made_room ↦ rw (full, made_room) (swept evicted.2)
        | inr stuck ↦
            rw (full, stuck)
              (swept (record evicted.2 { pool_exhaustions = evicted.2.pool_exhaustions + 1 }))
      ]
    ]
  where
    ring : Ring
    ring = ring_of camera_id b

    evicted : Bool × Ring × Book
    evicted = evict_oldest now b.config.history_window semantics ring b.book

    swept :
        (book : Book)
        → StaysHeld now allocation (resident ref (record (with_ring evicted.1 b) { book = book }))
    swept book =
        with_ring_stays now allocation ref camera_id evicted.1 book b
          ((evict_from-camera now b.config.history_window (may_drop_frames semantics) ring.order
              ring b.book).0
            ∙ ring_or-camera camera_id b.config.slots_per_camera b.rings)
          (λ here.
            evict_from_stays now b.config.history_window (may_drop_frames semantics) ring.order ring
              b.book allocation ref here)
          stays

sweep_from-camera :
    (now history : ℕ) (refs : List FrameRef) (ring : Ring) (book : Book)
    → (sweep_from now history refs ring book).1.camera_id ≡ ring.camera_id
unfolding sweep_from
sweep_from-camera now history [] ring book = refl
sweep_from-camera now history (ref ∷ refs) ring book =
    sweep_from_cases (λ r. r.1.camera_id ≡ ring.camera_id) now history ref refs ring book
      (λ missing. sweep_from-camera now history refs ring book)
      (λ e found. (
        λ goes.
            sweep_from-camera now history refs
              (without ref
                (record ring { entries = put_entry (refresh now e book).0 ring.entries }))
              (free e (refresh now e book).1),
        λ blocked.
            sweep_from-camera now history refs
              (record ring { entries = put_entry (refresh now e book).0 ring.entries })
              (refresh now e book).1,
      ))

sweep_rings_stays :
    (now history allocation : ℕ) (ref : FrameRef) (fresh : Ring) (rings : List Ring) (book : Book)
    → StaysHeld now allocation (find_entry ref (ring_or fresh rings).entries)
    → StaysHeld now allocation
        (find_entry ref (ring_or fresh (sweep_rings now history rings book).1).entries)
unfolding sweep_rings
sweep_rings_stays now history allocation ref fresh [] book stays = stays
sweep_rings_stays now history allocation ref fresh (r ∷ rings) book stays =
    elim (Bool-cases (str_eq r.camera_id fresh.camera_id)) [
      | inl here ↦
          rw (sweep_from-camera now history r.order r book, here)
            (sweep_from_stays now history r.order r book allocation ref (
              subst
                (λ t.
                  StaysHeld now allocation
                    (find_entry ref (if t then r else ring_or fresh rings).entries))
                (here) stays))
      | inr apart ↦
          rw (sweep_from-camera now history r.order r book, apart)
            (sweep_rings_stays now history allocation ref fresh rings
              (sweep_from now history r.order r book).2
              (subst
                (λ t.
                  StaysHeld now allocation
                    (find_entry ref (if t then r else ring_or fresh rings).entries))
                (apart) stays))
    ]

sweep_stays :
    (now allocation : ℕ) (ref : FrameRef) (b : FrameBuffer)
    → StaysHeld now allocation (resident ref b)
    → StaysHeld now allocation (resident ref (sweep now b).0)
unfolding sweep
sweep_stays now allocation ref b stays =
    sweep_rings_stays now b.config.history_window allocation ref
      (new_ring ref.camera_id b.config.slots_per_camera) b.rings b.book stays

-- A frame with a lease or pin whose time is not over stays resident in its memory, and held, when a slot
-- is taken for any camera, whatever the semantics and whether that succeeds or raises; and when a sweep
-- passes.
pub held_stays :
    (now slot allocation : ℕ) (camera_id : String) (semantics : SourceSemantics) (ref : FrameRef)
    (b : FrameBuffer)
    → StaysHeld now allocation (resident ref b)
    → StaysHeld now allocation (resident ref (acquire_slot now slot camera_id semantics b).0)
      × StaysHeld now allocation (resident ref (sweep now b).0)
held_stays now slot allocation camera_id semantics ref b stays = (
  acquire_slot_stays now slot allocation camera_id semantics ref b stays,
  sweep_stays now allocation ref b stays,
)
