-- ===== src/Buffer/Validity.antt =====
-- vision_os/acquisition/buffer/buffer.py: slots, publishing and forgetting keep the counters exact.
use unityworks_vision_ai_bac.Prelude.{
  ℕ, ◌+◌, ◌≡◌, refl, ◌∙◌, String, Bool, leb, eq_iff, Bool-cases, inl, inr, count, length, List, [],
  ◌∷◌, ◌++◌, arith,
}
use unityworks_vision_ai_bac.Buffer.{
  FrameRef, SourceSemantics, may_drop_frames, PrivacyState, emittable, Entry, Ring, new_ring, Book,
  put_entry, evict_oldest,
}
use unityworks_vision_ai_bac.Buffer.Calls.{
  FrameBuffer, Slot, ring_or, ring_of, with_ring, register_camera, forget_camera, acquire_slot,
  discard_slot, publish, forget_cameras,
}
use unityworks_vision_ai_bac.Buffer.Counts.{
  Kind, lease, pin, holds, tally, numbers_of_rings, IsExact, IsExact-mono,
}
use unityworks_vision_ai_bac.Buffer.Upkeep.{Tallied, evict_from-Tallied}
use unityworks_vision_ai_bac.Buffer.Rings.{
  evict_from-camera, others, take_ring-Tallied, put_ring-IsExact, free_ring-IsExact,
}
use unityworks_vision_ai_bac.Buffer.Releases.{count-put_new}

-- A tally is exact, and what stands in the entries is out; and so for both tallies.
abbrev pub IsTallied : Kind → FrameBuffer → Type 0
IsTallied kind b =
    IsExact (λ n. count n (numbers_of_rings kind b.rings)) b.new_number (tally kind b.book)

abbrev pub IsValid : FrameBuffer → Type 0
IsValid b = (kind : Kind) → IsTallied kind b

pub ring_or-camera :
    (camera_id : String) (slots : ℕ) (rings : List Ring)
    → (ring_or (new_ring camera_id slots) rings).camera_id ≡ camera_id
ring_or-camera camera_id slots [] = refl
ring_or-camera camera_id slots (r ∷ rings) =
    ground (arith, ring_or-camera camera_id slots rings, eq_iff r.camera_id camera_id)

-- A ring of the buffer after some work on it, with the book that goes with it.
pub with_ring-IsValid :
    (camera_id : String) (ring : Ring) (book : Book) (b : FrameBuffer)
    → ring.camera_id ≡ camera_id
    → ((kind : Kind)
        → Tallied kind
            (others kind camera_id b.config.slots_per_camera b.rings)
            b.new_number
            ring
            book)
    → IsValid (record (with_ring ring b) { book = book })
with_ring-IsValid camera_id ring book b same v kind =
    put_ring-IsExact kind b.config.slots_per_camera ring b.rings camera_id (tally kind book) same
      (v kind)

pub ring_of-Tallied :
    (camera_id : String) (b : FrameBuffer)
    → IsValid b
    → (kind : Kind)
    → Tallied kind
        (others kind camera_id b.config.slots_per_camera b.rings)
        b.new_number
        (ring_of camera_id b)
        b.book
ring_of-Tallied camera_id b v kind =
    take_ring-Tallied kind camera_id b.config.slots_per_camera b.rings b.book (v kind)

pub register_camera-IsValid :
    (camera_id : String) (b : FrameBuffer) → IsValid b → IsValid (register_camera camera_id b)
register_camera-IsValid camera_id b v =
    with_ring-IsValid camera_id (ring_of camera_id b) b.book b
      (ring_or-camera camera_id b.config.slots_per_camera b.rings) (ring_of-Tallied camera_id b v)

pub forget_camera-IsValid :
    (camera_id : String) (b : FrameBuffer) → IsValid b → IsValid (forget_camera camera_id b)
unfolding forget_camera
forget_camera-IsValid camera_id b v kind =
    let (same, fewer) = free_ring-IsExact kind camera_id b.rings b.book in
    rw same (IsExact-mono (v kind) fewer)

pub forget_cameras-IsValid :
    (rings : List Ring) (b : FrameBuffer) → IsValid b → IsValid (forget_cameras rings b)
forget_cameras-IsValid [] b v = v
forget_cameras-IsValid (r ∷ rings) b v =
    forget_cameras-IsValid rings (forget_camera r.camera_id b)
      (forget_camera-IsValid r.camera_id b v)

-- The book may change in what no tally is about.
pub book-IsValid :
    (book : Book) (b : FrameBuffer)
    → book.leases ≡ b.book.leases
    → book.pins ≡ b.book.pins
    → IsValid b
    → IsValid (record b { book = book })
book-IsValid book b leases pins v lease = rw leases (v lease)
book-IsValid book b leases pins v pin = rw pins (v pin)

pub acquire_slot-IsValid :
    (now allocation : ℕ) (camera_id : String) (semantics : SourceSemantics) (b : FrameBuffer)
    → IsValid b
    → IsValid (acquire_slot now allocation camera_id semantics b).0
unfolding acquire_slot
acquire_slot-IsValid now allocation camera_id semantics b v =
    elim (Bool-cases (leb ring.capacity (length ring.order))) [
      | inr room ↦ rw room (register_camera-IsValid camera_id b v)
      | inl full ↦ elim (Bool-cases evicted) [
        | inl made_room ↦ rw (full, made_room) swept-IsValid
        | inr stuck ↦
            rw (full, stuck)
              (book-IsValid
                (record swept_buffer.book {
                  pool_exhaustions = swept_buffer.book.pool_exhaustions + 1;
                })
                swept_buffer refl refl swept-IsValid)
      ]
    ]
  where
    ring : Ring
    ring = ring_of camera_id b

    evicted : Bool
    evicted = (evict_oldest now b.config.history_window semantics ring b.book).0

    swept_buffer : FrameBuffer
    swept_buffer =
        let (gone, after, book) = evict_oldest now b.config.history_window semantics ring b.book in
        record (with_ring after b) { book = book }

    swept-IsValid : IsValid swept_buffer
    swept-IsValid =
        let (gone, after, book) = evict_oldest now b.config.history_window semantics ring b.book in
        with_ring-IsValid camera_id after book b
          ((evict_from-camera now b.config.history_window (may_drop_frames semantics) ring.order
              ring b.book).0
            ∙ ring_or-camera camera_id b.config.slots_per_camera b.rings)
          (λ kind.
            evict_from-Tallied kind now b.config.history_window (may_drop_frames semantics)
              ring.order ring b.book (others kind camera_id b.config.slots_per_camera b.rings)
              b.new_number (ring_of-Tallied camera_id b v kind))

pub discard_slot-IsValid :
    (slot : Slot) (b : FrameBuffer) → IsValid b → IsValid (discard_slot slot b)
discard_slot-IsValid slot b v = book-IsValid (discard_slot slot b).book b refl refl v

pub publish-IsValid :
    (now : ℕ) (slot : Slot) (ref : FrameRef) (privacy : PrivacyState) (b : FrameBuffer)
    → IsValid b
    → IsValid (publish now slot ref privacy b).0
unfolding publish
publish-IsValid now slot ref privacy b v = elim (Bool-cases (emittable privacy)) [
  | inr refused ↦ rw refused (discard_slot-IsValid slot b v)
  | inl allowed ↦ rw allowed (
      with_ring-IsValid ref.camera_id published b.book b
        (ring_or-camera ref.camera_id b.config.slots_per_camera b.rings)
        (λ kind. IsExact-mono (ring_of-Tallied ref.camera_id b v kind) (λ n. omega (
          arith,
          count-put_new kind n fresh_entry (ring_of ref.camera_id b).entries (no_holds kind),
        ))))
]
  where
    fresh_entry : Entry
    fresh_entry = record {
      frame_ref = ref;
      allocation = slot.allocation;
      published_at = now;
      leases = [];
      pins = [];
    }

    published : Ring
    published = record (ring_of ref.camera_id b) {
      entries = put_entry fresh_entry (ring_of ref.camera_id b).entries;
      order = (ring_of ref.camera_id b).order ++ (ref ∷ []);
    }

    no_holds : (kind : Kind) → holds kind fresh_entry ≡ []
    no_holds lease = refl
    no_holds pin = refl
