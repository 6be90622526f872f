-- ===== src/Buffer/Runs.antt =====
-- vision_os/acquisition/buffer/buffer.py: the counters of the buffer over any sequence of calls.
use unityworks_vision_ai_bac.Prelude.{
  ℕ, ◌+◌, ◌≤◌, ◌≡◌, refl, ap, ◌∙◌, String, Bool-cases, Option-cases, inl, inr, count, count-append,
  List, [], ◌∷◌, ◌++◌, map, Option, some, arith,
}
use unityworks_vision_ai_bac.Buffer.{
  FrameRef, SourceSemantics, PrivacyState, Hold, Entry, Ring, Book, give, take_back, find_entry,
  put_entry,
}
use unityworks_vision_ai_bac.Buffer.Calls.{
  Config, FrameBuffer, Slot, new_buffer, ring_of, with_ring, register_camera, forget_camera,
  acquire_slot, discard_slot, publish, new_hold, span_of, acquire, pin as pin_frame, is_out,
  release, unpin, sweep, close, release_in, unpin_in,
}
use unityworks_vision_ai_bac.Buffer.Counts.{
  Kind, lease, pin, tally, numbers, IsExact-mono, IsExact-later, give-IsExact, take_back-IsExact,
}
use unityworks_vision_ai_bac.Buffer.Upkeep.{Tallied, find_entry-ref, count-put_entry}
use unityworks_vision_ai_bac.Buffer.Rings.{others, put_ring-IsExact, sweep_rings-IsExact}
use unityworks_vision_ai_bac.Buffer.Releases.{count-end_rings}
use unityworks_vision_ai_bac.Buffer.Validity.{
  IsTallied, IsValid, ring_or-camera, ring_of-Tallied, register_camera-IsValid,
  forget_camera-IsValid, forget_cameras-IsValid, acquire_slot-IsValid, discard_slot-IsValid,
  publish-IsValid,
}

-- A new hold of an entry: its kind gains it, the other kind stays.
abbrev pub add_hold : Kind → Hold → Entry → Entry
add_hold lease h e = record e { leases = e.leases ++ (h ∷ []) }
add_hold pin h e = record e { pins = e.pins ++ (h ∷ []) }

abbrev pub give_hold : Kind → ℕ → Book → Book
give_hold lease number book = record book { leases = give number book.leases }
give_hold pin number book = record book { pins = give number book.pins }

numbers-append :
    (hs : List Hold) (h : Hold) → numbers (hs ++ (h ∷ [])) ≡ numbers hs ++ (h.number ∷ [])
numbers-append [] h = refl
numbers-append (x ∷ hs) h = ap (◌∷◌ x.number) (numbers-append hs h)

give_hold-Tallied :
    (kind added : Kind) (h : Hold) (ring : Ring) (e : Entry) (b : FrameBuffer) (other : ℕ → ℕ)
    → h.number ≡ b.new_number
    → find_entry e.frame_ref ring.entries ≡ some e
    → Tallied kind other b.new_number ring b.book
    → Tallied kind other
        (b.new_number + 1)
        (record ring { entries = put_entry (add_hold added h e) ring.entries })
        (give_hold added b.new_number b.book)
give_hold-Tallied lease lease h ring e b other same found v = IsExact-mono (give-IsExact v) (λ n.
    ground (
      arith,
      count-put_entry lease n e (add_hold lease h e) ring.entries refl found,
      numbers-append e.leases h,
      count-append n (numbers e.leases) (h.number ∷ []),
    ))
give_hold-Tallied lease pin h ring e b other same found v = IsExact-later (
    IsExact-mono v
      (λ n. omega (arith, count-put_entry lease n e (add_hold pin h e) ring.entries refl found)))
give_hold-Tallied pin lease h ring e b other same found v = IsExact-later (
    IsExact-mono v
      (λ n. omega (arith, count-put_entry pin n e (add_hold lease h e) ring.entries refl found)))
give_hold-Tallied pin pin h ring e b other same found v = IsExact-mono (give-IsExact v) (λ n.
    ground (
      arith,
      count-put_entry pin n e (add_hold pin h e) ring.entries refl found,
      numbers-append e.pins h,
      count-append n (numbers e.pins) (h.number ∷ []),
    ))

-- Handing out a hold of an entry of a ring, and where there is no such entry.
held-IsValid :
    (added : Kind) (ref : FrameRef) (label : String) (until : ℕ) (e : Entry) (b : FrameBuffer)
    → find_entry ref (ring_of ref.camera_id b).entries ≡ some e
    → IsValid b
    → IsValid
        (record (with_ring
          (record (ring_of ref.camera_id b) {
            entries =
                put_entry
                  (add_hold added (new_hold b.new_number label until) e)
                  (ring_of ref.camera_id b).entries;
          })
          b) { book = give_hold added b.new_number b.book; new_number = b.new_number + 1 })
held-IsValid added ref label until e b found v kind =
    put_ring-IsExact kind b.config.slots_per_camera
      (record (ring_of ref.camera_id b) {
        entries =
            put_entry (add_hold added (new_hold b.new_number label until) e)
              (ring_of ref.camera_id b).entries;
      })
      b.rings ref.camera_id (tally kind (give_hold added b.new_number b.book))
      (ring_or-camera ref.camera_id b.config.slots_per_camera b.rings)
      (give_hold-Tallied kind added (new_hold b.new_number label until) (ring_of ref.camera_id b) e
        b (others kind ref.camera_id b.config.slots_per_camera b.rings) refl
        (ap (λ (r : FrameRef). find_entry r (ring_of ref.camera_id b).entries)
            (find_entry-ref ref (ring_of ref.camera_id b).entries e found)
          ∙ found)
        (ring_of-Tallied ref.camera_id b v kind))

acquire-IsValid :
    (now : ℕ) (ref : FrameRef) (holder_id : String) (deadline : Option ℕ) (b : FrameBuffer)
    → IsValid b
    → IsValid (acquire now ref holder_id deadline b).0
unfolding acquire
acquire-IsValid now ref holder_id deadline b v =
    elim (Option-cases (find_entry ref (ring_of ref.camera_id b).entries)) [
      | inl missing ↦ rw (acquire, missing) (register_camera-IsValid ref.camera_id b v)
      | inr (e, found) ↦
          rw (acquire, found)
            (held-IsValid lease ref holder_id (now + span_of deadline b.config) e b found v)
    ]

pin_frame-IsValid :
    (now : ℕ) (ref : FrameRef) (ttl : ℕ) (reason : String) (b : FrameBuffer)
    → IsValid b
    → IsValid (pin_frame now ref ttl reason b).0
unfolding pin_frame
pin_frame-IsValid now ref ttl reason b v =
    elim (Option-cases (find_entry ref (ring_of ref.camera_id b).entries)) [
      | inl missing ↦ rw (pin_frame, missing) (register_camera-IsValid ref.camera_id b v)
      | inr (e, found) ↦ rw (pin_frame, found) (held-IsValid pin ref reason (now + ttl) e b found v)
    ]

release-IsValid : (number : ℕ) (b : FrameBuffer) → IsValid b → IsValid (release number b)
unfolding release
release-IsValid number b v = elim (Bool-cases (is_out number b.book.leases)) [
  | inr over ↦ rw over v
  | inl out ↦ rw out (taken (ground arith))
]
  where
    taken :
        1 ≤ count number b.book.leases.out
        → IsValid (record b {
          rings = map (release_in number) b.rings;
          book = record b.book { leases = take_back number b.book.leases };
        })
    taken out lease =
        IsExact-mono (take_back-IsExact number (v lease) out)
          (λ n. (count-end_rings lease lease number n b.rings).1)
    taken out pin = IsExact-mono (v pin) (λ n. (count-end_rings pin lease number n b.rings).0)

unpin-IsValid : (number : ℕ) (b : FrameBuffer) → IsValid b → IsValid (unpin number b)
unfolding unpin
unpin-IsValid number b v = elim (Bool-cases (is_out number b.book.pins)) [
  | inr over ↦ rw over v
  | inl out ↦ rw out (taken (ground arith))
]
  where
    taken :
        1 ≤ count number b.book.pins.out
        → IsValid (record b {
          rings = map (unpin_in number) b.rings;
          book = record b.book { pins = take_back number b.book.pins };
        })
    taken out pin =
        IsExact-mono (take_back-IsExact number (v pin) out)
          (λ n. (count-end_rings pin pin number n b.rings).1)
    taken out lease = IsExact-mono (v lease) (λ n. (count-end_rings lease pin number n b.rings).0)

sweep-IsValid : (now : ℕ) (b : FrameBuffer) → IsValid b → IsValid (sweep now b).0
unfolding sweep
sweep-IsValid now b v kind =
    IsExact-mono
      (sweep_rings-IsExact kind now b.config.history_window b.rings b.book (λ n. 0) b.new_number
        (IsExact-mono (v kind) (λ n. omega arith)))
      (λ n. omega arith)

-- The calls of the buffer and of the handles that it gave out.
pub data Call : Type 0 where
  registers : String → Call
  forgets : String → Call
  takes_slot : (now allocation : ℕ) → String → SourceSemantics → Call
  discards : Slot → Call
  publishes : (now : ℕ) → Slot → FrameRef → PrivacyState → Call
  acquires : (now : ℕ) → FrameRef → String → Option ℕ → Call
  pins : (now : ℕ) → FrameRef → (ttl : ℕ) → String → Call
  releases : ℕ → Call
  unpins : ℕ → Call
  sweeps : ℕ → Call
  closes : Call

unfoldable pub perform : Call → FrameBuffer → FrameBuffer
perform (registers camera_id) b = register_camera camera_id b
perform (forgets camera_id) b = forget_camera camera_id b
perform (takes_slot now allocation camera_id semantics) b =
    (acquire_slot now allocation camera_id semantics b).0
perform (discards slot) b = discard_slot slot b
perform (publishes now slot ref privacy) b = (publish now slot ref privacy b).0
perform (acquires now ref holder_id deadline) b = (acquire now ref holder_id deadline b).0
perform (pins now ref ttl reason) b = (pin_frame now ref ttl reason b).0
perform (releases number) b = release number b
perform (unpins number) b = unpin number b
perform (sweeps now) b = (sweep now b).0
perform closes b = close b

unfoldable pub run : List Call → FrameBuffer → FrameBuffer
run [] b = b
run (call ∷ calls) b = run calls (perform call b)

perform-IsValid : (call : Call) (b : FrameBuffer) → IsValid b → IsValid (perform call b)
unfolding perform
perform-IsValid (registers camera_id) b v = register_camera-IsValid camera_id b v
perform-IsValid (forgets camera_id) b v = forget_camera-IsValid camera_id b v
perform-IsValid (takes_slot now allocation camera_id semantics) b v =
    acquire_slot-IsValid now allocation camera_id semantics b v
perform-IsValid (discards slot) b v = discard_slot-IsValid slot b v
perform-IsValid (publishes now slot ref privacy) b v = publish-IsValid now slot ref privacy b v
perform-IsValid (acquires now ref holder_id deadline) b v =
    acquire-IsValid now ref holder_id deadline b v
perform-IsValid (pins now ref ttl reason) b v = pin_frame-IsValid now ref ttl reason b v
perform-IsValid (releases number) b v = release-IsValid number b v
perform-IsValid (unpins number) b v = unpin-IsValid number b v
perform-IsValid (sweeps now) b v = sweep-IsValid now b v
perform-IsValid closes b v = forget_cameras-IsValid b.rings b v

run-IsValid_from : (calls : List Call) (b : FrameBuffer) → IsValid b → IsValid (run calls b)
unfolding run
run-IsValid_from [] b v = v
run-IsValid_from (call ∷ calls) b v =
    run-IsValid_from calls (perform call b) (perform-IsValid call b v)

-- Whatever is called on a new buffer, in any order, `leases_active` and `pins_active` are the numbers of
-- the leases and pins that were handed out and neither released nor broken, no matter whether the frames
-- are still resident; and every lease or pin that stands in an entry is one of these, and stands there once.
pub run-IsTallied :
    (config : Config) (calls : List Call)
    → let b = run calls (new_buffer config) in IsTallied lease b × IsTallied pin b
run-IsTallied config calls =
    let v = run-IsValid_from calls (new_buffer config) fresh in (v lease, v pin)
  where
    fresh : IsValid (new_buffer config)
    fresh lease = record {
      covered = λ n. omega arith;
      single = λ n. omega arith;
      issued = λ n h. refl;
      exact = refl;
    }
    fresh pin = record {
      covered = λ n. omega arith;
      single = λ n. omega arith;
      issued = λ n h. refl;
      exact = refl;
    }
