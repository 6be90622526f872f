-- ===== src/Buffer/Calls.antt =====
-- vision_os/acquisition/buffer/buffer.py: the operations of `FrameBuffer`, on the rings of all cameras.
-- The clock and the number of a new allocation are arguments; the result stands beside the buffer, since
-- an operation that raises may have changed it. Times and spans are in nanoseconds.
use unityworks_vision_ai_bac.Prelude.{
  ℕ, ◌+◌, String, Bool, true, false, leb, ◌==◌, str_eq, if◌then◌else◌, length, count, List, [], ◌∷◌,
  ◌++◌, map, Option, none, some, Result, ok, raise,
}
use unityworks_vision_ai_bac.Buffer.{
  FrameRef, SourceSemantics, PrivacyState, emittable, Hold, Entry, Ring, new_ring, Tally, Book,
  give, take_back, find_entry, put_entry, pop_entry, free, evict_from, evict_oldest, sweep_from,
}

pub data Error : Type 0 where
  value_error pool_exhausted frame_unavailable : Error

pub record Config : Type 0 where
  pub slots_per_camera : ℕ
  pub history_window : ℕ
  pub lease_deadline : ℕ

pub record FrameBuffer : Type 0 where
  pub config : Config
  pub rings : List Ring
  pub book : Book
  pub new_number : ℕ

pub record Slot : Type 0 where
  pub allocation : ℕ
  pub camera_id : String

abbrev pub new_buffer : Config → FrameBuffer
new_buffer config = record {
  config = config;
  rings = [];
  book = record {
    leases = record { active = 0; out = [] };
    pins = record { active = 0; out = [] };
    evictions = 0;
    lease_leaks = 0;
    pool_exhaustions = 0;
    freed = [];
  };
  new_number = 0;
}

-- `_ring`: the ring of a camera, which is made where there is none; and the writing of it.
abbrev pub ring_or : Ring → List Ring → Ring
ring_or fresh [] = fresh
ring_or fresh (r ∷ rs) =
    let rest = ring_or fresh rs in if str_eq r.camera_id fresh.camera_id then r else rest

abbrev pub put_ring : Ring → List Ring → List Ring
put_ring ring [] = ring ∷ []
put_ring ring (r ∷ rs) =
    let rest = put_ring ring rs in if str_eq r.camera_id ring.camera_id then ring ∷ rs else r ∷ rest

abbrev pub ring_of : String → FrameBuffer → Ring
ring_of camera_id b = ring_or (new_ring camera_id b.config.slots_per_camera) b.rings

abbrev pub with_ring : Ring → FrameBuffer → FrameBuffer
with_ring ring b = record b { rings = put_ring ring b.rings }

abbrev pub register_camera : String → FrameBuffer → FrameBuffer
register_camera camera_id b = with_ring (ring_of camera_id b) b

-- `forget_camera`: the frames of the order go back, in it.
abbrev pub free_found : Option Entry → Book → Book
free_found none book = book
free_found (some e) book = free e book

abbrev pub free_refs : List FrameRef → List Entry → Book → Book
free_refs [] entries book = book
free_refs (ref ∷ refs) entries book =
    free_refs refs (pop_entry ref entries) (free_found (find_entry ref entries) book)

abbrev pub free_ring : String → List Ring → Book → List Ring × Book
free_ring camera_id [] book = ([], book)
free_ring camera_id (r ∷ rs) book =
    let (rest, after) = free_ring camera_id rs book in
    if str_eq r.camera_id camera_id
    then (rs, free_refs r.order r.entries book)
    else (r ∷ rest, after)

unfoldable pub forget_camera : String → FrameBuffer → FrameBuffer
forget_camera camera_id b =
    let (rings, book) = free_ring camera_id b.rings b.book in
    record b { rings = rings; book = book }

-- `acquire_slot`.
unfoldable pub acquire_slot :
    (now allocation : ℕ) → String → SourceSemantics → FrameBuffer → FrameBuffer × Result Error Slot
unfolding evict_from
acquire_slot now allocation camera_id semantics b =
    let ring = ring_of camera_id b in
    let slot = ok (record { allocation = allocation; camera_id = camera_id }) in
    let (evicted, after, book) = evict_oldest now b.config.history_window semantics ring b.book in
    if leb ring.capacity (length ring.order)
    then if evicted then (record (with_ring after b) { book = book }, slot) else (
      record (with_ring after b) {
        book = record book { pool_exhaustions = book.pool_exhaustions + 1 };
      },
      raise pool_exhausted,
    )
    else (with_ring ring b, slot)

abbrev pub discard_slot : Slot → FrameBuffer → FrameBuffer
discard_slot slot b = record b { book = record b.book { freed = slot.allocation ∷ b.book.freed } }

-- `publish`: the frame that was published is its entry.
unfoldable pub publish :
    (now : ℕ) → Slot → FrameRef → PrivacyState → FrameBuffer → FrameBuffer × Result Error Entry
publish now slot ref privacy b =
    let ring = ring_of ref.camera_id b in
    let e : Entry = record {
      frame_ref = ref;
      allocation = slot.allocation;
      published_at = now;
      leases = [];
      pins = [];
    } in
    if emittable privacy
    then (
      with_ring
          (record ring { entries = put_entry e ring.entries; order = ring.order ++ (ref ∷ []) }) b,
      ok e,
    )
    else (discard_slot slot b, raise value_error)

-- `acquire` and `pin`, with the number of the hold that they hand out.
abbrev pub new_hold : ℕ → String → ℕ → Hold
new_hold number label until = record { number = number; label = label; until = until }

abbrev pub span_of : Option ℕ → Config → ℕ
span_of none config = config.lease_deadline
span_of (some deadline) config = deadline

unfoldable pub acquire :
    (now : ℕ) → FrameRef → String → Option ℕ → FrameBuffer → FrameBuffer × Result Error ℕ
acquire now ref holder_id deadline b =
    let ring = ring_of ref.camera_id b in
    elim (find_entry ref ring.entries) [
      | none ↦ (with_ring ring b, raise frame_unavailable)
      | some e ↦ (
        record (with_ring
            (record ring {
              entries =
                  put_entry
                    (record e {
                      leases =
                          e.leases
                          ++ (new_hold b.new_number holder_id (now + span_of deadline b.config)
                              ∷ []);
                    })
                    ring.entries;
            })
            b) {
              book = record b.book { leases = give b.new_number b.book.leases };
              new_number = b.new_number + 1;
            },
        ok b.new_number,
      )
    ]

unfoldable pub pin :
    (now : ℕ) → FrameRef → (ttl : ℕ) → String → FrameBuffer → FrameBuffer × Result Error ℕ
pin now ref ttl reason b =
    let ring = ring_of ref.camera_id b in
    elim (find_entry ref ring.entries) [
      | none ↦ (with_ring ring b, raise frame_unavailable)
      | some e ↦ (
        record (with_ring
            (record ring {
              entries =
                  put_entry
                    (record e { pins = e.pins ++ (new_hold b.new_number reason (now + ttl) ∷ []) })
                    ring.entries;
            })
            b) {
              book = record b.book { pins = give b.new_number b.book.pins };
              new_number = b.new_number + 1;
            },
        ok b.new_number,
      )
    ]

-- `FrameLease.release` and `unpin`. The hold leaves the entry that it stands in, where that is still
-- resident; a number stands in one entry at most.
abbrev pub without_hold : ℕ → List Hold → List Hold
without_hold number [] = []
without_hold number (h ∷ hs) =
    let rest = without_hold number hs in if h.number == number then hs else h ∷ rest

abbrev pub is_out : ℕ → Tally → Bool
is_out number t = leb 1 (count number t.out)

abbrev pub release_entry : ℕ → Entry → Entry
release_entry number e = record e { leases = without_hold number e.leases }

abbrev pub release_in : ℕ → Ring → Ring
release_in number ring = record ring { entries = map (release_entry number) ring.entries }

abbrev pub unpin_entry : ℕ → Entry → Entry
unpin_entry number e = record e { pins = without_hold number e.pins }

abbrev pub unpin_in : ℕ → Ring → Ring
unpin_in number ring = record ring { entries = map (unpin_entry number) ring.entries }

unfoldable pub release : ℕ → FrameBuffer → FrameBuffer
release number b =
    if is_out number b.book.leases
    then record b {
      rings = map (release_in number) b.rings;
      book = record b.book { leases = take_back number b.book.leases };
    }
    else b

unfoldable pub unpin : ℕ → FrameBuffer → FrameBuffer
unpin number b =
    if is_out number b.book.pins
    then record b {
      rings = map (unpin_in number) b.rings;
      book = record b.book { pins = take_back number b.book.pins };
    }
    else b

abbrev pub is_resident : FrameRef → FrameBuffer → Bool
is_resident ref b = elim (find_entry ref (ring_of ref.camera_id b).entries) [
  | none ↦ false
  | some e ↦ true
]

-- `sweep`, with the number of frames reclaimed.
unfoldable pub sweep_rings : (now history : ℕ) → List Ring → Book → ℕ × List Ring × Book
unfolding sweep_from
sweep_rings now history [] book = (0, [], book)
sweep_rings now history (ring ∷ rings) book =
    let (reclaimed, after, swept) = sweep_from now history ring.order ring book in
    let (more, rest, last) = sweep_rings now history rings swept in
    (reclaimed + more, after ∷ rest, last)

unfoldable pub sweep : (now : ℕ) → FrameBuffer → FrameBuffer × ℕ
unfolding sweep_rings
sweep now b =
    let (reclaimed, rings, book) = sweep_rings now b.config.history_window b.rings b.book in
    (record b { rings = rings; book = book }, reclaimed)

-- `close`.
abbrev pub forget_cameras : List Ring → FrameBuffer → FrameBuffer
forget_cameras [] b = b
forget_cameras (ring ∷ rings) b = forget_cameras rings (forget_camera ring.camera_id b)

abbrev pub close : FrameBuffer → FrameBuffer
close b = forget_cameras b.rings b
