-- ===== src/Buffer.antt =====
-- vision_os/acquisition/buffer/buffer.py: the ring of frames of one camera, with the leases and pins that
-- hold frames in it. A lease or pin is an object that its taker and the frame's entry share: it has a
-- number here, and a tally knows the numbers that were neither released nor broken. A tally never goes
-- below zero (Counts), so subtraction is that of the source. Memory is the allocator's: an allocation has
-- a number, and `freed` lists those handed back.
pub mod Calls
pub mod Counts
pub mod Cases
pub mod Upkeep
pub mod Rings
pub mod Releases
pub mod Validity
pub mod Runs
pub mod Eviction
pub mod Slots
pub mod Residents
pub mod Held
mod Tests
use unityworks_vision_ai_bac.Prelude.{
  ℕ, ◌+◌, ◌-◌, String, Bool, true, false, not, ◌&&◌, ◌||◌, ltb, leb, ◌==◌, str_eq, if◌then◌else◌,
  length, is_empty, count, remove_number, List, [], ◌∷◌, ◌++◌, map, Option, none, some,
}

pub record FrameRef : Type 0 where
  pub camera_id : String
  pub stream_epoch : ℕ
  pub frame_seq : ℕ

abbrev pub same_ref : FrameRef → FrameRef → Bool
same_ref a b =
    str_eq a.camera_id b.camera_id && a.stream_epoch == b.stream_epoch && a.frame_seq == b.frame_seq

pub data SourceSemantics : Type 0 where
  realtime archival discrete : SourceSemantics

abbrev pub may_drop_frames : SourceSemantics → Bool
may_drop_frames realtime = true
may_drop_frames _ = false

pub data PrivacyState : Type 0 where
  masked unmasked_permitted mask_failed : PrivacyState

abbrev pub emittable : PrivacyState → Bool
emittable mask_failed = false
emittable _ = true

-- `FrameLease` and `PinHandle`: `until` is the deadline of the one, the expiry of the other, and `label`
-- the holder of the one, the reason of the other.
pub record Hold : Type 0 where
  pub number : ℕ
  pub label : String
  pub until : ℕ

pub record Entry : Type 0 where
  pub frame_ref : FrameRef
  pub allocation : ℕ
  pub published_at : ℕ
  pub leases : List Hold
  pub pins : List Hold

abbrev pub reclaimable : Entry → Bool
reclaimable e = is_empty e.leases && is_empty e.pins

pub record Ring : Type 0 where
  pub camera_id : String
  pub capacity : ℕ
  pub entries : List Entry
  pub order : List FrameRef

abbrev pub new_ring : String → (slots : ℕ) → Ring
new_ring camera_id slots = record {
  camera_id = camera_id;
  capacity = slots;
  entries = [];
  order = [];
}

-- The holds of one kind that are out, by number, and the counter of them.
pub record Tally : Type 0 where
  pub active : ℕ
  pub out : List ℕ

-- The counters of the buffer, and what it handed back to the allocator.
pub record Book : Type 0 where
  pub leases : Tally
  pub pins : Tally
  pub evictions : ℕ
  pub lease_leaks : ℕ
  pub pool_exhaustions : ℕ
  pub freed : List ℕ

abbrev pub give : ℕ → Tally → Tally
give number t = record { active = t.active + 1; out = number ∷ t.out }

abbrev pub take_back : ℕ → Tally → Tally
take_back number t = record { active = t.active - 1; out = remove_number number t.out }

-- The dictionary `_entries`, the list `_order`.
abbrev pub find_entry : FrameRef → List Entry → Option Entry
find_entry ref [] = none
find_entry ref (e ∷ es) =
    let rest = find_entry ref es in if same_ref e.frame_ref ref then some e else rest

abbrev pub put_entry : Entry → List Entry → List Entry
put_entry e [] = e ∷ []
put_entry e (x ∷ es) =
    let rest = put_entry e es in if same_ref x.frame_ref e.frame_ref then e ∷ es else x ∷ rest

abbrev pub pop_entry : FrameRef → List Entry → List Entry
pop_entry ref [] = []
pop_entry ref (e ∷ es) =
    let rest = pop_entry ref es in if same_ref e.frame_ref ref then es else e ∷ rest

abbrev pub remove_ref : FrameRef → List FrameRef → List FrameRef
remove_ref ref [] = []
remove_ref ref (r ∷ rs) = let rest = remove_ref ref rs in if same_ref r ref then rs else r ∷ rest

-- `_break_expired_leases` and `_expire_pins`: the holds that stay, and the tally without the others.
abbrev pub lapse : (now : ℕ) → List Hold → Tally → List Hold × Tally
lapse now [] t = ([], t)
lapse now (h ∷ hs) t =
    let over = ltb h.until now in
    let (stay, after) = lapse now hs (if over then take_back h.number t else t) in
    (if over then stay else h ∷ stay, after)

abbrev pub lapsed_count : (now : ℕ) → List Hold → ℕ
lapsed_count now [] = 0
lapsed_count now (h ∷ hs) =
    let rest = lapsed_count now hs in if ltb h.until now then rest + 1 else rest

unfoldable pub break_expired_leases : (now : ℕ) → Entry → Book → Entry × Book
break_expired_leases now e book =
    let (stay, tally) = lapse now e.leases book.leases in
    (
      record e { leases = stay },
      record book { leases = tally; lease_leaks = book.lease_leaks + lapsed_count now e.leases },
    )

unfoldable pub expire_pins : (now : ℕ) → Entry → Book → Entry × Book
expire_pins now e book =
    let (stay, tally) = lapse now e.pins book.pins in
    (record e { pins = stay }, record book { pins = tally })

abbrev pub refresh : (now : ℕ) → Entry → Book → Entry × Book
refresh now e book =
    let (unleased, broken) = break_expired_leases now e book in expire_pins now unleased broken

-- `age > history_ns`.
abbrev pub is_past : (now history : ℕ) → Entry → Bool
is_past now history e = ltb (e.published_at + history) now

-- The entry leaves the ring and its memory goes back.
abbrev pub without : FrameRef → Ring → Ring
without ref ring = record ring {
  entries = pop_entry ref ring.entries;
  order = remove_ref ref ring.order;
}

abbrev pub free : Entry → Book → Book
free e book = record book { freed = e.allocation ∷ book.freed }

-- The loop of `_evict_oldest_locked` over the references in the order of publication.
unfoldable pub evict_from :
    (now history : ℕ) → (may_drop : Bool) → List FrameRef → Ring → Book → Bool × Ring × Book
unfolding break_expired_leases expire_pins
evict_from now history may_drop [] ring book = (false, ring, book)
evict_from now history may_drop (ref ∷ refs) ring book = elim (find_entry ref ring.entries) [
  | none ↦
      evict_from now history may_drop refs (record ring { order = remove_ref ref ring.order }) book
  | some e ↦
      let (e', book') = refresh now e book in
      let ring' : Ring = record ring { entries = put_entry e' ring.entries } in
      let rest = evict_from now history may_drop refs ring' book' in
      if reclaimable e' && (may_drop || is_past now history e)
      then (true, without ref ring', record (free e book') { evictions = book'.evictions + 1 })
      else rest
]

abbrev pub evict_oldest : (now history : ℕ) → SourceSemantics → Ring → Book → Bool × Ring × Book
evict_oldest now history semantics ring book =
    evict_from now history (may_drop_frames semantics) ring.order ring book

-- The loop of `sweep` over one ring, with the number of frames reclaimed.
unfoldable pub sweep_from : (now history : ℕ) → List FrameRef → Ring → Book → ℕ × Ring × Book
unfolding break_expired_leases expire_pins
sweep_from now history [] ring book = (0, ring, book)
sweep_from now history (ref ∷ refs) ring book = elim (find_entry ref ring.entries) [
  | none ↦ sweep_from now history refs ring book
  | some e ↦
      let (e', book') = refresh now e book in
      let ring' : Ring = record ring { entries = put_entry e' ring.entries } in
      let past = is_past now history e && reclaimable e' in
      let (reclaimed, after, tallied) =
        sweep_from now history refs (if past then without ref ring' else ring')
          (if past then free e book' else book') in
      (if past then reclaimed + 1 else reclaimed, after, tallied)
]
