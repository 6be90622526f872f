-- ===== src/Buffer/Eviction.antt =====
-- vision_os/acquisition/buffer/buffer.py: which frame makes room for a new one, and when no frame does.
use unityworks_vision_ai_bac.Prelude.{
  ℕ, ◌+◌, ◌≡◌, refl, sym, ap, ◌∙◌, Bool, true, false, not, ◌&&◌, ◌||◌, if◌then◌else◌, Bool-cases,
  inl, inr, all, List, [], ◌∷◌, Option, none, some, arith,
}
use unityworks_vision_ai_bac.Buffer.{
  FrameRef, same_ref, Entry, Ring, Book, find_entry, put_entry, remove_ref, break_expired_leases,
  expire_pins, refresh, is_past, reclaimable, evict_from,
}
use unityworks_vision_ai_bac.Buffer.Cases.{evict_from_cases}
use unityworks_vision_ai_bac.Buffer.Upkeep.{same_ref-eq, find_entry-ref, refresh-ref}
use unityworks_vision_ai_bac.Buffer.Residents.{is_held, refresh_held, find_entry-put_entry}

-- A frame that may make room: nothing holds it, and the source drops frames or its time is past.
abbrev pub may_go : (now history : ℕ) → Bool → Entry → Bool
may_go now history may_drop e = not (is_held now e) && (may_drop || is_past now history e)

-- The first frame in the order that may make room.
abbrev pub oldest : (now history : ℕ) → Bool → List Entry → List FrameRef → Option Entry
oldest now history may_drop es [] = none
oldest now history may_drop es (ref ∷ refs) = elim (find_entry ref es) [
  | none ↦ oldest now history may_drop es refs
  | some e ↦ if may_go now history may_drop e then some e else oldest now history may_drop es refs
]

abbrev pub is_resident_in : List Entry → FrameRef → Bool
is_resident_in es ref = elim (find_entry ref es) [ none ↦ false | some e ↦ true ]

-- What an eviction has done to a ring and the book: nothing to the frames, or one frame is gone.
pub record Took (e : Entry) (order : List FrameRef) (before : Book) (after : Ring) (book : Book)
    : Type 0 where
  pub gone : after.order ≡ remove_ref e.frame_ref order
  pub returned : book.freed ≡ e.allocation ∷ before.freed
  pub counted : book.evictions ≡ before.evictions + 1
  pub quiet : book.pool_exhaustions ≡ before.pool_exhaustions

pub record TookNone (order : List FrameRef) (before : Book) (after : Ring) (book : Book)
    : Type 0 where
  pub kept : after.order ≡ order
  pub returned : book.freed ≡ before.freed
  pub counted : book.evictions ≡ before.evictions
  pub quiet : book.pool_exhaustions ≡ before.pool_exhaustions

abbrev pub Evicted : Option Entry → List FrameRef → Book → Bool × Ring × Book → Type 0
Evicted none order before (evicted, after, book) =
    (evicted ≡ false) × TookNone order before after book
Evicted (some e) order before (evicted, after, book) =
    (evicted ≡ true) × Took e order before after book

refresh-book :
    (now : ℕ) (e : Entry) (book : Book)
    → let after = (refresh now e book).1 in
      (after.freed ≡ book.freed)
      × (after.evictions ≡ book.evictions)
      × (after.pool_exhaustions ≡ book.pool_exhaustions)
unfolding break_expired_leases expire_pins
refresh-book now e book = (refl, refl, refl)

-- Bringing an entry that stays up to date leaves the first one that may go as it was.
find-refreshed :
    (now : ℕ) (ref other : FrameRef) (es : List Entry) (e : Entry) (book : Book)
    → find_entry other es ≡ some e
    → same_ref (refresh now e book).0.frame_ref ref ≡ true
    → find_entry ref es ≡ some e
find-refreshed now ref other es e book found same =
    let target : other ≡ ref =
      sym (find_entry-ref other es e found)
      ∙ sym (refresh-ref now e book)
      ∙ same_ref-eq (refresh now e book).0.frame_ref ref same in
    ap (λ (r : FrameRef). find_entry r es) (sym target) ∙ found

oldest-refreshed :
    (now history : ℕ) (may_drop : Bool) (es : List Entry) (refs : List FrameRef) (other : FrameRef)
    (e : Entry) (book : Book)
    → find_entry other es ≡ some e
    → may_go now history may_drop e ≡ false
    → (oldest now history may_drop (put_entry (refresh now e book).0 es) refs
        ≡ oldest now history may_drop es refs)
      × (all (is_resident_in (put_entry (refresh now e book).0 es)) refs
          ≡ all (is_resident_in es) refs)
oldest-refreshed now history may_drop es [] other e book found stays = (refl, refl)
oldest-refreshed now history may_drop es (ref ∷ refs) other e book found stays =
    elim (Bool-cases (same_ref (refresh now e book).0.frame_ref ref)) [
      | inl same ↦ ground (
        arith,
        find_entry-put_entry ref (refresh now e book).0 es,
        find-refreshed now ref other es e book found same,
        refresh_held now e book,
        oldest-refreshed now history may_drop es refs other e book found stays,
      )
      | inr apart ↦ ground (
        arith,
        find_entry-put_entry ref (refresh now e book).0 es,
        oldest-refreshed now history may_drop es refs other e book found stays,
      )
    ]

Evicted-book :
    (found : Option Entry) (order : List FrameRef) (before earlier : Book)
    (result : Bool × Ring × Book)
    → (before.freed ≡ earlier.freed)
      × (before.evictions ≡ earlier.evictions)
      × (before.pool_exhaustions ≡ earlier.pool_exhaustions)
    → Evicted found order before result
    → Evicted found order earlier result
Evicted-book none order before earlier (evicted, after, book) (f, c, q) v = ground (arith, v)
Evicted-book (some e) order before earlier (evicted, after, book) (f, c, q) v = ground (arith, v)

pub evict_from-Evicted :
    (now history : ℕ) (may_drop : Bool) (refs : List FrameRef) (ring : Ring) (book : Book)
    → all (is_resident_in ring.entries) refs ≡ true
    → Evicted
        (oldest now history may_drop ring.entries refs)
        ring.order
        book
        (evict_from now history may_drop refs ring book)
unfolding evict_from
evict_from-Evicted now history may_drop [] ring book complete =
    (refl, record { kept = refl; returned = refl; counted = refl; quiet = refl })
evict_from-Evicted now history may_drop (ref ∷ refs) ring book complete =
    evict_from_cases
      (λ r. Evicted (oldest now history may_drop ring.entries (ref ∷ refs)) ring.order book r) now
      history may_drop ref refs ring book (λ missing. absurd (ground (arith, missing)))
      (λ e found. (
        λ goes. rw (first e found goes) (
          refl,
          record {
            gone = rw (find_entry-ref ref ring.entries e found) refl;
            returned = refl;
            counted = ap (λ (n : ℕ). n + 1) (refresh-book now e book).1;
            quiet = (refresh-book now e book).2;
          },
        ),
        λ blocked.
            let stays : may_go now history may_drop e ≡ false =
              ground (arith, refresh_held now e book, blocked) in
            let (same, still) =
              oldest-refreshed now history may_drop ring.entries refs ref e book found stays in
            rw (passed e found stays, ← same)
              (Evicted-book
                (oldest now history may_drop (put_entry (refresh now e book).0 ring.entries) refs)
                ring.order (refresh now e book).1 book
                (evict_from now history may_drop refs
                  (record ring { entries = put_entry (refresh now e book).0 ring.entries })
                  (refresh now e book).1)
                (refresh-book now e book)
                (evict_from-Evicted now history may_drop refs
                  (record ring { entries = put_entry (refresh now e book).0 ring.entries })
                  (refresh now e book).1 (still ∙ ground (arith, complete)))),
      ))
  where
    first :
        (e : Entry)
        → find_entry ref ring.entries ≡ some e
        → (reclaimable (refresh now e book).0 && (may_drop || is_past now history e)) ≡ true
        → oldest now history may_drop ring.entries (ref ∷ refs) ≡ some e
    first e found goes = ground (arith, refresh_held now e book)

    passed :
        (e : Entry)
        → find_entry ref ring.entries ≡ some e
        → may_go now history may_drop e ≡ false
        → oldest now history may_drop ring.entries (ref ∷ refs)
          ≡ oldest now history may_drop ring.entries refs
    passed e found stays = ground arith
