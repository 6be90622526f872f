-- ===== src/Buffer/Cases.antt =====
-- vision_os/acquisition/buffer/buffer.py: the two loops over a ring, case by case.
use unityworks_vision_ai_bac.Prelude.{
  ℕ, ◌+◌, ◌≡◌, Bool, true, false, ◌&&◌, ◌||◌, Bool-cases, Option-cases, inl, inr, List, ◌∷◌, none,
  some,
}
use unityworks_vision_ai_bac.Buffer.{
  FrameRef, Entry, Ring, Book, find_entry, put_entry, remove_ref, refresh, free, without, is_past,
  reclaimable, evict_from, sweep_from,
}

-- One round of an eviction.
pub evict_from_cases :
    (P : Bool × Ring × Book → Type 0) (now history : ℕ) (may_drop : Bool) (ref : FrameRef)
    (refs : List FrameRef) (ring : Ring) (book : Book)
    → (find_entry ref ring.entries ≡ none
        → P (
            evict_from now history may_drop refs
              (record ring { order = remove_ref ref ring.order })
              book))
    → ((e : Entry)
        → find_entry ref ring.entries ≡ some e
        → let (e', book') = refresh now e book in
          let ring' : Ring = record ring { entries = put_entry e' ring.entries } in
          ((reclaimable e' && (may_drop || is_past now history e)) ≡ true
            → P (
              true,
              without ref ring',
              record (free e book') { evictions = book'.evictions + 1 },
            ))
          × ((reclaimable e' && (may_drop || is_past now history e)) ≡ false
              → P (evict_from now history may_drop refs ring' book')))
    → P (evict_from now history may_drop (ref ∷ refs) ring book)
unfolding evict_from
evict_from_cases P now history may_drop ref refs ring book absent present =
    elim (Option-cases (find_entry ref ring.entries)) [
      | inl missing ↦ rw (evict_from, missing) (absent missing)
      | inr (e, found) ↦
          elim (Bool-cases
            (reclaimable (refresh now e book).0 && (may_drop || is_past now history e))) [
              | inl goes ↦ rw (evict_from, found, goes) ((present e found).0 goes)
              | inr stays ↦ rw (evict_from, found, stays) ((present e found).1 stays)
            ]
    ]

-- One round of a sweep: `P` may not look at the number of frames reclaimed.
pub sweep_from_cases :
    (P : ℕ × Ring × Book → Type 0) (now history : ℕ) (ref : FrameRef) (refs : List FrameRef)
    (ring : Ring) (book : Book)
    → (find_entry ref ring.entries ≡ none → P (sweep_from now history refs ring book))
    → ((e : Entry)
        → find_entry ref ring.entries ≡ some e
        → let (e', book') = refresh now e book in
          let ring' : Ring = record ring { entries = put_entry e' ring.entries } in
          ((is_past now history e && reclaimable e') ≡ true
            → let (reclaimed, after, swept) =
                sweep_from now history refs (without ref ring') (free e book') in
              P (reclaimed + 1, after, swept))
          × ((is_past now history e && reclaimable e') ≡ false
              → P (sweep_from now history refs ring' book')))
    → P (sweep_from now history (ref ∷ refs) ring book)
unfolding sweep_from
sweep_from_cases P now history ref refs ring book absent present =
    elim (Option-cases (find_entry ref ring.entries)) [
      | inl missing ↦ rw (sweep_from, missing) (absent missing)
      | inr (e, found) ↦
          elim (Bool-cases (is_past now history e && reclaimable (refresh now e book).0)) [
            | inl goes ↦ rw (sweep_from, found, goes) ((present e found).0 goes)
            | inr stays ↦ rw (sweep_from, found, stays) ((present e found).1 stays)
          ]
    ]
