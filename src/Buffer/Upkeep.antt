-- ===== src/Buffer/Upkeep.antt =====
-- vision_os/acquisition/buffer/buffer.py: what the work on the entries of a ring does to the holds that
-- stand in them.
use unityworks_vision_ai_bac.Prelude.{
  ℕ, ◌+◌, ◌-◌, ◌≤◌, ◌≡◌, refl, ap, ◌∙◌, Bool, true, eq_iff, count, count-append, List, [], ◌∷◌,
  some, arith,
}
use unityworks_vision_ai_bac.Buffer.{
  FrameRef, same_ref, Entry, Ring, Book, find_entry, put_entry, pop_entry, remove_ref,
  break_expired_leases, expire_pins, refresh, free, without, evict_from, sweep_from,
}
use unityworks_vision_ai_bac.Buffer.Cases.{evict_from_cases, sweep_from_cases}
use unityworks_vision_ai_bac.Buffer.Counts.{
  Kind, lease, pin, holds, tally, numbers, numbers_in, IsExact, IsExact-mono, lapse-IsExact,
}

pub same_ref_refl : (a : FrameRef) → same_ref a a ≡ true
same_ref_refl a = ground (arith, eq_iff a.camera_id a.camera_id)

pub same_ref-eq : (a b : FrameRef) → same_ref a b ≡ true → a ≡ b
same_ref-eq a b h = ground (arith, eq_iff a.camera_id b.camera_id)

pub find_entry-ref :
    (ref : FrameRef) (es : List Entry) (e : Entry) → find_entry ref es ≡ some e → e.frame_ref ≡ ref
find_entry-ref ref [] e h = cc
find_entry-ref ref (x ∷ es) e h =
    ground (arith, find_entry-ref ref es e, same_ref-eq x.frame_ref ref)

-- Writing an entry back exchanges its holds for the new ones.
pub count-put_entry :
    (kind : Kind) (n : ℕ) (e new : Entry) (es : List Entry)
    → new.frame_ref ≡ e.frame_ref
    → find_entry e.frame_ref es ≡ some e
    → count n (numbers_in kind (put_entry new es)) + count n (numbers (holds kind e))
      ≡ count n (numbers_in kind es) + count n (numbers (holds kind new))
count-put_entry kind n e new [] same h = cc
count-put_entry kind n e new (x ∷ es) same h = ground (
  arith,
  count-put_entry kind n e new es same,
  count-append n (numbers (holds kind x)) (numbers_in kind es),
  count-append n (numbers (holds kind new)) (numbers_in kind es),
  count-append n (numbers (holds kind x)) (numbers_in kind (put_entry new es)),
)

pub count-find_entry :
    (kind : Kind) (n : ℕ) (ref : FrameRef) (e : Entry) (es : List Entry)
    → find_entry ref es ≡ some e
    → count n (numbers (holds kind e)) ≤ count n (numbers_in kind es)
count-find_entry kind n ref e [] found = cc
count-find_entry kind n ref e (x ∷ es) found = ground (
  arith,
  count-find_entry kind n ref e es,
  count-append n (numbers (holds kind x)) (numbers_in kind es),
)

pub count-pop_entry :
    (kind : Kind) (n : ℕ) (ref : FrameRef) (es : List Entry)
    → count n (numbers_in kind (pop_entry ref es)) ≤ count n (numbers_in kind es)
count-pop_entry kind n ref [] = omega arith
count-pop_entry kind n ref (x ∷ es) = ground (
  arith,
  count-pop_entry kind n ref es,
  count-append n (numbers (holds kind x)) (numbers_in kind es),
  count-append n (numbers (holds kind x)) (numbers_in kind (pop_entry ref es)),
)

pub refresh-ref :
    (now : ℕ) (e : Entry) (book : Book) → (refresh now e book).0.frame_ref ≡ e.frame_ref
unfolding break_expired_leases expire_pins
refresh-ref now e book = refl

-- Bringing one entry up to date keeps the tally exact.
pub refresh-IsExact :
    (kind : Kind) (now : ℕ) (e : Entry) (book : Book) (other : ℕ → ℕ) {new_number : ℕ}
    → IsExact (λ n. other n + count n (numbers (holds kind e))) new_number (tally kind book)
    → IsExact
        (λ n. other n + count n (numbers (holds kind (refresh now e book).0)))
        new_number
        (tally kind (refresh now e book).1)
unfolding break_expired_leases expire_pins
refresh-IsExact lease now e book other v = lapse-IsExact now e.leases other v
refresh-IsExact pin now e book other v = lapse-IsExact now e.pins other v

-- So does writing it back among the others.
pub refresh_in-IsExact :
    (kind : Kind) (now : ℕ) (e : Entry) (es : List Entry) (book : Book) (other : ℕ → ℕ)
    {new_number : ℕ}
    → find_entry e.frame_ref es ≡ some e
    → IsExact (λ n. other n + count n (numbers_in kind es)) new_number (tally kind book)
    → IsExact
        (λ n. other n + count n (numbers_in kind (put_entry (refresh now e book).0 es)))
        new_number
        (tally kind (refresh now e book).1)
refresh_in-IsExact kind now e es book other found v =
    let rest : ℕ → ℕ =
      λ n. other n + (count n (numbers_in kind es) - count n (numbers (holds kind e))) in
    IsExact-mono
      (refresh-IsExact kind now e book rest
        (IsExact-mono v (λ n. omega (arith, count-find_entry kind n e.frame_ref e es found))))
      (λ n. omega (
        arith,
        count-find_entry kind n e.frame_ref e es found,
        count-put_entry kind n e (refresh now e book).0 es (refresh-ref now e book) found,
      ))

-- An entry that leaves takes its holds with it, and its memory is no matter of the tallies.
without-IsExact :
    (kind : Kind) (ref : FrameRef) (ring : Ring) (e : Entry) (book : Book) (evictions : ℕ)
    (other : ℕ → ℕ) {new_number : ℕ}
    → IsExact (λ n. other n + count n (numbers_in kind ring.entries)) new_number (tally kind book)
    → IsExact
        (λ n. other n + count n (numbers_in kind (without ref ring).entries))
        new_number
        (tally kind (record (free e book) { evictions = evictions }))
without-IsExact lease ref ring e book evictions other v =
    IsExact-mono v (λ n. omega (arith, count-pop_entry lease n ref ring.entries))
without-IsExact pin ref ring e book evictions other v =
    IsExact-mono v (λ n. omega (arith, count-pop_entry pin n ref ring.entries))

-- The state of a ring and the book, with the tally of a kind exact beside what other rings hold.
abbrev pub Tallied : Kind → (ℕ → ℕ) → ℕ → Ring → Book → Type 0
Tallied kind other new_number ring book =
    IsExact (λ n. other n + count n (numbers_in kind ring.entries)) new_number (tally kind book)

refreshed-Tallied :
    (kind : Kind) (now : ℕ) (ref : FrameRef) (ring : Ring) (e : Entry) (book : Book) (other : ℕ → ℕ)
    (new_number : ℕ)
    → find_entry ref ring.entries ≡ some e
    → Tallied kind other new_number ring book
    → Tallied kind other new_number
        (record ring { entries = put_entry (refresh now e book).0 ring.entries })
        (refresh now e book).1
refreshed-Tallied kind now ref ring e book other new_number found v =
    let own : find_entry e.frame_ref ring.entries ≡ some e =
      ap (λ (r : FrameRef). find_entry r ring.entries) (find_entry-ref ref ring.entries e found)
      ∙ found in
    refresh_in-IsExact kind now e ring.entries book other own v

-- The loop of an eviction keeps the tallies exact, whatever it breaks or frees.
pub evict_from-Tallied :
    (kind : Kind) (now history : ℕ) (may_drop : Bool) (refs : List FrameRef) (ring : Ring)
    (book : Book) (other : ℕ → ℕ) (new_number : ℕ)
    → Tallied kind other new_number ring book
    → let (evicted, after, swept) = evict_from now history may_drop refs ring book in
      Tallied kind other new_number after swept
unfolding evict_from
evict_from-Tallied kind now history may_drop [] ring book other new_number v = v
evict_from-Tallied kind now history may_drop (ref ∷ refs) ring book other new_number v =
    evict_from_cases (λ r. Tallied kind other new_number r.1 r.2) now history may_drop ref refs ring
      book
      (λ missing.
        evict_from-Tallied kind now history may_drop refs
          (record ring { order = remove_ref ref ring.order }) book other new_number v)
      (λ e found.
        let kept = refreshed-Tallied kind now ref ring e book other new_number found v in
        (
          λ goes.
              without-IsExact kind ref
                (record ring { entries = put_entry (refresh now e book).0 ring.entries }) e
                (refresh now e book).1 ((refresh now e book).1.evictions + 1) other kept,
          λ stays.
              evict_from-Tallied kind now history may_drop refs
                (record ring { entries = put_entry (refresh now e book).0 ring.entries })
                (refresh now e book).1 other new_number kept,
        ))

-- So does the loop of a sweep.
pub sweep_from-Tallied :
    (kind : Kind) (now history : ℕ) (refs : List FrameRef) (ring : Ring) (book : Book)
    (other : ℕ → ℕ) (new_number : ℕ)
    → Tallied kind other new_number ring book
    → let (reclaimed, after, swept) = sweep_from now history refs ring book in
      Tallied kind other new_number after swept
unfolding sweep_from
sweep_from-Tallied kind now history [] ring book other new_number v = v
sweep_from-Tallied kind now history (ref ∷ refs) ring book other new_number v =
    sweep_from_cases (λ r. Tallied kind other new_number r.1 r.2) now history ref refs ring book
      (λ missing. sweep_from-Tallied kind now history refs ring book other new_number v)
      (λ e found.
        let kept = refreshed-Tallied kind now ref ring e book other new_number found v in
        (
          λ goes.
              sweep_from-Tallied kind now history refs
                (without ref
                  (record ring { entries = put_entry (refresh now e book).0 ring.entries }))
                (free e (refresh now e book).1) other new_number
                (without-IsExact kind ref
                  (record ring { entries = put_entry (refresh now e book).0 ring.entries }) e
                  (refresh now e book).1 (refresh now e book).1.evictions other kept),
          λ stays.
              sweep_from-Tallied kind now history refs
                (record ring { entries = put_entry (refresh now e book).0 ring.entries })
                (refresh now e book).1 other new_number kept,
        ))
