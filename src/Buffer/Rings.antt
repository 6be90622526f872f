-- ===== src/Buffer/Rings.antt =====
-- vision_os/acquisition/buffer/buffer.py: the tallies over the rings of all cameras.
use unityworks_vision_ai_bac.Prelude.{
  ℕ, ◌+◌, ◌-◌, ◌≤◌, ◌≡◌, refl, ◌∙◌, String, Bool, count, count-append, List, [], ◌∷◌, Option, none,
  some, arith,
}
use unityworks_vision_ai_bac.Buffer.{
  FrameRef, Entry, Ring, new_ring, Tally, Book, find_entry, put_entry, pop_entry, remove_ref,
  refresh, evict_from, sweep_from,
}
use unityworks_vision_ai_bac.Buffer.Calls.{
  ring_or, put_ring, free_found, free_refs, free_ring, sweep_rings,
}
use unityworks_vision_ai_bac.Buffer.Cases.{evict_from_cases}
use unityworks_vision_ai_bac.Buffer.Counts.{
  Kind, lease, pin, tally, numbers_in, numbers_of_rings, IsExact, IsExact-mono,
}
use unityworks_vision_ai_bac.Buffer.Upkeep.{Tallied, sweep_from-Tallied}

pub evict_from-camera :
    (now history : ℕ) (may_drop : Bool) (refs : List FrameRef) (ring : Ring) (book : Book)
    → let (evicted, after, swept) = evict_from now history may_drop refs ring book in
      (after.camera_id ≡ ring.camera_id) × (after.capacity ≡ ring.capacity)
unfolding evict_from
evict_from-camera now history may_drop [] ring book = (refl, refl)
evict_from-camera now history may_drop (ref ∷ refs) ring book =
    evict_from_cases (λ r. (r.1.camera_id ≡ ring.camera_id) × (r.1.capacity ≡ ring.capacity)) now
      history may_drop ref refs ring book
      (λ missing.
        evict_from-camera now history may_drop refs
          (record ring { order = remove_ref ref ring.order }) book)
      (λ e found. (
        λ goes. (refl, refl),
        λ stays.
            evict_from-camera now history may_drop refs
              (record ring { entries = put_entry (refresh now e book).0 ring.entries })
              (refresh now e book).1,
      ))

-- Writing a ring back exchanges its holds for the new ones.
count-put_ring :
    (kind : Kind) (n : ℕ) (fresh new : Ring) (rings : List Ring)
    → fresh.entries ≡ []
    → new.camera_id ≡ fresh.camera_id
    → count n (numbers_of_rings kind (put_ring new rings))
        + count n (numbers_in kind (ring_or fresh rings).entries)
      ≡ count n (numbers_of_rings kind rings) + count n (numbers_in kind new.entries)
count-put_ring kind n fresh new [] empty same =
    rw empty (omega (arith, count-append n (numbers_in kind new.entries) []))
count-put_ring kind n fresh new (r ∷ rings) empty same = ground (
  arith,
  count-put_ring kind n fresh new rings,
  count-append n (numbers_in kind r.entries) (numbers_of_rings kind rings),
  count-append n (numbers_in kind new.entries) (numbers_of_rings kind rings),
  count-append n (numbers_in kind r.entries) (numbers_of_rings kind (put_ring new rings)),
)

count-ring_or :
    (kind : Kind) (n : ℕ) (fresh : Ring) (rings : List Ring)
    → fresh.entries ≡ []
    → count n (numbers_in kind (ring_or fresh rings).entries)
      ≤ count n (numbers_of_rings kind rings)
count-ring_or kind n fresh [] empty = rw empty (omega arith)
count-ring_or kind n fresh (r ∷ rings) empty = ground (
  arith,
  count-ring_or kind n fresh rings,
  count-append n (numbers_in kind r.entries) (numbers_of_rings kind rings),
)

-- What the other rings hold.
abbrev pub others : Kind → String → (slots : ℕ) → List Ring → ℕ → ℕ
others kind camera_id slots rings n =
    count n (numbers_of_rings kind rings)
    - count n (numbers_in kind (ring_or (new_ring camera_id slots) rings).entries)

-- To work on the ring of one camera, and to write it back.
pub take_ring-Tallied :
    (kind : Kind) (camera_id : String) (slots : ℕ) (rings : List Ring) (book : Book)
    {new_number : ℕ}
    → IsExact (λ n. count n (numbers_of_rings kind rings)) new_number (tally kind book)
    → Tallied kind
        (others kind camera_id slots rings)
        new_number
        (ring_or (new_ring camera_id slots) rings)
        book
take_ring-Tallied kind camera_id slots rings book v =
    IsExact-mono v (λ n. omega (arith, count-ring_or kind n (new_ring camera_id slots) rings refl))

pub put_ring-IsExact :
    (kind : Kind) (slots : ℕ) (ring : Ring) (rings : List Ring) (camera_id : String) (t : Tally)
    {new_number : ℕ}
    → ring.camera_id ≡ camera_id
    → IsExact
        (λ n. others kind camera_id slots rings n + count n (numbers_in kind ring.entries))
        new_number
        t
    → IsExact (λ n. count n (numbers_of_rings kind (put_ring ring rings))) new_number t
put_ring-IsExact kind slots ring rings camera_id t same v = IsExact-mono v (λ n. omega (
  arith,
  count-ring_or kind n (new_ring camera_id slots) rings refl,
  count-put_ring kind n (new_ring camera_id slots) ring rings refl same,
))

-- Without a ring, the others hold no more than before; and freeing is no matter of the tallies.
free_refs-tally :
    (kind : Kind) (refs : List FrameRef) (entries : List Entry) (book : Book)
    → tally kind (free_refs refs entries book) ≡ tally kind book
free_refs-tally kind [] entries book = refl
free_refs-tally kind (ref ∷ refs) entries book =
    free_refs-tally kind refs (pop_entry ref entries) (free_found (find_entry ref entries) book)
    ∙ tally-free_found kind (find_entry ref entries)
  where
    tally-free_found :
        (k : Kind) (found : Option Entry) → tally k (free_found found book) ≡ tally k book
    tally-free_found lease none = refl
    tally-free_found lease (some e) = refl
    tally-free_found pin none = refl
    tally-free_found pin (some e) = refl

pub free_ring-IsExact :
    (kind : Kind) (camera_id : String) (rings : List Ring) (book : Book)
    → (tally kind (free_ring camera_id rings book).1 ≡ tally kind book)
      × ((n : ℕ)
          → count n (numbers_of_rings kind (free_ring camera_id rings book).0)
            ≤ count n (numbers_of_rings kind rings))
free_ring-IsExact kind camera_id [] book = (refl, λ n. omega arith)
free_ring-IsExact kind camera_id (r ∷ rings) book = (
  ground (
    arith,
    (free_ring-IsExact kind camera_id rings book).0,
    free_refs-tally kind r.order r.entries book,
  ),
  λ n. ground (
    arith,
    (free_ring-IsExact kind camera_id rings book).1 n,
    count-append n (numbers_in kind r.entries) (numbers_of_rings kind rings),
    count-append n (numbers_in kind r.entries)
        (numbers_of_rings kind (free_ring camera_id rings book).0),
  ),
)

-- A sweep, ring by ring.
pub sweep_rings-IsExact :
    (kind : Kind) (now history : ℕ) (rings : List Ring) (book : Book) (other : ℕ → ℕ)
    (new_number : ℕ)
    → IsExact (λ n. other n + count n (numbers_of_rings kind rings)) new_number (tally kind book)
    → let (reclaimed, after, swept) = sweep_rings now history rings book in
      IsExact (λ n. other n + count n (numbers_of_rings kind after)) new_number (tally kind swept)
unfolding sweep_rings
sweep_rings-IsExact kind now history [] book other new_number v = v
sweep_rings-IsExact kind now history (ring ∷ rings) book other new_number v =
    let (reclaimed, after, swept) = sweep_from now history ring.order ring book in
    let here : Tallied kind (λ n. other n + count n (numbers_of_rings kind rings)) new_number after
        swept =
      sweep_from-Tallied kind now history ring.order ring book
        (λ n. other n + count n (numbers_of_rings kind rings)) new_number
        (IsExact-mono v (λ n.
          omega (
            arith,
            count-append n (numbers_in kind ring.entries) (numbers_of_rings kind rings),
          ))) in
    IsExact-mono
      (sweep_rings-IsExact kind now history rings swept
        (λ n. other n + count n (numbers_in kind after.entries)) new_number
        (IsExact-mono here (λ n. omega arith)))
      (λ n. omega (
        arith,
        count-append n (numbers_in kind after.entries)
            (numbers_of_rings kind (sweep_rings now history rings swept).1),
      ))
