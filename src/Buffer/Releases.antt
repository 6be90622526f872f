-- ===== src/Buffer/Releases.antt =====
-- vision_os/acquisition/buffer/buffer.py: what a release or an unpin leaves standing in the entries.
use unityworks_vision_ai_bac.Prelude.{
  ℕ, ◌-◌, ◌≤◌, ◌≡◌, refl, ◌==◌, if◌then◌else◌, count, count-append, List, [], ◌∷◌, map, arith,
}
use unityworks_vision_ai_bac.Buffer.{Hold, Entry, Ring, put_entry}
use unityworks_vision_ai_bac.Buffer.Calls.{
  without_hold, release_entry, unpin_entry, release_in, unpin_in,
}
use unityworks_vision_ai_bac.Buffer.Counts.{
  Kind, lease, pin, holds, numbers, numbers_in, numbers_of_rings,
}

count-without_hold :
    (number n : ℕ) (hs : List Hold)
    → count n (numbers (without_hold number hs))
      ≡ count n (numbers hs) - (if number == n then 1 else 0)
count-without_hold number n [] = ground arith
count-without_hold number n (h ∷ hs) = ground (arith, count-without_hold number n hs)

-- What ends a hold of a kind in an entry, and in a ring.
abbrev pub end_hold : Kind → ℕ → Entry → Entry
end_hold lease = release_entry
end_hold pin = unpin_entry

abbrev pub end_in : Kind → ℕ → Ring → Ring
end_in lease = release_in
end_in pin = unpin_in

-- A hold that is ended stands nowhere once where it stood once, and no other hold is ended.
count-end_hold :
    (kind ended : Kind) (number n : ℕ) (e : Entry)
    → count n (numbers (holds kind (end_hold ended number e))) ≤ count n (numbers (holds kind e))
count-end_hold lease lease number n e = ground (arith, count-without_hold number n e.leases)
count-end_hold lease pin number n e = omega arith
count-end_hold pin lease number n e = omega arith
count-end_hold pin pin number n e = ground (arith, count-without_hold number n e.pins)

count-end_hold_same :
    (kind : Kind) (number n : ℕ) (e : Entry)
    → count n (numbers (holds kind (end_hold kind number e)))
      ≡ count n (numbers (holds kind e)) - (if number == n then 1 else 0)
count-end_hold_same lease number n e = count-without_hold number n e.leases
count-end_hold_same pin number n e = count-without_hold number n e.pins

count-end_entries :
    (kind ended : Kind) (number n : ℕ) (es : List Entry)
    → (count n (numbers_in kind (map (end_hold ended number) es)) ≤ count n (numbers_in kind es))
      × (count n (numbers_in kind (map (end_hold kind number) es))
          ≤ count n (numbers_in kind es) - (if number == n then 1 else 0))
count-end_entries kind ended number n [] = (omega arith, omega arith)
count-end_entries kind ended number n (e ∷ es) = ground (
  arith,
  count-end_entries kind ended number n es,
  count-end_hold kind ended number n e,
  count-end_hold_same kind number n e,
  count-append n (numbers (holds kind e)) (numbers_in kind es),
  count-append n (numbers (holds kind (end_hold ended number e)))
      (numbers_in kind (map (end_hold ended number) es)),
  count-append n (numbers (holds kind (end_hold kind number e)))
      (numbers_in kind (map (end_hold kind number) es)),
)

entries-end_in :
    (ended : Kind) (number : ℕ) (ring : Ring)
    → (end_in ended number ring).entries ≡ map (end_hold ended number) ring.entries
entries-end_in lease number ring = refl
entries-end_in pin number ring = refl

pub count-end_rings :
    (kind ended : Kind) (number n : ℕ) (rings : List Ring)
    → (count n (numbers_of_rings kind (map (end_in ended number) rings))
        ≤ count n (numbers_of_rings kind rings))
      × (count n (numbers_of_rings kind (map (end_in kind number) rings))
          ≤ count n (numbers_of_rings kind rings) - (if number == n then 1 else 0))
count-end_rings kind ended number n [] = (omega arith, omega arith)
count-end_rings kind ended number n (r ∷ rings) = ground (
  arith,
  count-end_rings kind ended number n rings,
  count-end_entries kind ended number n r.entries,
  entries-end_in ended number r,
  entries-end_in kind number r,
  count-append n (numbers_in kind r.entries) (numbers_of_rings kind rings),
  count-append n (numbers_in kind (end_in ended number r).entries)
      (numbers_of_rings kind (map (end_in ended number) rings)),
  count-append n (numbers_in kind (end_in kind number r).entries)
      (numbers_of_rings kind (map (end_in kind number) rings)),
)

-- Writing an entry with more holds, or with none.
pub count-put_new :
    (kind : Kind) (n : ℕ) (e : Entry) (es : List Entry)
    → holds kind e ≡ []
    → count n (numbers_in kind (put_entry e es)) ≤ count n (numbers_in kind es)
count-put_new kind n e [] h = ground arith
count-put_new kind n e (x ∷ es) h = ground (
  arith,
  count-put_new kind n e es h,
  count-append n (numbers (holds kind x)) (numbers_in kind es),
  count-append n (numbers (holds kind e)) (numbers_in kind es),
  count-append n (numbers (holds kind x)) (numbers_in kind (put_entry e es)),
)
