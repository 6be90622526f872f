-- ===== src/Buffer/Residents.antt =====
-- vision_os/acquisition/buffer/buffer.py: a frame under a lease or pin whose time is not over stays.
use mathlib.Core.Path.{subst}
use unityworks_vision_ai_bac.Prelude.{
  ℕ, ◌≡◌, refl, sym, ap, ◌∙◌, Bool, true, false, not, ◌&&◌, ltb, if◌then◌else◌, Bool-cases, inl,
  inr, all, is_empty, List, [], ◌∷◌, Option, none, some, arith,
}
use unityworks_vision_ai_bac.Buffer.{
  FrameRef, same_ref, Hold, Entry, Ring, Tally, Book, take_back, find_entry, put_entry, pop_entry,
  remove_ref, lapse, break_expired_leases, expire_pins, refresh, free, without, reclaimable,
  evict_from, sweep_from,
}
use unityworks_vision_ai_bac.Buffer.Cases.{evict_from_cases, sweep_from_cases}
use unityworks_vision_ai_bac.Buffer.Upkeep.{same_ref-eq, find_entry-ref, refresh-ref}

-- The time of every hold is over.
abbrev pub over : (now : ℕ) → List Hold → Bool
over now hs = all (λ h. ltb h.until now) hs

-- Some lease or pin of the frame runs on.
abbrev pub is_held : (now : ℕ) → Entry → Bool
is_held now e = not (over now e.leases && over now e.pins)

pub lapse-over :
    (now : ℕ) (hs : List Hold) (t : Tally)
    → (is_empty (lapse now hs t).0 ≡ over now hs) × (over now (lapse now hs t).0 ≡ over now hs)
lapse-over now [] t = (refl, refl)
lapse-over now (h ∷ hs) t = elim (Bool-cases (ltb h.until now)) [
  | inl past ↦ ground (arith, lapse-over now hs (take_back h.number t))
  | inr runs ↦ ground (arith, lapse-over now hs t)
]

-- Bringing an entry up to date changes neither whether it is held nor its memory; and it may be
-- reclaimed exactly if it is not held.
pub refresh_held :
    (now : ℕ) (e : Entry) (book : Book)
    → let e' = (refresh now e book).0 in
      (is_held now e' ≡ is_held now e)
      × (reclaimable e' ≡ not (is_held now e))
      × (e'.allocation ≡ e.allocation)
      × (e'.published_at ≡ e.published_at)
unfolding break_expired_leases expire_pins
refresh_held now e book =
    ground (arith, lapse-over now e.leases book.leases, lapse-over now e.pins book.pins)

pub find_entry-put_entry :
    (ref : FrameRef) (e : Entry) (es : List Entry)
    → find_entry ref (put_entry e es)
      ≡ (if same_ref e.frame_ref ref then some e else find_entry ref es)
find_entry-put_entry ref e [] = refl
find_entry-put_entry ref e (x ∷ es) = elim (Bool-cases (same_ref x.frame_ref e.frame_ref)) [
  | inl same ↦
      let twin : x.frame_ref ≡ e.frame_ref = same_ref-eq x.frame_ref e.frame_ref same in
      ground (arith, ap (λ (r : FrameRef). same_ref r ref) twin)
  | inr apart ↦ elim (Bool-cases (same_ref e.frame_ref ref)) [
    | inl here ↦
        let target : e.frame_ref ≡ ref = same_ref-eq e.frame_ref ref here in
        ground (
          arith,
          find_entry-put_entry ref e es,
          ap (λ (r : FrameRef). same_ref x.frame_ref r) target,
        )
    | inr there ↦ ground (arith, find_entry-put_entry ref e es)
  ]
]

pub find_entry-pop_entry :
    (ref gone : FrameRef) (es : List Entry)
    → same_ref gone ref ≡ false
    → find_entry ref (pop_entry gone es) ≡ find_entry ref es
find_entry-pop_entry ref gone [] apart = refl
find_entry-pop_entry ref gone (x ∷ es) apart = elim (Bool-cases (same_ref x.frame_ref gone)) [
  | inl same ↦
      let twin : x.frame_ref ≡ gone = same_ref-eq x.frame_ref gone same in
      ground (arith, ap (λ (r : FrameRef). same_ref r ref) twin)
  | inr other ↦ ground (arith, find_entry-pop_entry ref gone es apart)
]

-- The frame `ref` is resident in its memory, and held.
abbrev pub StaysHeld : (now allocation : ℕ) → Option Entry → Type 0
StaysHeld now allocation none = ⊥
StaysHeld now allocation (some e) = (e.allocation ≡ allocation) × (is_held now e ≡ true)

refreshed_stays :
    (now allocation : ℕ) (ref other : FrameRef) (ring : Ring) (e : Entry) (book : Book)
    → find_entry other ring.entries ≡ some e
    → StaysHeld now allocation (find_entry ref ring.entries)
    → StaysHeld now allocation (find_entry ref (put_entry (refresh now e book).0 ring.entries))
refreshed_stays now allocation ref other ring e book found stays =
    elim (Bool-cases (same_ref (refresh now e book).0.frame_ref ref)) [
      | inl same ↦
          rw (find_entry-put_entry ref (refresh now e book).0 ring.entries, same)
            (refreshed (held_itself same))
      | inr apart ↦ rw (find_entry-put_entry ref (refresh now e book).0 ring.entries, apart) stays
    ]
  where
    itself :
        same_ref (refresh now e book).0.frame_ref ref ≡ true → find_entry ref ring.entries ≡ some e
    itself same =
        let target : other ≡ ref =
          sym (find_entry-ref other ring.entries e found)
          ∙ sym (refresh-ref now e book)
          ∙ same_ref-eq (refresh now e book).0.frame_ref ref same in
        ap (λ (r : FrameRef). find_entry r ring.entries) (sym target) ∙ found

    held_itself :
        same_ref (refresh now e book).0.frame_ref ref ≡ true → StaysHeld now allocation (some e)
    held_itself same = subst (StaysHeld now allocation) (itself same) stays

    refreshed :
        StaysHeld now allocation (some e) → StaysHeld now allocation (some (refresh now e book).0)
    refreshed (memory, held) =
        let (still, may_go, kept, dated) = refresh_held now e book in (kept ∙ memory, still ∙ held)

without_stays :
    (now allocation : ℕ) (ref gone : FrameRef) (ring : Ring) (e : Entry) (book : Book)
    → find_entry gone ring.entries ≡ some e
    → reclaimable (refresh now e book).0 ≡ true
    → StaysHeld now allocation (find_entry ref ring.entries)
    → StaysHeld now allocation
        (find_entry ref (pop_entry gone (put_entry (refresh now e book).0 ring.entries)))
without_stays now allocation ref gone ring e book found goes stays =
    elim (Bool-cases (same_ref gone ref)) [
      | inr apart ↦
          rw (find_entry-pop_entry ref gone (put_entry (refresh now e book).0 ring.entries) apart)
            (refreshed_stays now allocation ref gone ring e book found stays)
      | inl same ↦
          let held : StaysHeld now allocation (some e) =
            subst (StaysHeld now allocation)
              (ap (λ (r : FrameRef). find_entry r ring.entries) (sym (same_ref-eq gone ref same))
                ∙ found)
              stays in
          let (still, may_go, kept, dated) = refresh_held now e book in
          absurd (ground (arith, held.1, may_go))
    ]

-- Neither loop takes a held frame.
pub evict_from_stays :
    (now history : ℕ) (may_drop : Bool) (refs : List FrameRef) (ring : Ring) (book : Book)
    (allocation : ℕ) (ref : FrameRef)
    → StaysHeld now allocation (find_entry ref ring.entries)
    → StaysHeld now allocation
        (find_entry ref (evict_from now history may_drop refs ring book).1.entries)
unfolding evict_from
evict_from_stays now history may_drop [] ring book allocation ref stays = stays
evict_from_stays now history may_drop (gone ∷ refs) ring book allocation ref stays =
    evict_from_cases (λ r. StaysHeld now allocation (find_entry ref r.1.entries)) now history
      may_drop gone refs ring book
      (λ missing.
        evict_from_stays now history may_drop refs
          (record ring { order = remove_ref gone ring.order }) book allocation ref stays)
      (λ e found. (
        λ goes.
            without_stays now allocation ref gone ring e book found (ground (arith, goes)) stays,
        λ blocked.
            evict_from_stays now history may_drop refs
              (record ring { entries = put_entry (refresh now e book).0 ring.entries })
              (refresh now e book).1 allocation ref
              (refreshed_stays now allocation ref gone ring e book found stays),
      ))

pub sweep_from_stays :
    (now history : ℕ) (refs : List FrameRef) (ring : Ring) (book : Book) (allocation : ℕ)
    (ref : FrameRef)
    → StaysHeld now allocation (find_entry ref ring.entries)
    → StaysHeld now allocation (find_entry ref (sweep_from now history refs ring book).1.entries)
unfolding sweep_from
sweep_from_stays now history [] ring book allocation ref stays = stays
sweep_from_stays now history (gone ∷ refs) ring book allocation ref stays =
    sweep_from_cases (λ r. StaysHeld now allocation (find_entry ref r.1.entries)) now history gone
      refs ring book (λ missing. sweep_from_stays now history refs ring book allocation ref stays)
      (λ e found. (
        λ goes.
            sweep_from_stays now history refs
              (without gone
                (record ring { entries = put_entry (refresh now e book).0 ring.entries }))
              (free e (refresh now e book).1) allocation ref
              (without_stays now allocation ref gone ring e book found (ground (arith, goes))
                stays),
        λ blocked.
            sweep_from_stays now history refs
              (record ring { entries = put_entry (refresh now e book).0 ring.entries })
              (refresh now e book).1 allocation ref
              (refreshed_stays now allocation ref gone ring e book found stays),
      ))
