-- ===== src/Buffer/Slots.antt =====
-- vision_os/acquisition/buffer/buffer.py: `acquire_slot`, on every branch.
use unityworks_vision_ai_bac.Prelude.{
  ℕ, ◌+◌, ◌≡◌, String, Bool, true, false, ◌∷◌, Option, none, some, Result, ok, raise,
}
use unityworks_vision_ai_bac.Buffer.{Entry, remove_ref}
use unityworks_vision_ai_bac.Buffer.Calls.{Error, pool_exhausted, FrameBuffer, Slot, ring_of}

-- What taking a slot does: to a ring with room, to a full one that nothing may leave, and to a full one
-- that an entry may leave.
pub record Untouched (camera_id : String) (before after : FrameBuffer) : Type 0 where
  pub kept : (ring_of camera_id after).order ≡ (ring_of camera_id before).order
  pub same_book : after.book ≡ before.book

pub record Refused (camera_id : String) (before after : FrameBuffer) : Type 0 where
  pub kept : (ring_of camera_id after).order ≡ (ring_of camera_id before).order
  pub returned : after.book.freed ≡ before.book.freed
  pub evicted : after.book.evictions ≡ before.book.evictions
  pub exhausted : after.book.pool_exhaustions ≡ before.book.pool_exhaustions + 1

pub record MadeRoom (e : Entry) (camera_id : String) (before after : FrameBuffer) : Type 0 where
  pub gone :
      (ring_of camera_id after).order ≡ remove_ref e.frame_ref (ring_of camera_id before).order
  pub returned : after.book.freed ≡ e.allocation ∷ before.book.freed
  pub evicted : after.book.evictions ≡ before.book.evictions + 1
  pub exhausted : after.book.pool_exhaustions ≡ before.book.pool_exhaustions

abbrev pub Outcome :
    Bool → Option Entry → Slot → FrameBuffer → FrameBuffer × Result Error Slot → Type 0
Outcome false found slot before (after, result) =
    (result ≡ ok slot) × Untouched slot.camera_id before after
Outcome true none slot before (after, result) =
    (result ≡ raise pool_exhausted) × Refused slot.camera_id before after
Outcome true (some e) slot before (after, result) =
    (result ≡ ok slot) × MadeRoom e slot.camera_id before after

abbrev pub slot_for : ℕ → String → Slot
slot_for allocation camera_id = record { allocation = allocation; camera_id = camera_id }
