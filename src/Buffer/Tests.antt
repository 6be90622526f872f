-- ===== src/Buffer/Tests.antt =====
-- The frame buffer on concrete frames.
use unityworks_vision_ai_bac.Prelude.{ℕ, ◌≡◌, refl, List, [], ◌∷◌, none, raise}
use unityworks_vision_ai_bac.Buffer.{
  FrameRef, realtime, archival, masked, Ring, evict_from, sweep_from, break_expired_leases,
  expire_pins,
}
use unityworks_vision_ai_bac.Buffer.Calls.{
  pool_exhausted, Config, FrameBuffer, new_buffer, acquire_slot, publish, acquire, release, sweep,
  sweep_rings,
}
use unityworks_vision_ai_bac.Buffer.Counts.{lease, pin as pin_kind}
use unityworks_vision_ai_bac.Buffer.Validity.{IsTallied}
use unityworks_vision_ai_bac.Buffer.Runs.{
  Call, takes_slot, publishes, acquires, perform, run, run-IsTallied,
}
use unityworks_vision_ai_bac.Buffer.Residents.{StaysHeld}
use unityworks_vision_ai_bac.Buffer.Held.{resident, held_stays}

abbrev two_slots : Config
two_slots = record { slots_per_camera = 2; history_window = 100; lease_deadline = 10 }

abbrev frame : ℕ → FrameRef
frame seq = record { camera_id = "cam-1"; stream_epoch = 0; frame_seq = seq }

-- Two frames fill the ring; the first is leased until 15.
abbrev filling : List Call
filling =
    takes_slot 1 70 "cam-1" realtime
    ∷ publishes 1 (record { allocation = 70; camera_id = "cam-1" }) (frame 1) masked
    ∷ takes_slot 2 71 "cam-1" realtime
    ∷ publishes 2 (record { allocation = 71; camera_id = "cam-1" }) (frame 2) masked
    ∷ acquires 5 (frame 1) "detector" none
    ∷ []

abbrev full_ring : Ring
full_ring = record {
  camera_id = "cam-1";
  capacity = 2;
  entries =
      record {
        frame_ref = frame 1;
        allocation = 70;
        published_at = 1;
        leases = record { number = 0; label = "detector"; until = 15 } ∷ [];
        pins = [];
      }
      ∷ record { frame_ref = frame 2; allocation = 71; published_at = 2; leases = []; pins = [] }
      ∷ [];
  order = frame 1 ∷ frame 2 ∷ [];
}

abbrev full_buffer : FrameBuffer
full_buffer = record (new_buffer two_slots) {
  rings = full_ring ∷ [];
  book = record (new_buffer two_slots).book { leases = record { active = 1; out = 0 ∷ [] } };
  new_number = 1;
}

filled : run filling (new_buffer two_slots) ≡ full_buffer
unfolding run perform acquire_slot publish acquire evict_from
filled = refl

-- A realtime producer gets the slot of the second frame, since the first is leased; an archival one is
-- refused while the history window lasts.
evicted_second : (acquire_slot 6 72 "cam-1" realtime full_buffer).0.book.freed ≡ 71 ∷ []
unfolding acquire_slot evict_from break_expired_leases expire_pins
evicted_second = refl

archival_refused : (acquire_slot 6 72 "cam-1" archival full_buffer).1 ≡ raise pool_exhausted
unfolding acquire_slot evict_from break_expired_leases expire_pins
archival_refused = refl

-- Past its deadline the lease is broken, and its release then changes nothing.
lease_broken : (release 0 (sweep 16 full_buffer).0).book.leases.active ≡ 0
unfolding release sweep sweep_rings sweep_from break_expired_leases expire_pins
lease_broken = refl

run-IsTallied_example :
    let b = run filling (new_buffer two_slots) in IsTallied lease b × IsTallied pin_kind b
run-IsTallied_example = run-IsTallied two_slots filling

held_stays_example :
    StaysHeld 6 70 (resident (frame 1) (acquire_slot 6 72 "cam-1" realtime full_buffer).0)
    × StaysHeld 6 70 (resident (frame 1) (sweep 6 full_buffer).0)
held_stays_example = held_stays 6 72 70 "cam-1" realtime (frame 1) full_buffer (refl, refl)
