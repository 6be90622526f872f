-- ===== src/Retention/Tests.antt =====
-- The retention sweep on concrete rows, with a directory as the file system, in which one file is
-- locked.
use unityworks_vision_ai_bac.Prelude.{
  ℕ, ◌+◌, ◌≡◌, refl, String, Bool, true, false, not, any, keep_if, str_eq, if◌then◌else◌, List, [],
  ◌∷◌, none, some,
}
use unityworks_vision_ai_bac.Retention.{
  EvidenceRecord, retained, Policy, Clock, Database, sweep, erase_expired, expire_evidence,
  erase_bytes,
}
use unityworks_vision_ai_bac.Retention.Fates.{Fates}

abbrev has_file : String → List String → Bool
has_file path disk = any (λ file. str_eq file path) disk

abbrev without : String → List String → List String
without path disk = keep_if (λ file. not (str_eq file path)) disk

abbrev unlink : String → List String → List String × Bool
unlink path disk = if str_eq path "locked" then (disk, false) else (without path disk, true)

abbrev evidence : (name file : String) → (expires : ℕ) → EvidenceRecord
evidence name file expires = record {
  id = name;
  organization_id = "o";
  evidence_ref = name;
  camera_key = "c1";
  frame_ref = "";
  object_id = "p";
  observation_id = "";
  captured_at = 1;
  created_at = 2;
  purpose = "alert";
  geometry = "";
  state = retained;
  expires_at = some expires;
  storage_ref = file;
  content_hash = "h";
  size_bytes = 9;
  media_type = "image/jpeg";
  deleted_at = none;
  deleted_by = none;
  deletion_reason = none;
}

abbrev three_rows : Database unlink
three_rows = record {
  evidence =
      evidence "ev-1" "a.jpg" 10 ∷ evidence "ev-2" "locked" 20 ∷ evidence "ev-3" "c.jpg" 900 ∷ [];
  incidents = [];
  audit_events = [];
  store = "a.jpg" ∷ "locked" ∷ "c.jpg" ∷ [];
}

abbrev policy : Policy
policy = record { evidence_days = 1; incident_days = 2; audit_days = 3 }

abbrev clock : Clock
clock = record {
  expiring = 100;
  erasing = λ place. 101 + place;
  recording_expiry = λ place. 101;
  recording_erasure = λ place. 105;
  pruning_incidents = 106;
  pruning_audit = 107;
}

-- One sweep both expires and erases.
erased_at_once : (sweep unlink policy clock true three_rows).0.store ≡ "locked" ∷ "c.jpg" ∷ []
unfolding sweep erase_expired expire_evidence erase_bytes
erased_at_once = refl

failure_reported : (sweep unlink policy clock true three_rows).1.erase_failures ≡ "ev-2" ∷ []
unfolding sweep erase_expired expire_evidence erase_bytes
failure_reported = refl

marked_only : (sweep unlink policy clock false three_rows).0.store ≡ three_rows.store
unfolding sweep erase_expired expire_evidence erase_bytes
marked_only = refl
