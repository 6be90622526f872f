-- ===== src/Retention.antt =====
-- app/domain/retention.py: `RetentionService`, with the rows of app/domain/models.py and the audit
-- trail of app/domain/audit.py that it touches. Times are seconds; a stage reads the wall clock
-- once, but erasing and recording an event do so for each row; the readings are arguments, those for a row
-- by its place in the table. The queries flush what was changed before, and give the
-- rows in the order of the table. The file system is a parameter: `unlink` is what removing a file,
-- where there is one, leaves, and whether it went without an `OSError`. The id and the free text
-- `detail` of an audit event are left out.
pub mod Fates
mod Tests
use unityworks_vision_ai_bac.Prelude.{
  ℕ, ◌+◌, ◌*◌, String, Bool, true, false, not, ◌&&◌, leb, str_eq, if◌then◌else◌, List, [], ◌∷◌,
  ◌++◌, Option, none, some, keep_if, length, ◌-◌,
}
use unityworks_vision_ai_bac.Incidents.{Incident, is_resolved}

pub data EvidenceState : Type 0 where
  retained expired deleted : EvidenceState

abbrev pub is_retained : EvidenceState → Bool
is_retained retained = true
is_retained _ = false

abbrev pub is_expired : EvidenceState → Bool
is_expired expired = true
is_expired _ = false

-- Why a row was deleted: the reason that a person gave, or a retention of so many days.
pub data Reason : Type 0 where
  stated : String → Reason
  retention_days : ℕ → Reason

pub record EvidenceRecord : Type 0 where
  pub id : String
  pub organization_id : String
  pub evidence_ref : String
  pub camera_key : String
  pub frame_ref : String
  pub object_id : String
  pub observation_id : String
  pub captured_at : ℕ
  pub created_at : ℕ
  pub purpose : String
  pub geometry : String
  pub state : EvidenceState
  pub expires_at : Option ℕ
  pub storage_ref : String
  pub content_hash : String
  pub size_bytes : ℕ
  pub media_type : String
  pub deleted_at : Option ℕ
  pub deleted_by : Option String
  pub deletion_reason : Option Reason

pub data AuditAction : Type 0 where
  login logout login_failed : AuditAction
  camera_created camera_updated camera_enabled camera_disabled : AuditAction
  incident_created incident_acknowledged incident_resolved : AuditAction
  evidence_read evidence_created evidence_expired evidence_deleted evidence_denied : AuditAction
  policy_changed admin_changed : AuditAction

pub data AuditOutcome : Type 0 where
  success denied failed : AuditOutcome

pub record AuditEvent : Type 0 where
  pub organization_id : String
  pub actor : String
  pub actor_roles : String
  pub action : AuditAction
  pub resource_type : String
  pub resource_id : String
  pub outcome : AuditOutcome
  pub occurred_at : ℕ
  pub request_id : String

-- The event that the sweep records about a piece of evidence.
abbrev pub audit : AuditAction → AuditOutcome → (now : ℕ) → EvidenceRecord → AuditEvent
audit action outcome now r = record {
  organization_id = r.organization_id;
  actor = "retention";
  actor_roles = "";
  action = action;
  resource_type = "evidence";
  resource_id = r.evidence_ref;
  outcome = outcome;
  occurred_at = now;
  request_id = "";
}

-- `instant <= now - days`, where there is an instant.
abbrev pub is_reached : Option ℕ → (days now : ℕ) → Bool
is_reached none days now = false
is_reached (some instant) days now = leb (instant + days * 86400) now

abbrev pub is_due : (now : ℕ) → EvidenceRecord → Bool
is_due now r = is_retained r.state && is_reached r.expires_at 0 now

pub record Expiry : Type 0 where
  pub rows : List EvidenceRecord
  pub expired_count : ℕ
  pub events : List AuditEvent

-- `written` is the time at which the event of a row is flushed.
unfoldable pub expire_evidence :
    (now : ℕ) → (written : ℕ → ℕ) → (place : ℕ) → List EvidenceRecord → Expiry
expire_evidence now written place [] = record { rows = []; expired_count = 0; events = [] }
expire_evidence now written place (r ∷ rows) =
    let rest = expire_evidence now written (place + 1) rows in
    if is_due now r
    then record {
      rows = record r { state = expired } ∷ rest.rows;
      expired_count = rest.expired_count + 1;
      events = audit evidence_expired success (written place) r ∷ rest.events;
    }
    else record rest { rows = r ∷ rest.rows }

-- The row of erased evidence.
abbrev pub tombstone : (now days : ℕ) → EvidenceRecord → EvidenceRecord
tombstone now days r = record r {
  state = deleted;
  deleted_at = some now;
  deleted_by = some "retention";
  deletion_reason = some (retention_days days);
  storage_ref = "";
  size_bytes = 0;
}

abbrev pub is_prunable : (days now : ℕ) → Incident → Bool
is_prunable days now i = is_resolved i.status && is_reached i.resolved_at days now

unfoldable pub prune_incidents : (days now : ℕ) → List Incident → List Incident
prune_incidents days now = keep_if (λ i. not (is_prunable days now i))

unfoldable pub prune_audit : (days now : ℕ) → List AuditEvent → List AuditEvent
prune_audit days now = keep_if (λ e. not (is_reached (some e.occurred_at) days now))

pub record Policy : Type 0 where
  pub evidence_days : ℕ
  pub incident_days : ℕ
  pub audit_days : ℕ

-- The readings of the wall clock by the stages of a sweep.
pub record Clock : Type 0 where
  pub expiring : ℕ
  pub erasing : ℕ → ℕ
  pub recording_expiry : ℕ → ℕ
  pub recording_erasure : ℕ → ℕ
  pub pruning_incidents : ℕ
  pub pruning_audit : ℕ

pub record RetentionReport : Type 0 where
  pub evidence_expired : ℕ
  pub evidence_erased : ℕ
  pub incidents_pruned : ℕ
  pub audit_pruned : ℕ
  pub erase_failures : List String
  pub dry_run : Bool

module _ {Disk : Type 0} (unlink : String → Disk → Disk × Bool) where
  pub record Erasure : Type 0 where
    pub rows : List EvidenceRecord
    pub disk : Disk
    pub erased : ℕ
    pub failures : List String
    pub events : List AuditEvent

  -- The bytes of an expired row are removed; any other row is left alone.
  unfoldable pub erase_bytes : EvidenceRecord → Disk → Disk × Bool
  erase_bytes r disk =
      if is_expired r.state && not (str_eq r.storage_ref "")
      then unlink r.storage_ref disk
      else (disk, true)

  unfoldable pub erase_expired :
      (days : ℕ) → (now written : ℕ → ℕ) → (place : ℕ) → List EvidenceRecord → Disk → Erasure
  erase_expired days now written place [] disk = record {
    rows = [];
    disk = disk;
    erased = 0;
    failures = [];
    events = [];
  }
  erase_expired days now written place (r ∷ rows) disk =
      let (disk', done) = erase_bytes r disk in
      let rest = erase_expired days now written (place + 1) rows disk' in
      if not (is_expired r.state)
      then record rest { rows = r ∷ rest.rows }
      else if done
      then record rest {
        rows = tombstone (now place) days r ∷ rest.rows;
        erased = rest.erased + 1;
        events = audit evidence_deleted success (written place) r ∷ rest.events;
      }
      else record rest {
        rows = r ∷ rest.rows;
        failures = r.evidence_ref ∷ rest.failures;
        events = audit evidence_deleted failed (written place) r ∷ rest.events;
      }

  pub record Database : Type 0 where
    pub evidence : List EvidenceRecord
    pub incidents : List Incident
    pub audit_events : List AuditEvent
    pub store : Disk

  unfoldable pub sweep : Policy → Clock → (erase : Bool) → Database → Database × RetentionReport
  sweep policy clock erase db =
      let expiry = expire_evidence clock.expiring clock.recording_expiry 0 db.evidence in
      let erasure =
        erase_expired policy.evidence_days clock.erasing clock.recording_erasure 0 expiry.rows
          db.store in
      let incidents = prune_incidents policy.incident_days clock.pruning_incidents db.incidents in
      let written = db.audit_events ++ expiry.events ++ erasure.events in
      let events = prune_audit policy.audit_days clock.pruning_audit written in
      if not erase
      then (
        record db { evidence = expiry.rows; audit_events = db.audit_events ++ expiry.events },
        record {
          evidence_expired = expiry.expired_count;
          evidence_erased = 0;
          incidents_pruned = 0;
          audit_pruned = 0;
          erase_failures = [];
          dry_run = true;
        },
      )
      else (
        record {
          evidence = erasure.rows;
          incidents = incidents;
          audit_events = events;
          store = erasure.disk;
        },
        record {
          evidence_expired = expiry.expired_count;
          evidence_erased = erasure.erased;
          incidents_pruned = length db.incidents - length incidents;
          audit_pruned = length written - length events;
          erase_failures = erasure.failures;
          dry_run = false;
        },
      )
