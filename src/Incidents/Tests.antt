-- ===== src/Incidents/Tests.antt =====
-- Runs of the incident service, and the theorems at concrete inputs.
use unityworks_vision_ai_bac.Prelude.{
  String, ◌≡◌, refl, ◌⊎◌, Bool, true, false, str_eq, List, [], ◌∷◌, none, some, ok, any, Returns,
  length,
}
use unityworks_vision_ai_bac.Incidents.{
  Incident, is_resolved, Subject, Report, resolved, open_incident, get, acknowledge, resolve,
  resolve_by_observation, clip_note, is_open_for, new_incident,
}
use unityworks_vision_ai_bac.Incidents.Rows.{Extends, OpenUnique}
use unityworks_vision_ai_bac.Incidents.Calls.{
  Call, open_call, acknowledge_call, resolve_call, observe_call, run, perform, run-Moves,
}
use unityworks_vision_ai_bac.Incidents.Answers.{resolve-reason, observation-closes}
use unityworks_vision_ai_bac.Incidents.Repeats.{Repeats}

abbrev at_stove : Subject
at_stove = record { organization_id = "o"; camera_key = "c1"; object_id = "p"; rule_id = "R1" }

abbrev no_hairnet : Report
no_hairnet = record {
  subject = at_stove;
  observed_at = 5;
  severity = "high";
  summary = "no hairnet";
  ruleset_version = "1.0.0";
  finding = "{}";
  restaurant_id = none;
  zone_id = none;
  track_id = "t";
  evidence_refs = "e1" ∷ [];
}

abbrev is_blank : String → Bool
is_blank s = str_eq s ""

abbrev first_row : Incident
first_row = new_incident "i1" 7 no_hairnet

abbrev later_report : Report
later_report = record no_hairnet { observed_at = 9; evidence_refs = "e2" ∷ [] }

abbrev shift : List Call
shift =
    open_call "i1" 7 no_hairnet
    ∷ open_call "i2" 8 later_report
    ∷ acknowledge_call 9 "o" "i1" "ann"
    ∷ resolve_call 10 "o" "i1" "ann" "operator" "done"
    ∷ open_call "i3" 11 no_hairnet
    ∷ observe_call 12 at_stove
    ∷ []

shift_rows : length (run is_blank shift []) ≡ 2
unfolding run perform open_incident acknowledge resolve resolve_by_observation get clip_note
shift_rows = refl

run-Moves_example : Extends [] (run is_blank shift []) × OpenUnique (run is_blank shift [])
run-Moves_example = run-Moves is_blank shift [] tt

abbrev resolved_row : Incident
resolved_row = record first_row {
  status = resolved;
  resolved_at = some 9;
  resolved_by = some "ann";
  resolution_kind = some "operator";
  resolution_note = some "done";
}

resolve_run :
    resolve is_blank 9 "o" "i1" "ann" "operator" "done" (first_row ∷ [])
    ≡ ok (resolved_row ∷ [], resolved_row)
unfolding resolve get clip_note
resolve_run = refl

abbrev by_operator : String
by_operator = "operator"

abbrev by_observation : String
by_observation = "observation"

resolve-reason_example :
    (is_resolved resolved_row.status ≡ true)
    × ((by_operator ≡ by_observation) ⊎ ((by_operator ≡ by_operator) × (is_blank "done" ≡ false)))
resolve-reason_example =
    resolve-reason is_blank 9 "o" "i1" "ann" "operator" "done" (first_row ∷ [])
      (resolved_row ∷ [], resolved_row) resolve_run

observation-closes_example :
    Returns
      (resolve_by_observation is_blank 9 at_stove (first_row ∷ []))
      (λ out. any (is_open_for at_stove) out.0 ≡ false)
observation-closes_example =
    observation-closes is_blank 9 at_stove (first_row ∷ []) (refl, tt) (refl, tt)
