-- ===== src/Incidents/Repeats.antt =====
-- What a repeated report is answered (app/domain/incidents.py, `open`).
use unityworks_vision_ai_bac.Prelude.{◌≤◌, ◌≡◌, Bool, true, false, length, List}
use unityworks_vision_ai_bac.Incidents.{Incident, Report, is_open_for}

-- The answer to a report is an incident that was open already, for the same subject.
abbrev pub Repeats : Report → List Incident → List Incident × Incident × Bool → Type 0
Repeats r rows out =
    (out.2 ≡ false)
    × (length out.0 ≡ length rows)
    × (is_open_for r.subject out.1 ≡ true)
    × (r.observed_at ≤ out.1.observed_at)
