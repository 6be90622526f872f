-- ===== src/Incidents/Calls.antt =====
-- Any run of calls of the incident service (app/domain/incidents.py).
use unityworks_vision_ai_bac.Prelude.{ℕ, ◌≡◌, refl, String, Bool, List, [], ◌∷◌, Result, ok, raise}
use unityworks_vision_ai_bac.Incidents.{
  Incident, Subject, Report, Error, open_incident, acknowledge, resolve, resolve_by_observation,
}
use unityworks_vision_ai_bac.Incidents.Rows.{Extends, Extends-refl, Extends-trans, OpenUnique}
use unityworks_vision_ai_bac.Incidents.Steps.{
  Moves, open_incident-Moves, acknowledge-Moves, resolve-Moves, observe-Moves,
}

-- The calls that change the table; one that raises changes nothing.
pub data Call : Type 0 where
  open_call : (id : String) → (now : ℕ) → Report → Call
  acknowledge_call : (now : ℕ) → (organization_id incident_id actor : String) → Call
  resolve_call : (now : ℕ) → (organization_id incident_id actor kind note : String) → Call
  observe_call : (now : ℕ) → Subject → Call

abbrev pub rows_of {ℓ} :
    {A : Type ℓ} → List Incident → Result Error (List Incident × A) → List Incident
rows_of rows (ok out) = out.0
rows_of rows (raise e) = rows

raised-Moves {ℓ} :
    {A : Type ℓ} (rows : List Incident) (r : Result Error (List Incident × A))
    → OpenUnique rows
    → ((out : List Incident × A) → r ≡ ok out → Moves rows out.0)
    → Moves rows (rows_of rows r)
raised-Moves rows (ok out) u h = h out refl
raised-Moves rows (raise e) u h = (Extends-refl rows, u)

module _ (is_blank : String → Bool) where
  unfoldable pub perform : Call → List Incident → List Incident
  unfolding open_incident acknowledge resolve resolve_by_observation
  perform (open_call id now r) rows = (open_incident id now r rows).0
  perform (acknowledge_call now org id actor) rows =
      rows_of rows (acknowledge now org id actor rows)
  perform (resolve_call now org id actor kind note) rows =
      rows_of rows (resolve is_blank now org id actor kind note rows)
  perform (observe_call now s) rows = rows_of rows (resolve_by_observation is_blank now s rows)

  unfoldable pub run : List Call → List Incident → List Incident
  unfolding perform
  run [] rows = rows
  run (c ∷ calls) rows = run calls (perform c rows)

  perform-Moves : (c : Call) (rows : List Incident) → OpenUnique rows → Moves rows (perform c rows)
  unfolding perform
  perform-Moves (open_call id now r) rows u = open_incident-Moves id now r rows u
  perform-Moves (acknowledge_call now org id actor) rows u =
      raised-Moves rows (acknowledge now org id actor rows) u
        (λ out h. acknowledge-Moves now org id actor rows out h u)
  perform-Moves (resolve_call now org id actor kind note) rows u =
      raised-Moves rows (resolve is_blank now org id actor kind note rows) u
        (λ out h. resolve-Moves is_blank now org id actor kind note rows out h u)
  perform-Moves (observe_call now s) rows u =
      raised-Moves rows (resolve_by_observation is_blank now s rows) u
        (λ out h. observe-Moves is_blank now s rows out h u)

  -- From a table with at most one open incident for each subject, any calls keep it so, and every
  -- incident stays in the table as a later version of itself: with its id, its subject, its frozen
  -- snapshot and rule set version, a clock and a status that do not go back, and untouched once it is
  -- resolved.
  pub run-Moves :
      (calls : List Call) (rows : List Incident)
      → OpenUnique rows
      → Extends rows (run calls rows) × OpenUnique (run calls rows)
  unfolding run
  run-Moves [] rows u = (Extends-refl rows, u)
  run-Moves (c ∷ calls) rows u =
      let (e, v) = perform-Moves c rows u in
      let (f, w) = run-Moves calls (perform c rows) v in
      (Extends-trans rows (perform c rows) (run calls (perform c rows)) e f, w)
