-- ===== src/Retention/Fates.antt =====
-- app/domain/retention.py: what a sweep that erases does to each row of evidence and to its bytes.
use unityworks_vision_ai_bac.Prelude.{
  ℕ, ◌+◌, ◌≡◌, ◌⊎◌, String, Bool, true, false, ◌||◌, if◌then◌else◌, List, [], ◌∷◌, keep_if, length,
}
use unityworks_vision_ai_bac.Retention.{EvidenceRecord, expired, is_expired, is_due, tombstone}

-- The row is expired, or is past its date.
abbrev pub must_go : (now : ℕ) → EvidenceRecord → Bool
must_go now r = is_expired r.state || is_due now r

abbrev pub expired_refs : List EvidenceRecord → List String
expired_refs [] = []
expired_refs (r ∷ rows) =
    let rest = expired_refs rows in if is_expired r.state then r.evidence_ref ∷ rest else rest

abbrev pub number_to_go : (now : ℕ) → List EvidenceRecord → ℕ
number_to_go now rows = length (keep_if (must_go now) rows)

-- The row as a sweep marks it.
abbrev mark : (now : ℕ) → EvidenceRecord → EvidenceRecord
mark now r = if is_due now r then record r { state = expired } else r

module _ {Disk : Type 0} (has_file : String → Disk → Bool) (disk : Disk) (days expiring : ℕ)
    (erasing : ℕ → ℕ) where
  -- What became of a row: it is as it was, or erased and then its file is gone, or expired.
  abbrev pub Fate : (place : ℕ) → (before after : EvidenceRecord) → Type 0
  Fate place i j =
      ((must_go expiring i ≡ false) × (j ≡ i))
      ⊎ ((must_go expiring i ≡ true)
          × (((j ≡ tombstone (erasing place) days i)
                × ((i.storage_ref ≡ "") ⊎ (has_file i.storage_ref disk ≡ false)))
              ⊎ (j ≡ record i { state = expired })))

  abbrev pub Fates : (place : ℕ) → (before after : List EvidenceRecord) → Type 0
  Fates place [] [] = Unit {0}
  Fates place [] (j ∷ js) = ⊥
  Fates place (i ∷ is) [] = ⊥
  Fates place (i ∷ is) (j ∷ js) = Fate place i j × Fates (place + 1) is js
