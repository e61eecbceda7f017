-- ===== src/Journal/Cutover/Quarantine.antt =====
-- What `cutover_v1` leaves of the records of version 1.
use things3_orchestrator.Prelude.{Dict, ◌≡◌, ◌≢◌, ◌⊎◌, true, false, [], ◌∷◌}
use things3_orchestrator.Json.{empty}
use things3_orchestrator.Journal.Types.{IntentRecord, Journal}
use things3_orchestrator.Journal.Checks.{intent_is_pending}
use things3_orchestrator.Journal.Cutover.Legacy.{Fate, fate_of}

-- What becomes of one record.
abbrev Cut : IntentRecord → IntentRecord → Type 0
Cut row row' =
    (row'.intent_id ≡ row.intent_id)
    × (intent_is_pending row'.state ≡ intent_is_pending row.state)
    × (fate_of row'.state ≢ Fate.quarantine)
    × (((intent_is_pending row.state ≡ true) × (row' ≡ row))
        ⊎ ((intent_is_pending row.state ≡ false) × (row'.plan ≡ empty)))

-- The records after the cutover, one for each record before it.
unfoldable pub AreCut : Dict IntentRecord → Dict IntentRecord → Type 0
AreCut [] [] = Unit {0}
AreCut (entry ∷ rows) (entry' ∷ rows') =
    (entry'.0 ≡ entry.0) × Cut entry.1 entry'.1 × AreCut rows rows'
AreCut _ _ = ⊥
