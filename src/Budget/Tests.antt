-- ===== src/Budget/Tests.antt =====
-- Runs of the token budget at concrete inputs.
use tfai_go.Base.{◌≡◌, ◌⊎◌, ◌≤◌, codes, length, List, [], ◌∷◌, ◌++◌}
use tfai_go.Budget.{Message, trim_history}
use tfai_go.Budget.Trim.{Fits, trim_history_longest}

abbrev turn : Message
turn = record { role = codes "user"; content = codes "a bucket with versioning" }

abbrev history : List Message
history = turn ∷ turn ∷ []

trim_history_longest_example :
    ((old : List Message) × (old ++ trim_history (turn ∷ []) history 25 ≡ history))
    × ((trim_history (turn ∷ []) history 25 ≡ [])
        ⊎ Fits (turn ∷ []) (trim_history (turn ∷ []) history 25) 25)
    × ((old kept : List Message)
        → old ++ kept ≡ history
        → Fits (turn ∷ []) kept 25
        → length kept ≤ length (trim_history (turn ∷ []) history 25))
trim_history_longest_example = trim_history_longest (turn ∷ []) history 25
