-- ===== src/FailureLog/Tests.antt =====
-- The theorems on the failure log at four calls.
use kemuri.Base.{◌+◌, ◌≡◌, List, [], ◌∷◌}
use kemuri.Base.Text.{codes}
use kemuri.FailureLog.{Key, FailureEntry, get}
use kemuri.FailureLog.Laws.{
  Call, failed, recovered, answer_all, failures, sum_for, told_for, pending,
}
use kemuri.FailureLog.Laws.{told_for_lem}

abbrev writer : Key
writer = (codes "writer", codes "database")

-- The second failure and the third are too early.
abbrev calls : List Call
calls = failed 100 writer ∷ failed 130 writer ∷ failed 150 writer ∷ recovered writer ∷ []

told_for_lem_example :
    sum_for writer failures calls + 0
    ≡ told_for 60 writer calls [] + pending (get writer (answer_all 60 calls []))
told_for_lem_example = told_for_lem 60 writer calls []

abbrev reported : FailureEntry
reported = record { last_reported = 100; suppressed = 2 }
