-- ===== src/Persons/Tests.antt =====
-- persons.go: the theorem on a transcript that lost a message.
use agentturn.Base.{true, [], ◌∷◌, contains, Nat-Comparable, ◌≡◌}
use agentturn.Items.{at, message, user}
use agentturn.Persons.{merged, retain}
use agentturn.Persons.Laws.{retain-merged-contains}

retain-merged-contains_example :
    contains (retain (merged (1 ∷ []) (2 ∷ [])) (at 2 (message user "hi") ∷ [])) 2 ≡ true
unfolding contains
retain-merged-contains_example =
    retain-merged-contains (1 ∷ []) (2 ∷ []) (at 2 (message user "hi") ∷ []) 2
