-- ===== src/Reasoning/Tests.antt =====
-- reasoning.go: the theorems on a transcript with the reasoning of two models.
use agentturn.Base.{◌≡◌, List, [], ◌∷◌, some, lookup, Nat-Comparable, String-Comparable}
use agentturn.Items.{Item, at, message, user, reasoning}
use agentturn.Reasoning.{ReasoningModels, attribute, for_model, merged, retain, dropped}
use agentturn.Reasoning.Laws.{for_model-eq-keep, attribute-lookup, retain-merged-lookup}

abbrev transcript : List Item
transcript = at 1 (message user "hi") ∷ at 2 reasoning ∷ at 3 reasoning ∷ []

abbrev known : ReasoningModels
known = (2, "small") ∷ (3, "large") ∷ []

for_model-eq-keep_example :
    for_model known "large" transcript ≡ at 1 (message user "hi") ∷ at 3 reasoning ∷ []
unfolding dropped lookup
for_model-eq-keep_example = for_model-eq-keep known "large" transcript

attribute-lookup_example :
    lookup 3 (attribute "large" ((2, "small") ∷ []) transcript) ≡ some "large"
unfolding lookup
attribute-lookup_example = attribute-lookup "large" ((2, "small") ∷ []) transcript 3

retain-merged-lookup_example :
    lookup 2 (retain (merged ((2, "small") ∷ []) ((2, "large") ∷ [])) transcript) ≡ some "large"
unfolding lookup
retain-merged-lookup_example =
    retain-merged-lookup ((2, "small") ∷ []) ((2, "large") ∷ []) transcript 2
