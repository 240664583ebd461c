-- ===== src/Quarantine/Tests.antt =====
-- quarantine.go: the theorems on a call with its output held back, and on an item type that `==` is
-- not defined on.
use agentturn.Base.{
  ◌≡◌, refl, ◌<◌, true, false, List, [], ◌∷◌, ok, err, any, arith, ◌⊎◌, lookup, insert,
  Nat-Comparable, String-Comparable, ◌||◌,
}
use agentturn.Items.{Item, at, message, user, function_call, function_call_output, other, same_item}
use agentturn.Quarantine.{
  Quarantine, empty, uncomparable, refused, listed, held, call_held, answers_held, sends,
  quarantined_output, apply, add, has,
}
use agentturn.Quarantine.Apply.{sent_items, apply-eq-sent_items, apply_panics}
use agentturn.Quarantine.Adding.{add_lem}
use agentturn.Quarantine.Membership.{walked, apply-has}

abbrev call : Item
call = at 1 (function_call "c1" "read" "{}")

abbrev output : Item
output = at 2 (function_call_output "c1" "secret")

abbrev person : Item
person = at 3 (message user "go on")

abbrev opaque_item : Item
opaque_item = at 4 (other "x:slice" false)

-- The output is held, and its call is not.
abbrev set : Quarantine
set = record { items = output ∷ []; gen = 1 }

abbrev call_set : Quarantine
call_set = record { items = call ∷ []; gen = 1 }

abbrev replaced : List Item
replaced = call ∷ at 9 (function_call_output "c1" quarantined_output) ∷ person ∷ []

apply-eq-sent_items_example : apply set 9 (call ∷ output ∷ person ∷ []) ≡ ok replaced
unfolding sent_items sends answers_held held call_held lookup insert refused
apply-eq-sent_items_example = apply-eq-sent_items set 9 (call ∷ output ∷ person ∷ []) refl refl

apply_panics_example : apply set 9 (opaque_item ∷ []) ≡ err uncomparable
unfolding refused
apply_panics_example = apply_panics set 9 (opaque_item ∷ []) refl refl

apply-has_example : has call_set output ≡ true
unfolding sends answers_held held call_held lookup insert walked
apply-has_example =
    apply-has call_set (call ∷ []) output (((λ _. refl), tt), tt) (λ e. ground (arith, e))

add_lem_example :
    (any refused (call ∷ []) ≡ false)
    × (listed (call ∷ []) call ≡ (any (same_item call) (call ∷ []) || listed [] call))
    × ((call_set ≡ empty) ⊎ (0 < 1))
unfolding add empty refused
add_lem_example = add_lem empty call_set (call ∷ []) call refl refl
