-- ===== src/Persons.antt =====
-- persons.go: the messages of a transcript that a person wrote, a set of their addresses.
pub mod Laws
mod Tests
use agentturn.Base.{
  ℕ, Bool, true, false, not, ◌&&◌, ◌||◌, List, [], ◌∷◌, Option, none, some, String, ◌==◌,
  String-Comparable, Nat-Comparable, if◌then◌else◌, contains, add_key,
}
use agentturn.Items.{Item, nil, at, Role, user, Body, message, Trigger, Provenance, Layer}

abbrev pub PersonMessages : Type 0
PersonMessages = List ℕ

abbrev pub message_ref : Item → Option ℕ
message_ref (at r (message role text)) = some r
message_ref _ = none

unfoldable pub has : PersonMessages → Item → Bool
has m item = elim (message_ref item) [ none ↦ false | some r ↦ contains m r ]

unfoldable pub merged : PersonMessages → PersonMessages → PersonMessages
merged m [] = m
merged m (r ∷ more) = add_key r (merged m more)

unfoldable pub retain_from : PersonMessages → PersonMessages → List Item → PersonMessages
unfolding has
retain_from m out [] = out
retain_from m out (item ∷ t) =
    retain_from m
      (elim (message_ref item) [ none ↦ out | some r ↦ if has m item then add_key r out else out ])
      t

unfoldable pub retain : PersonMessages → List Item → PersonMessages
unfolding retain_from
retain m t = retain_from m [] t

abbrev is_user : Item → Bool
is_user (at r (message user text)) = true
is_user _ = false

abbrev composed : Option Provenance → Bool
composed none = false
composed (some p) = elim p.layers [ [] ↦ false | l ∷ ls ↦ true ]

-- Whether an item is the person's own message.
unfoldable pub is_persons : Item → Trigger → Option Provenance → Bool → Bool → Bool
is_persons item trigger prov hidden copied =
    is_user item && trigger.kind == "human" && not hidden && not copied && not (composed prov)

unfoldable pub add :
    PersonMessages → Item → Trigger → Option Provenance → Bool → Bool → PersonMessages
unfolding is_persons
add m item trigger prov hidden copied =
    if is_persons item trigger prov hidden copied
    then elim (message_ref item) [ none ↦ m | some r ↦ add_key r m ]
    else m
