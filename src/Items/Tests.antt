-- ===== src/Items/Tests.antt =====
-- items.go: the theorems on a message with marks.
use agentturn.Base.{◌==◌, String-Comparable, ◌&&◌, any, ◌≡◌, refl, true, false, [], ◌∷◌, none, some}
use agentturn.Items.{
  Item, at, message, user, Input, plain, marked, unhide_all, Layer, Provenance, zero_trigger,
  trigger_refused, is_zero,
}
use agentturn.Items.Marks.{unhide_all-eq-map}
use agentturn.Items.Validate.{
  with_provenance, is_message, same_layer, validate, with_provenance_layers,
}

abbrev hello : Item
hello = at 7 (message user "hello")

abbrev hidden_hello : Input
hidden_hello =
    marked (record { item = hello; hidden = true; copied = false; prov = none; answer = none })

abbrev instructions : Layer
instructions = record { id = "AGENTS.md"; source = "agentsmd" }

abbrev from_file : Provenance
from_file = record { layers = instructions ∷ []; source = zero_trigger; trust = none }

unhide_all-eq-map_example :
    unhide_all (plain hello ∷ hidden_hello ∷ []) ≡ plain hello ∷ plain hello ∷ []
unhide_all-eq-map_example = unhide_all-eq-map (plain hello ∷ hidden_hello ∷ [])

abbrev hello_from_file : Input
hello_from_file =
    marked (record {
      item = hello;
      hidden = false;
      copied = false;
      prov = some from_file;
      answer = none;
    })

with_provenance_layers_example :
    (hello_from_file ≡ hello_from_file)
    × (is_message hello ≡ true)
    × ((from_file.source.kind == "human") ≡ false)
    × ((instructions.source == "") ≡ false)
    × ((instructions.id == "" && instructions.source == "agentsmd") ≡ false)
    × (any (same_layer instructions) [] ≡ false)
unfolding with_provenance validate is_zero trigger_refused
with_provenance_layers_example =
    with_provenance_layers (plain hello) hello_from_file from_file [] [] instructions refl refl refl
