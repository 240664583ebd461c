-- ===== src/Items.antt =====
-- items.go and events.go's Trigger: the items of a transcript and the marks that a caller puts on
-- them before the loop appends them. The item types are those of openresponses, with the members
-- that the loop reads; every one of them is a pointer, so an item is an address and what it holds.
pub mod Marks
pub mod Validate
mod Tests
use agentturn.Base.{
  ℕ, suc, Bool, true, false, not, ◌&&◌, ◌||◌, List, [], ◌∷◌, ◌++◌, Option, none, some, String,
  Result, ok, err, ◌==◌, Nat-Comparable, String-Comparable, if◌then◌else◌, any, set, get_or_else,
  is_empty,
}

pub data Role : Type 0 where
  user assistant developer system : Role

pub data Body : Type 0 where
  message : Role → (text : String) → Body
  function_call : (call_id name arguments : String) → Body
  function_call_output : (call_id output : String) → Body
  reasoning : Body
  -- Any other type, by what ItemType returns, and whether Go's `==` is defined on it.
  other : (item_type : String) → (comparable : Bool) → Body

-- The value of an item interface: nil, or a pointer.
pub data Item : Type 0 where
  nil : Item
  at : (ref : ℕ) → Body → Item

abbrev pub is_nil : Item → Bool
is_nil nil = true
is_nil (at r b) = false

-- Go's `==` on two item interfaces.
abbrev pub same_item : Item → Item → Bool
same_item nil nil = true
same_item (at r b) (at s c) = r == s
same_item nil (at s c) = false
same_item (at r b) nil = false

-- `reflect.TypeOf(item).Comparable()`
abbrev pub comparable : Item → Bool
comparable (at r (other t c)) = c
comparable _ = true

abbrev pub call_id_of : Item → Option String
call_id_of (at r (function_call i n a)) = some i
call_id_of _ = none

abbrev pub output_id_of : Item → Option String
output_id_of (at r (function_call_output i o)) = some i
output_id_of _ = none

abbrev pub reasoning_ref : Item → Option ℕ
reasoning_ref (at r reasoning) = some r
reasoning_ref _ = none

-- What sent an item. A member of `extra` is its name and the JSON that its value encodes as, `none`
-- where encoding fails.
pub record Trigger : Type 0 where
  pub kind : String
  pub ref : String
  pub source : String
  pub extra : List (String × Option String)

abbrev pub zero_trigger : Trigger
zero_trigger = record { kind = ""; ref = ""; source = ""; extra = [] }

unfoldable pub is_zero : Trigger → Bool
is_zero t = t.kind == "" && t.ref == "" && t.source == "" && is_empty t.extra

-- Trigger.Validate: whether a member cannot be written beside kind, ref and source. The map's order
-- decides only which member the error names.
bad_member : String × Option String → Bool
bad_member (name, none) = true
bad_member (name, some json) = name == "kind" || name == "ref" || name == "source"

unfoldable pub trigger_refused : Trigger → Bool
unfolding bad_member
trigger_refused t = any bad_member t.extra

pub record Layer : Type 0 where
  pub id : String
  pub source : String

pub record Provenance : Type 0 where
  pub layers : List Layer
  pub source : Trigger
  pub trust : Option (List String)

pub record AnswerMarks : Type 0 where
  pub by : String
  pub reason : String
  pub origin : String
  pub failed : Bool

-- An item as a caller hands it over: plain, or in the wrapper that carries the marks.
pub record MarkedItem : Type 0 where
  pub item : Item
  pub hidden : Bool
  pub copied : Bool
  pub prov : Option Provenance
  pub answer : Option AnswerMarks

pub data Input : Type 0 where
  plain : Item → Input
  marked : MarkedItem → Input

-- `m, _ := item.(markedItem); if m.item == nil { m.item = item }`
abbrev pub wrapper : Input → MarkedItem
wrapper (plain i) = record { item = i; hidden = false; copied = false; prov = none; answer = none }
wrapper (marked m) = m

abbrev pub is_nil_input : Input → Bool
is_nil_input (plain i) = is_nil i
is_nil_input (marked m) = false

unfoldable pub hide : Input → Input
hide i = if is_nil_input i then plain nil else marked (record (wrapper i) { hidden = true })

unfoldable pub copy : Input → Input
copy i = if is_nil_input i then plain nil else marked (record (wrapper i) { copied = true })

unfoldable pub unhide : Input → Item × Bool
unhide (plain i) = (i, false)
unhide (marked m) = (m.item, m.hidden)

-- `marks`: the item, whether it is hidden, whether it is copied.
unfoldable pub marks : Input → Item × Bool × Bool
marks (plain i) = (i, false, false)
marks (marked m) = (m.item, m.hidden, m.copied)

unfoldable pub is_copied : Input → Bool
unfolding marks
is_copied i = (marks i).2

unfoldable pub provenance : Input → Option Provenance
provenance (plain i) = none
provenance (marked m) = m.prov

-- unhideAll: the loop over the items from index `i` on, with the copy that the first marked item
-- makes of them all.
unhide_loop : List Input → ℕ → List Input → Option (List Input) → Option (List Input)
unhide_loop items i [] out = out
unhide_loop items i (plain x ∷ rest) out = unhide_loop items (suc i) rest out
unhide_loop items i (marked m ∷ rest) out =
    unhide_loop items (suc i) rest (some (set (get_or_else out items) i (plain m.item)))

unfoldable pub unhide_all : List Input → List Input
unfolding unhide_loop
unhide_all items = get_or_else (unhide_loop items 0 items none) items
