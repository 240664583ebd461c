-- ===== src/Items/Validate.antt =====
-- items.go: WithProvenance and the rules that it checks.
use agentturn.Base.{
  append-nil, append_assoc, ◌≡◌, refl, inl, inr, Bool, true, false, not, ◌&&◌, ◌||◌, List, [], ◌∷◌,
  ◌++◌, Option, none, some, String, Result, ok, err, ◌==◌, String-Comparable, if◌then◌else◌, any,
  arith, Option-cases, ap, ◌∙◌,
}
use agentturn.Items.{
  Item, nil, at, message, Layer, Provenance, is_zero, trigger_refused, Input, plain, marked,
  wrapper, is_nil_input,
}

pub data ProvenanceError : Type 0 where
  layers_on_item human_layers layer_without_source layer_without_id layer_repeated : ProvenanceError
  label_refused source_refused : ProvenanceError

abbrev pub is_message : Item → Bool
is_message (at r (message role text)) = true
is_message _ = false

abbrev has_layers : List Layer → Bool
has_layers [] = false
has_layers (l ∷ ls) = true

-- `o.ID == l.ID && (l.ID != "" || o.Source == l.Source)`
pub same_layer : Layer → Layer → Bool
same_layer l o = o.id == l.id && (not (l.id == "") || o.source == l.source)

-- The loop over the layers, with those before the index.
check_layers : List Layer → List Layer → Option ProvenanceError
check_layers before [] = none
check_layers before (l ∷ ls) =
    let rest = check_layers (before ++ l ∷ []) ls in
    if l.source == ""
    then some layer_without_source
    else if l.id == "" && l.source == "agentsmd"
    then some layer_without_id
    else if any (same_layer l) before
    then some layer_repeated
    else rest

check_labels : List String → List String → Option ProvenanceError
check_labels before [] = none
check_labels before (l ∷ ls) =
    let rest = check_labels (before ++ l ∷ []) ls in
    if l == "" || any (λ o. o == l) before then some label_refused else rest

abbrev check_trust : Option (List String) → Option ProvenanceError
check_trust none = none
check_trust (some reads) = check_labels [] reads

abbrev or_error : Option ProvenanceError → Option ProvenanceError → Option ProvenanceError
or_error none e = e
or_error (some e) _ = some e

unfoldable pub validate : Provenance → Item → Option ProvenanceError
unfolding check_layers check_labels same_layer
validate p item =
    if has_layers p.layers && not (is_message item)
    then some layers_on_item
    else if has_layers p.layers && p.source.kind == "human"
    then some human_layers
    else or_error (check_layers [] p.layers) (
        or_error (check_trust p.trust)
          (if trigger_refused p.source then some source_refused else none))

abbrev is_none : Option (List String) → Bool
is_none none = true
is_none (some reads) = false

-- `len(p.Layers) == 0 && p.Source.IsZero() && p.Trust == nil`
says_nothing : Provenance → Bool
unfolding is_zero
says_nothing p = not (has_layers p.layers) && is_zero p.source && is_none p.trust

unfoldable pub with_provenance : Input → Provenance → Result ProvenanceError Input
unfolding validate says_nothing
with_provenance i p =
    if is_nil_input i
    then ok (plain nil)
    else if says_nothing p
    then ok i
    else elim (validate p (wrapper i).item) [
      | none ↦ ok (marked (record (wrapper i) { prov = some p }))
      | some e ↦ err e
    ]

check_layers_at :
    (before xs ys : List Layer) (l : Layer)
    → check_layers before (xs ++ l ∷ ys) ≡ none
    → ((l.source == "") ≡ false)
      × ((l.id == "" && l.source == "agentsmd") ≡ false)
      × (any (same_layer l) (before ++ xs) ≡ false)
unfolding check_layers
check_layers_at before [] ys l e = rw append-nil (ground arith)
check_layers_at before (x ∷ xs) ys l e =
    rw (← append_assoc before (x ∷ []) xs)
      (check_layers_at (before ++ x ∷ []) xs ys l (ground arith))

check_labels_at :
    (before xs ys : List String) (l : String)
    → check_labels before (xs ++ l ∷ ys) ≡ none
    → ((l == "") ≡ false) × (any (λ o. o == l) (before ++ xs) ≡ false)
unfolding check_labels
check_labels_at before [] ys l e = rw append-nil (ground arith)
check_labels_at before (x ∷ xs) ys l e =
    rw (← append_assoc before (x ∷ []) xs)
      (check_labels_at (before ++ x ∷ []) xs ys l (ground arith))

has_layers_at : (xs ys : List Layer) (l : Layer) → has_layers (xs ++ l ∷ ys) ≡ true
has_layers_at [] ys l = refl
has_layers_at (x ∷ xs) ys l = refl

validate_layers :
    (p : Provenance) (item : Item) (xs ys : List Layer) (l : Layer)
    → p.layers ≡ xs ++ l ∷ ys
    → validate p item ≡ none
    → (is_message item ≡ true)
      × ((p.source.kind == "human") ≡ false)
      × (check_layers [] (xs ++ l ∷ ys) ≡ none)
unfolding validate
validate_layers p item xs ys l q e = ground (arith, has_layers_at xs ys l)

-- A provenance with layers is accepted only on a message, with a source that is not a person, and
-- with, for each layer, a source, an id if it is an instruction file, and no layer before it that
-- has the same id, or that has the same source where both have none; the accepted item is the
-- one handed in under the provenance.
pub with_provenance_layers :
    (i j : Input) (p : Provenance) (xs ys : List Layer) (l : Layer)
    → is_nil_input i ≡ false
    → p.layers ≡ xs ++ l ∷ ys
    → with_provenance i p ≡ ok j
    → (j ≡ marked (record (wrapper i) { prov = some p }))
      × (is_message (wrapper i).item ≡ true)
      × ((p.source.kind == "human") ≡ false)
      × ((l.source == "") ≡ false)
      × ((l.id == "" && l.source == "agentsmd") ≡ false)
      × (any (same_layer l) xs ≡ false)
unfolding with_provenance
with_provenance_layers i j p xs ys l n q e =
    let v = validate p (wrapper i).item in
    elim (Option-cases v) [
      | inl accepted ↦
          let checked = validate_layers p (wrapper i).item xs ys l q accepted in
          let at = check_layers_at [] xs ys l checked.2 in
          let some_layers = ap has_layers q ∙ has_layers_at xs ys l in
          (ground (arith, some_layers), checked.0, checked.1, at.0, at.1, at.2)
      | inr (x, refused) ↦ absurd (ground (arith, ap has_layers q ∙ has_layers_at xs ys l))
    ]
