-- ===== src/Reasoning/Laws.antt =====
-- reasoning.go: the loops against plain descriptions of what they compute.
use agentturn.Base.{
  ℕ, Bool, false, not, List, [], ◌∷◌, ◌++◌, Option, none, some, String, ◌==◌, String-Comparable,
  Nat-Comparable, if◌then◌else◌, lookup, lookup-insert, get_or_else, keep, keep-append, ◌≡◌, refl,
  sym, ap, ◌∙◌, arith, append-nil, append_assoc, Bool-cases, Option-cases, inl, inr, any,
}
use agentturn.Items.{Item, reasoning_ref}
use agentturn.Reasoning.{
  ReasoningModels, attribute_one, attribute_all, attribute, dropped, for_loop, for_model, merged,
  retain_one, retain_from, retain,
}

abbrev stays : ReasoningModels → String → Item → Bool
stays m model item = not (dropped m model item)

-- The reference: the items that are not another model's reasoning, in order.
abbrev Sent : ReasoningModels → String → List Item → List Item → Option (List Item) → Type 0
Sent m model before rest none = keep (stays m model) before ≡ before
Sent m model before rest (some out) = out ≡ keep (stays m model) before

for_loop-Sent :
    (m : ReasoningModels) (model : String) (t before rest : List Item) (out : Option (List Item))
    → t ≡ before ++ rest
    → Sent m model before rest out
    → get_or_else (for_loop m model before out rest) t ≡ keep (stays m model) t
unfolding for_loop
for_loop-Sent m model t before [] none e s =
    let q = e ∙ append-nil before in q ∙ sym s ∙ ap (keep (stays m model)) (sym q)
for_loop-Sent m model t before [] (some out) e s =
    s ∙ ap (keep (stays m model)) (sym (e ∙ append-nil before))
for_loop-Sent m model t before (item ∷ rest) out e s =
    for_loop-Sent m model t (before ++ item ∷ []) rest _
      (e ∙ sym (append_assoc before (item ∷ []) rest)) (next out s)
  where
    next :
        (out : Option (List Item))
        → Sent m model before (item ∷ rest) out
        → Sent m model (before ++ item ∷ []) rest (
            if dropped m model item
            then some (get_or_else out before)
            else elim out [ none ↦ none | some o ↦ some (o ++ item ∷ []) ])
    next none s = elim (Bool-cases (dropped m model item)) [
      | inl d ↦ rw d (rw (keep-append (stays m model) before (item ∷ []), d, append-nil) (sym s))
      | inr d ↦
          rw d
            (rw (keep-append (stays m model) before (item ∷ []), d) (ap (λ xs. xs ++ item ∷ []) s))
    ]
    next (some o) s = elim (Bool-cases (dropped m model item)) [
      | inl d ↦ rw d (rw (keep-append (stays m model) before (item ∷ []), d, append-nil) s)
      | inr d ↦
          rw d
            (rw (keep-append (stays m model) before (item ∷ []), d) (ap (λ xs. xs ++ item ∷ []) s))
    ]

keep-all : (model : String) (t : List Item) → keep (stays [] model) t ≡ t
unfolding dropped lookup
keep-all model [] = refl
keep-all model (item ∷ t) = elim (Option-cases (reasoning_ref item)) [
  | inl e ↦ ground (arith, e, keep-all model t)
  | inr (r, e) ↦ ground (arith, e, keep-all model t)
]

-- What a request carries of the transcript: all of it for the default model, which has no name, and
-- else the items, in order, that the map does not attribute to another model, whether or not the
-- loop makes a copy.
pub for_model-eq-keep :
    (m : ReasoningModels) (model : String) (t : List Item)
    → for_model m model t ≡ (if model == "" then t else keep (stays m model) t)
unfolding for_model
for_model-eq-keep [] model t = ground (arith, keep-all model t)
for_model-eq-keep (e ∷ m) model t =
    ground (arith, for_loop-Sent (e ∷ m) model t [] t none refl refl)

-- Whether the reasoning item at an address is among the items.
abbrev is_at : ℕ → Item → Bool
is_at r item = elim (reasoning_ref item) [ none ↦ false | some s ↦ s == r ]

abbrev pub holds_reasoning : ℕ → List Item → Bool
holds_reasoning r items = any (is_at r) items

abbrev or_by : Option String → Option String → Option String
or_by none b = b
or_by (some a) b = some a

attribute_one-lookup :
    (model : String) (m : ReasoningModels) (item : Item) (r : ℕ)
    → lookup r (attribute_one model m item)
      ≡ or_by (lookup r m) (if is_at r item then some model else none)
unfolding attribute_one
attribute_one-lookup model m item r = elim (Option-cases (reasoning_ref item)) [
  | inl e ↦ ground (arith, e)
  | inr (s, e) ↦ ground (arith, e, lookup-insert s r model m)
]

attribute_all-lookup :
    (model : String) (m : ReasoningModels) (items : List Item) (r : ℕ)
    → lookup r (attribute_all model m items)
      ≡ or_by (lookup r m) (if holds_reasoning r items then some model else none)
unfolding attribute_all
attribute_all-lookup model m [] r = ground arith
attribute_all-lookup model m (item ∷ items) r = ground (
  arith,
  attribute_all-lookup model (attribute_one model m item) items r,
  attribute_one-lookup model m item r,
)

-- Attribution is first come, first served: an item known before keeps its model, one of the items
-- that was not known is the named model's, nothing else changes, and the default model, which has
-- no name, is recorded for none.
pub attribute-lookup :
    (model : String) (m : ReasoningModels) (items : List Item) (r : ℕ)
    → lookup r (attribute model m items)
      ≡ or_by
          (lookup r m)
          (if model == "" then none else if holds_reasoning r items then some model else none)
unfolding attribute
attribute-lookup model m items r = ground (arith, attribute_all-lookup model m items r)

retain_one-lookup :
    (m out : ReasoningModels) (item : Item) (r : ℕ)
    → lookup r (retain_one m out item)
      ≡ (if is_at r item then or_by (lookup r m) (lookup r out) else lookup r out)
unfolding retain_one
retain_one-lookup m out item r = elim (Option-cases (reasoning_ref item)) [
  | inl e ↦ ground (arith, e)
  | inr (s, e) ↦ elim (Bool-cases (s == r)) [
    | inl q ↦ elim (Option-cases (lookup s m)) [
      | inl k ↦ ground (arith, e, q, k)
      | inr (n, k) ↦ ground (arith, e, q, k, lookup-insert s r n out)
    ]
    | inr q ↦ elim (Option-cases (lookup s m)) [
      | inl k ↦ ground (arith, e, q, k)
      | inr (n, k) ↦ ground (arith, e, q, k, lookup-insert s r n out)
    ]
  ]
]

retain_from-lookup :
    (m out : ReasoningModels) (t : List Item) (r : ℕ)
    → lookup r (retain_from m out t)
      ≡ (if holds_reasoning r t then or_by (lookup r m) (lookup r out) else lookup r out)
unfolding retain_from
retain_from-lookup m out [] r = refl
retain_from-lookup m out (item ∷ t) r =
    ground (arith, retain_from-lookup m (retain_one m out item) t r, retain_one-lookup m out item r)

merged-lookup :
    (m more : ReasoningModels) (r : ℕ)
    → lookup r (merged m more) ≡ or_by (lookup r more) (lookup r m)
unfolding merged lookup
merged-lookup m [] r = refl
merged-lookup m ((s, name) ∷ more) r =
    ground (arith, lookup-insert s r name (merged m more), merged-lookup m more r)

-- What an agent keeps of the attributions after a run: over two maps joined, the second one's entry
-- stands over the first one's, and of the result exactly the entries of items that the transcript
-- still holds are kept.
pub retain-merged-lookup :
    (m more : ReasoningModels) (t : List Item) (r : ℕ)
    → lookup r (retain (merged m more) t)
      ≡ (if holds_reasoning r t then or_by (lookup r more) (lookup r m) else none)
unfolding retain lookup
retain-merged-lookup m more t r =
    ground (arith, retain_from-lookup (merged m more) [] t r, merged-lookup m more r)
