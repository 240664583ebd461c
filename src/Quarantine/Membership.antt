-- ===== src/Quarantine/Membership.antt =====
-- quarantine.go: what apply never sends, and what has reports.
use agentturn.Base.{
  true, false, List, [], ◌∷◌, some, String, ◌≡◌, refl, subst, arith, Bool-cases, Option-cases, ◌≢◌,
  inl, inr, lookup, lookup-insert, String-Comparable, Nat-Comparable, ◌==◌, All,
}
use agentturn.Items.{Item, nil, at, function_call_output, output_id_of, call_id_of, same_item}
use agentturn.Quarantine.{
  Quarantine, note_call, as_is, sends, held, answers_held, call_held, listed, has,
}

abbrev pub IsFree : Quarantine → Item → Type 0
IsFree q item = held q item ≡ false

-- An item is replaced only if it is an output.
abbrev IsOutput : Item → Type 0
IsOutput item = (id : String) × (output_id_of item ≡ some id)

-- The items and those of the set are the same objects where their addresses are.
abbrev pub SameObjects : Quarantine → List Item → Type 0
SameObjects q items = All (λ a. All (λ b. same_item a b ≡ true → a ≡ b) q.items) items

-- The calls walked so far, the latest of each ID.
unfoldable pub walked : List (String × Item) → List Item → List (String × Item)
walked last [] = last
walked last (item ∷ items) = walked (note_call item last) items

module _ (q : Quarantine) where
  call_held_of :
      (items : List Item) (x : Item) (id : String)
      → All (λ b. same_item x b ≡ true → x ≡ b) items
      → call_id_of x ≡ some id
      → listed items x ≡ true
      → call_held items id ≡ true
  unfolding call_held
  call_held_of [] x id same c l = cc
  call_held_of (b ∷ items) x id same c l = elim (Bool-cases (same_item x b)) [
    | inl s ↦
        let e : call_id_of b ≡ some id = subst (λ y. call_id_of y ≡ some id) (same.0 s) c in
        ground (arith, e, String-Comparable.tells_apart id id)
    | inr s ↦
        let ih = call_held_of items x id same.1 c (ground (arith, s)) in
        elim (Option-cases (call_id_of b)) [
          | inl o ↦ ground (arith, o, ih)
          | inr (j, o) ↦ ground (arith, o, ih)
        ]
  ]

  abbrev Good : List (String × Item) → Type 0
  Good last =
      (id : String) (c : Item)
      → lookup id last ≡ some c
      → held q c ≡ true
      → call_held q.items id ≡ true

  note_call-Good :
      (x : Item) (last : List (String × Item))
      → All (λ b. same_item x b ≡ true → x ≡ b) q.items
      → Good last
      → Good (note_call x last)
  unfolding held
  note_call-Good x last same g id c l h = elim (Option-cases (call_id_of x)) [
    | inl o ↦ g id c (ground (arith, o)) h
    | inr (j, o) ↦ elim (Bool-cases (j == id)) [
      | inl e ↦
          call_held_of q.items x id same (ground (arith, o, e, String-Comparable.tells_apart j id))
            (ground (arith, o, e, lookup-insert j id x last))
      | inr e ↦ g id c (ground (arith, o, e, lookup-insert j id x last)) h
    ]
  ]

  walked-Good :
      (items : List Item) (last : List (String × Item))
      → SameObjects q items
      → Good last
      → Good (walked last items)
  unfolding walked
  walked-Good [] last same g = g
  walked-Good (x ∷ items) last same g =
      walked-Good items (note_call x last) same.1 (note_call-Good x last same.0 g)

  held-has : (x : Item) → held q x ≡ true → has q x ≡ true
  unfolding held has
  held-has x h = ground arith

  answers-has :
      (x : Item) (last : List (String × Item)) (id : String)
      → Good last
      → output_id_of x ≡ some id
      → answers_held q last id ≡ true
      → has q x ≡ true
  unfolding answers_held has
  answers-has nil last id g o a = cc
  answers-has (at r b) last id g o a = elim (Option-cases (lookup id last)) [
    | inl l ↦ ground (arith, o, l)
    | inr (c, l) ↦ ground (arith, o, g id c l (ground (arith, l)))
  ]

  -- An output is no call, so it leaves the calls walked so far as they are.
  note_call-output :
      (x : Item) (last : List (String × Item)) (id : String)
      → output_id_of x ≡ some id
      → note_call x last ≡ last
  note_call-output nil last id o = refl
  note_call-output (at r (function_call_output i t)) last id o = refl
  note_call-output (at r b) last id o = cc

-- Has is complete: of items that are one object where they have one address, each that apply does
-- not send as it is, whatever stands before and after it, is one that has reports. A transform that
-- leaves out what has reports leaves out no less than apply.
pub apply-has :
    (q : Quarantine) (before : List Item) (item : Item)
    → SameObjects q before
    → sends q (walked [] before) item ≢ as_is
    → has q item ≡ true
unfolding sends lookup
apply-has q before item same s = elim (Bool-cases (held q item)) [
  | inl h ↦ held-has q item h
  | inr h ↦ elim (Option-cases (output_id_of item)) [
    | inl o ↦ absurd (s (ground (arith, o)))
    | inr (id, o) ↦ elim (Bool-cases (answers_held q (note_call item (walked [] before)) id)) [
      | inl a ↦
          answers-has q item (walked [] before) id
            (walked-Good q before [] same (λ i c l _. nothing i c l)) o
            (subst (λ last. answers_held q last id ≡ true)
              (note_call-output q item (walked [] before) id o) a)
      | inr a ↦ absurd (s (ground (arith, o, a)))
    ]
  ]
]
  where
    nothing : (i : String) (c : Item) → lookup i [] ≡ some c → call_held q.items i ≡ true
    nothing i c l = cc
