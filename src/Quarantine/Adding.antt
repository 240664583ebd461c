-- ===== src/Quarantine/Adding.antt =====
-- quarantine.go: what add counts.
use agentturn.Base.{
  ◌<◌, ◌≤◌, true, false, ◌||◌, List, [], ◌∷◌, ok, any, ◌≡◌, refl, sym, ◌∙◌, subst, arith,
  Bool-cases, ◌⊎◌, ltb, inl, inr, String-Comparable, Nat-Comparable,
}
use agentturn.Items.{Item, nil, at, is_nil, same_item}
use agentturn.Quarantine.{Quarantine, refused, listed, add, add_one, add_all}

same_item_trans : (a b c : Item) → same_item a b ≡ true → same_item a c ≡ same_item b c
same_item_trans nil nil c e = refl
same_item_trans nil (at s d) c e = cc
same_item_trans (at r b) nil c e = cc
same_item_trans (at r b) (at s d) nil e = refl
same_item_trans (at r b) (at s d) (at t f) e = ground arith

listed-same :
    (items : List Item) (a b : Item) → same_item a b ≡ true → listed items a ≡ listed items b
listed-same [] a b e = refl
listed-same (c ∷ items) a b e = ground (arith, same_item_trans a b c, listed-same items a b)

same_item-nil : (a b : Item) → is_nil a ≡ false → is_nil b ≡ true → same_item a b ≡ false
same_item-nil nil b n m = cc
same_item-nil (at r d) nil n m = refl
same_item-nil (at r d) (at s e) n m = cc

add_one-listed :
    (q : Quarantine) (x item : Item)
    → is_nil item ≡ false
    → listed (add_one q x).items item ≡ (same_item item x || listed q.items item)
unfolding add_one
add_one-listed q x item n = elim (Bool-cases (is_nil x)) [
  | inl m ↦ ground (arith, m, same_item-nil item x)
  | inr m ↦ elim (Bool-cases (listed q.items x)) [
    | inl l ↦ ground (arith, m, l, listed-same q.items item x)
    | inr l ↦ ground (arith, m, l)
  ]
]

add_one-gen : (q : Quarantine) (x : Item) → q.gen ≤ (add_one q x).gen
unfolding add_one
add_one-gen q x = ground arith

add_one_same : (q : Quarantine) (x : Item) → (add_one q x).gen ≡ q.gen → add_one q x ≡ q
unfolding add_one
add_one_same q x e = ground arith

add_all-gen : (q : Quarantine) (items : List Item) → q.gen ≤ (add_all q items).gen
unfolding add_all
add_all-gen q [] = omega arith
add_all-gen q (x ∷ items) = omega (arith, add_one-gen q x, add_all-gen (add_one q x) items)

add_all_same :
    (q : Quarantine) (items : List Item) → (add_all q items).gen ≡ q.gen → add_all q items ≡ q
unfolding add_all
add_all_same q [] e = refl
add_all_same q (x ∷ items) e =
    let one : (add_one q x).gen ≡ q.gen =
      omega (arith, add_one-gen q x, add_all-gen (add_one q x) items) in
    add_all_same (add_one q x) items (e ∙ sym one) ∙ add_one_same q x one

add_all-listed :
    (q : Quarantine) (items : List Item) (item : Item)
    → is_nil item ≡ false
    → listed (add_all q items).items item ≡ (any (same_item item) items || listed q.items item)
unfolding add_all
add_all-listed q [] item n = refl
add_all-listed q (x ∷ items) item n =
    ground (arith, add_all-listed (add_one q x) items item, add_one-listed q x item)

add_all-new :
    (q : Quarantine) (items : List Item) → (add_all q items ≡ q) ⊎ (q.gen < (add_all q items).gen)
add_all-new q items = elim (Bool-cases (ltb q.gen (add_all q items).gen)) [
  | inl l ↦ inr (ground arith)
  | inr l ↦ inl (add_all_same q items (ground (arith, add_all-gen q items)))
]

-- Quarantining items that are accepted: none of them has a type that is not comparable, the new set
-- holds an item that is not nil exactly where the old one held it or it is among those named, and
-- either the set is the old one or its generation is higher.
pub add_lem :
    (q q' : Quarantine) (items : List Item) (item : Item)
    → is_nil item ≡ false
    → add q items ≡ ok q'
    → (any refused items ≡ false)
      × (listed q'.items item ≡ (any (same_item item) items || listed q.items item))
      × ((q' ≡ q) ⊎ (q.gen < q'.gen))
unfolding add
add_lem q q' items item n e = elim (Bool-cases (any refused items)) [
  | inl r ↦ absurd (ground (arith, r))
  | inr r ↦
      let p : add_all q items ≡ q' = ground (arith, r) in
      (
        r,
        subst (λ z. listed z.items item ≡ (any (same_item item) items || listed q.items item)) p
            (add_all-listed q items item n),
        subst (λ z. (z ≡ q) ⊎ (q.gen < z.gen)) p (add_all-new q items),
      )
]
