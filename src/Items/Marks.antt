-- ===== src/Items/Marks.antt =====
-- items.go: the marks compose, none of them reaches the transcript, and the copy-on-write loop
-- that strips them is a map.
use agentturn.Base.{
  ℕ, suc, ◌≡◌, refl, ap, sym, ◌∙◌, true, false, List, [], ◌∷◌, ◌++◌, map, Option, none, some, arith,
  set, set-append, get_or_else, length, length-append, append_assoc, append-nil,
}
use agentturn.Items.{
  Item, nil, at, Input, plain, marked, MarkedItem, is_nil, is_nil_input, hide, copy, unhide, marks,
  provenance, unhide_loop, unhide_all,
}

-- The item that the marks wrap.
abbrev pub base : Input → Item
base (plain i) = i
base (marked m) = m.item

abbrev pub strip : Input → Input
strip i = plain (base i)

-- A wrapper wraps an item.
abbrev pub IsMarkedItem : Input → Type 0
IsMarkedItem (plain i) = Unit {0}
IsMarkedItem (marked m) = is_nil m.item ≡ false

-- Hiding and copying an item that is not nil, in either order, gives one wrapper; the item under it
-- is the one handed in, both marks are read back, the provenance it was marked with stays, and the
-- wrapper wraps an item.
pub hide-copy :
    (i : Input)
    → IsMarkedItem i
    → is_nil_input i ≡ false
    → (hide (copy i) ≡ copy (hide i))
      × (marks (hide (copy i)) ≡ (base i, true, true))
      × (unhide (hide (copy i)) ≡ (base i, true))
      × (provenance (hide (copy i)) ≡ provenance i)
      × IsMarkedItem (hide (copy i))
unfolding hide copy marks provenance unhide
hide-copy (plain nil) w n = cc
hide-copy (plain (at r b)) w n = (refl, refl, refl, refl, refl)
hide-copy (marked m) w n = (refl, refl, refl, refl, w)

-- The loop over `before ++ rest`, at the index where `rest` begins: what it has so far is `before`
-- stripped, and the rest as it was, whether or not the copy has been made.
abbrev Stripped : List Input → List Input → Option (List Input) → Type 0
Stripped before rest none = map strip before ≡ before
Stripped before rest (some out) = out ≡ map strip before ++ rest

length-map : (xs : List Input) → length (map strip xs) ≡ length xs
length-map [] = refl
length-map (x ∷ xs) = ap suc (length-map xs)

map-append-one :
    (xs : List Input) (y : Input) → map strip (xs ++ y ∷ []) ≡ map strip xs ++ strip y ∷ []
map-append-one [] y = refl
map-append-one (x ∷ xs) y = ap (◌∷◌ (strip x)) (map-append-one xs y)

map-append-rest :
    (xs rest : List Input) (y : Input)
    → map strip (xs ++ y ∷ []) ++ rest ≡ map strip xs ++ strip y ∷ rest
map-append-rest xs rest y = rw (map-append-one xs y, append_assoc) refl

Stripped-write :
    (before rest : List Input) (m : MarkedItem) (out : Option (List Input))
    → Stripped before (marked m ∷ rest) out
    → set (get_or_else out (before ++ marked m ∷ rest)) (length before) (plain m.item)
      ≡ map strip (before ++ marked m ∷ []) ++ rest
Stripped-write before rest m none s =
    set-append before rest (marked m) (plain m.item)
    ∙ ap (λ xs. xs ++ plain m.item ∷ rest) (sym s)
    ∙ sym (map-append-rest before rest (marked m))
Stripped-write before rest m (some out) s =
    ap (λ xs. set xs (length before) (plain m.item)) s
    ∙ ap (λ n. set (map strip before ++ marked m ∷ rest) n (plain m.item)) (sym (length-map before))
    ∙ set-append (map strip before) rest (marked m) (plain m.item)
    ∙ sym (map-append-rest before rest (marked m))

Stripped-plain :
    (before rest : List Input) (x : Item) (out : Option (List Input))
    → Stripped before (plain x ∷ rest) out
    → Stripped (before ++ plain x ∷ []) rest out
Stripped-plain before rest x none s =
    map-append-one before (plain x) ∙ ap (λ xs. xs ++ plain x ∷ []) s
Stripped-plain before rest x (some out) s = s ∙ sym (map-append-rest before rest (plain x))

split_on :
    (items before rest : List Input) (x : Input)
    → items ≡ before ++ x ∷ rest
    → items ≡ (before ++ x ∷ []) ++ rest
split_on items before rest x e = e ∙ sym (append_assoc before (x ∷ []) rest)

length_on :
    (before : List Input) (x : Input) (n : ℕ)
    → n ≡ length before
    → suc n ≡ length (before ++ x ∷ [])
length_on before x n e = omega (arith, length-append before (x ∷ []))

unhide_loop-Stripped :
    (items : List Input) (n : ℕ) (before rest : List Input) (out : Option (List Input))
    → items ≡ before ++ rest
    → n ≡ length before
    → Stripped before rest out
    → get_or_else (unhide_loop items n rest out) items ≡ map strip items
unfolding unhide_loop
unhide_loop-Stripped items n before [] none p q s =
    let e = p ∙ append-nil before in e ∙ sym s ∙ ap (map strip) (sym e)
unhide_loop-Stripped items n before [] (some out) p q s =
    s ∙ append-nil (map strip before) ∙ ap (map strip) (sym (p ∙ append-nil before))
unhide_loop-Stripped items n before (plain x ∷ rest) out p q s =
    unhide_loop-Stripped items (suc n) (before ++ plain x ∷ []) rest out
      (split_on items before rest (plain x) p) (length_on before (plain x) n q)
      (Stripped-plain before rest x out s)
unhide_loop-Stripped items n before (marked m ∷ rest) out p q s =
    unhide_loop-Stripped items (suc n) (before ++ marked m ∷ []) rest _
      (split_on items before rest (marked m) p) (length_on before (marked m) n q)
      (rw (p, q) (Stripped-write before rest m out s))

-- The loop that copies the items only when it meets a mark, and writes into the copy by index,
-- returns each item with its marks stripped, in order.
pub unhide_all-eq-map : (items : List Input) → unhide_all items ≡ map strip items
unfolding unhide_all
unhide_all-eq-map items = unhide_loop-Stripped items 0 [] items none refl refl refl
