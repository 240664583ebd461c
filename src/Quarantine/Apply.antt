-- ===== src/Quarantine/Apply.antt =====
-- quarantine.go: the loop of apply against what it is to send.
use agentturn.Base.{
  ℕ, suc, Bool, true, false, ◌||◌, List, [], ◌∷◌, ◌++◌, Option, none, some, String, ok, err,
  if◌then◌else◌, any, is_empty, ◌≡◌, refl, sym, ap, arith, append-nil, append_assoc, Option-cases,
  inl, inr, lookup, String-Comparable, Nat-Comparable, List-cases, All, ◌<◌,
}
use agentturn.Items.{Item, nil, at, is_nil, output_id_of, Body}
use agentturn.Quarantine.{
  Quarantine, uncomparable, refused, note_call, next_fresh, next_out, Sent, as_is, withheld, gone,
  sends, held, answers_held, call_held, listed, placeholder, apply_loop, apply,
}

-- The reference: what each item sends, one after another.
abbrev pub sent_item : Sent → ℕ → Item → List Item
sent_item as_is fresh item = if is_nil item then [] else item ∷ []
sent_item withheld fresh item = placeholder fresh item ∷ []
sent_item gone fresh item = []

unfoldable pub sent_items : Quarantine → List (String × Item) → ℕ → List Item → List Item
sent_items q last fresh [] = []
sent_items q last fresh (item ∷ items) =
    let sent = sends q last item in
    sent_item sent fresh item ++ sent_items q (note_call item last) (next_fresh sent fresh) items

abbrev changes : Sent → Bool
changes as_is = false
changes _ = true

pub changed : Quarantine → List (String × Item) → List Item → Bool
changed q last [] = false
changed q last (item ∷ items) = changes (sends q last item) || changed q (note_call item last) items

next_out-some :
    (s : Sent) (fresh : ℕ) (before out : List Item) (item : Item)
    → next_out s fresh before (some out) item ≡ some (out ++ sent_item s fresh item)
unfolding next_out
next_out-some as_is fresh before out item = ground (arith, append-nil out)
next_out-some withheld fresh before out item = refl
next_out-some gone fresh before out item = ap some (sym (append-nil out))

apply_loop-some :
    (q : Quarantine) (last : List (String × Item)) (fresh : ℕ) (before out items : List Item)
    → any refused items ≡ false
    → apply_loop q last fresh before (some out) items
      ≡ ok (some (out ++ sent_items q last fresh items))
unfolding apply_loop sent_items
apply_loop-some q last fresh before out [] c = rw append-nil
apply_loop-some q last fresh before out (item ∷ items) c =
    let sent = sends q last item in
    ground (
      arith,
      next_out-some sent fresh before out item,
      append_assoc out (sent_item sent fresh item)
          (sent_items q (note_call item last) (next_fresh sent fresh) items),
      apply_loop-some q (note_call item last) (next_fresh sent fresh) (before ++ item ∷ [])
          (out ++ sent_item sent fresh item) items,
    )

apply_loop-none :
    (q : Quarantine) (last : List (String × Item)) (fresh : ℕ) (before items : List Item)
    → any refused items ≡ false
    → any is_nil items ≡ false
    → apply_loop q last fresh before none items
      ≡ ok (if changed q last items then some (before ++ sent_items q last fresh items) else none)
unfolding apply_loop sent_items changed next_out
apply_loop-none q last fresh before [] c n = refl
apply_loop-none q last fresh before (item ∷ items) c n =
    go (sends q last item) refl
      (apply_loop-none q (note_call item last) fresh (before ++ item ∷ []) items (ground arith)
        (ground arith))
      (λ out fresh'.
        apply_loop-some q (note_call item last) fresh' (before ++ item ∷ []) out items
          (ground arith))
  where
    go :
        (s : Sent)
        → sends q last item ≡ s
        → apply_loop q (note_call item last) fresh (before ++ item ∷ []) none items
          ≡ ok (
              if changed q (note_call item last) items
              then some ((before ++ item ∷ []) ++ sent_items q (note_call item last) fresh items)
              else none)
        → ((out : List Item) (fresh' : ℕ)
            → apply_loop q (note_call item last) fresh' (before ++ item ∷ []) (some out) items
              ≡ ok (some (out ++ sent_items q (note_call item last) fresh' items)))
        → apply_loop q last fresh before none (item ∷ items)
          ≡ ok (
              if changed q last (item ∷ items)
              then some (before ++ sent_items q last fresh (item ∷ items))
              else none)
    go as_is e ih later = ground (
      arith,
      e,
      ih,
      append_assoc before (item ∷ []) (sent_items q (note_call item last) fresh items),
    )
    go withheld e ih later = ground (
      arith,
      e,
      later (before ++ placeholder fresh item ∷ []) (suc fresh),
      append_assoc before (placeholder fresh item ∷ [])
          (sent_items q (note_call item last) (suc fresh) items),
    )
    go gone e ih later = ground (arith, e, later before fresh)

unchanged-sent_items :
    (q : Quarantine) (last : List (String × Item)) (fresh : ℕ) (items : List Item)
    → any is_nil items ≡ false
    → changed q last items ≡ false
    → sent_items q last fresh items ≡ items
unfolding sent_items changed
unchanged-sent_items q last fresh [] n u = refl
unchanged-sent_items q last fresh (item ∷ items) n u =
    ground (arith, unchanged-sent_items q (note_call item last) fresh items)

held-empty : (q : Quarantine) (item : Item) → q.items ≡ [] → held q item ≡ false
unfolding held
held-empty q item e = ground (arith, e)

answers_held-empty :
    (q : Quarantine) (last : List (String × Item)) (id : String)
    → q.items ≡ []
    → answers_held q last id ≡ false
unfolding answers_held call_held
answers_held-empty q last id e = elim (Option-cases (lookup id last)) [
  | inl l ↦ ground (arith, e, l)
  | inr (c, l) ↦ ground (arith, l, held-empty q c e)
]

sends-empty :
    (q : Quarantine) (last : List (String × Item)) (item : Item)
    → q.items ≡ []
    → sends q last item ≡ as_is
unfolding sends
sends-empty q last item e = elim (Option-cases (output_id_of item)) [
  | inl o ↦ ground (arith, o, held-empty q item e)
  | inr (id, o) ↦
      ground (arith, o, held-empty q item e, answers_held-empty q (note_call item last) id e)
]

changed-empty :
    (q : Quarantine) (last : List (String × Item)) (items : List Item)
    → q.items ≡ []
    → changed q last items ≡ false
unfolding changed
changed-empty q last [] e = refl
changed-empty q last (item ∷ items) e =
    ground (arith, sends-empty q last item e, changed-empty q (note_call item last) items e)

-- For items none of which is nil or of a type that is not comparable, apply returns what each of
-- them sends, in order: itself, a placeholder at a new address, or nothing. So the copy that the
-- loop makes at the first change, and the short cut for an empty set, change nothing.
pub apply-eq-sent_items :
    (q : Quarantine) (fresh : ℕ) (items : List Item)
    → any refused items ≡ false
    → any is_nil items ≡ false
    → apply q fresh items ≡ ok (sent_items q [] fresh items)
unfolding apply
apply-eq-sent_items q fresh items c n = elim (List-cases q.items) [
  | inl e ↦ ground (arith, e, unchanged-sent_items q [] fresh items, changed-empty q [] items e)
  | inr (x, xs, e) ↦
      ground (arith, e, apply_loop-none q [] fresh [] items, unchanged-sent_items q [] fresh items)
]

apply_loop_panics :
    (q : Quarantine) (last : List (String × Item)) (fresh : ℕ) (before : List Item)
    (out : Option (List Item)) (items : List Item)
    → any refused items ≡ true
    → apply_loop q last fresh before out items ≡ err uncomparable
unfolding apply_loop
apply_loop_panics q last fresh before out [] r = cc
apply_loop_panics q last fresh before out (item ∷ items) r =
    let sent = sends q last item in
    ground (
      arith,
      apply_loop_panics q (note_call item last) (next_fresh sent fresh) (before ++ item ∷ [])
          (next_out sent fresh before out item) items,
    )

-- Once the set holds an item, applying it to items of which one has a type that is not comparable
-- panics, at the comparison of the item with what is sent for it: wherever that item stands, and
-- whether or not any of the items is held.
pub apply_panics :
    (q : Quarantine) (fresh : ℕ) (items : List Item)
    → is_empty q.items ≡ false
    → any refused items ≡ true
    → apply q fresh items ≡ err uncomparable
unfolding apply
apply_panics q fresh items n r = ground (arith, apply_loop_panics q [] fresh [] none items r)

-- Every address in the set, and of an item walked, is below the one that a new object gets.
abbrev pub Below : ℕ → Item → Type 0
Below fresh nil = Unit {0}
Below fresh (at r b) = r < fresh

pub held_fresh :
    (q : Quarantine) (fresh : ℕ) (b : Body)
    → All (Below fresh) q.items
    → held q (at fresh b) ≡ false
unfolding held
held_fresh q fresh b h = ground (arith, go q.items h)
  where
    go : (items : List Item) → All (Below fresh) items → listed items (at fresh b) ≡ false
    go [] h = refl
    go (nil ∷ items) h = go items h.1
    go (at r c ∷ items) h = ground (arith, go items h.1)
