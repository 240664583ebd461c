-- ===== src/Agent/Notes/Derived.antt =====
-- agent.go: what SetTranscript derives: the calls that are pending, and what stays known of each.
use agentturn.Base.{
  ℕ, zero, suc, Bool, true, false, ◌&&◌, List, [], ◌∷◌, ◌++◌, map, keep, any, none, some, String,
  ◌==◌, String-Comparable, All, ◌≡◌, refl, sym, ap, ◌∙◌, subst, arith, Bool-cases, Option-cases,
  List-cases, inl, inr, ◌⊎◌,
}
use agentturn.Items.{Item, call_id_of}
use agentturn.Loop.{Note, PendingCall, PendingReason, unknown}
use agentturn.Loop.Pending.{id_of, name_of, arguments_of, unanswered_calls}
use agentturn.Loop.Pending.Calls.{is_open, unanswered_calls-eq-keep}
use agentturn.Agent.Notes.{
  live_notes, find_known, merge_one, merge_pending, all_notes, known_ids, last_known, without_notes,
  write_notes, keep_notes, pending_calls, derive_pending,
}

merge_one-call : (known : List PendingCall) (p : PendingCall) → (merge_one known p).call ≡ p.call
unfolding merge_one
merge_one-call known p = elim (Option-cases (find_known (id_of p.call) known)) [
  | inl e ↦ ground (arith, e)
  | inr (q, e) ↦ ground (arith, e)
]

merge_pending-calls :
    (known pending : List PendingCall)
    → map (λ p. p.call) (merge_pending pending known) ≡ map (λ p. p.call) pending
unfolding merge_pending
merge_pending-calls known [] = refl
merge_pending-calls known (p ∷ pending) =
    ground (arith, merge_one-call known p, merge_pending-calls known pending)

without_notes-calls :
    (pending : List PendingCall)
    → map (λ p. p.call) (without_notes pending) ≡ map (λ p. p.call) pending
without_notes-calls [] = refl
without_notes-calls (p ∷ pending) = ap (◌∷◌ p.call) (without_notes-calls pending)

write_notes-calls :
    (k : ℕ) (notes : List Note) (pending : List PendingCall)
    → map (λ p. p.call) (write_notes k notes pending) ≡ map (λ p. p.call) pending
unfolding write_notes
write_notes-calls k notes [] = refl
write_notes-calls zero notes (p ∷ pending) = refl
write_notes-calls (suc k) notes (p ∷ pending) = ap (◌∷◌ p.call) (write_notes-calls k notes pending)

keep_notes-calls :
    (pending known : List PendingCall)
    → map (λ p. p.call) (keep_notes pending known) ≡ map (λ p. p.call) pending
unfolding keep_notes
keep_notes-calls pending known = elim (Option-cases (last_known (known_ids known) 0 none pending)) [
  | inl e ↦ ground (arith, e, without_notes-calls pending)
  | inr (k, e) ↦ ground (
    arith,
    e,
    without_notes-calls pending,
    write_notes-calls k (all_notes known) (without_notes pending),
  )
]

pending_calls-calls :
    (reason : PendingReason) (calls : List Item)
    → map (λ p. p.call) (pending_calls reason calls) ≡ calls
pending_calls-calls reason [] = refl
pending_calls-calls reason (call ∷ calls) = ap (◌∷◌ call) (pending_calls-calls reason calls)

abbrev has_id : String → PendingCall → Bool
has_id id q = elim (call_id_of q.call) [ none ↦ false | some i ↦ i == id ]

abbrev same_call : PendingCall → PendingCall → Bool
same_call q p = name_of q.call == name_of p.call && arguments_of q.call == arguments_of p.call

-- Nothing is known of the call.
abbrev pub Fresh : PendingCall → Type 0
Fresh p = (p.reason ≡ unknown) × (p.dispatched ≡ false) × (p.idempotency_key ≡ "") × (p.args ≡ none)

-- What was known of `q` is known of `p`.
abbrev pub Keeps : PendingCall → PendingCall → Type 0
Keeps q p =
    (p.reason ≡ q.reason)
    × (p.dispatched ≡ q.dispatched)
    × (p.idempotency_key ≡ q.idempotency_key)
    × (p.args ≡ q.args)

-- `q` is the last of its ID in `known`.
abbrev pub IsLast : List PendingCall → String → PendingCall → Type 0
IsLast known id q =
    (before : List PendingCall) × (after : List PendingCall) × (known ≡ before ++ q ∷ after)
    × (has_id id q ≡ true)
    × (any (has_id id) after ≡ false)

-- What is to be known of a pending call, from the calls known before.
abbrev pub Known : List PendingCall → PendingCall → Type 0
Known known p =
    ((any (has_id (id_of p.call)) known ≡ false) × Fresh p)
    ⊎ ((q : PendingCall) × IsLast known (id_of p.call) q
        × (((same_call q p ≡ true) × Keeps q p) ⊎ ((same_call q p ≡ false) × Fresh p)))

find_known-none :
    (id : String) (known : List PendingCall)
    → find_known id known ≡ none
    → any (has_id id) known ≡ false
unfolding find_known
find_known-none id [] e = refl
find_known-none id (q ∷ known) e = elim (Option-cases (find_known id known)) [
  | inr (r, f) ↦ absurd (ground (arith, e, f))
  | inl f ↦ elim (Option-cases (call_id_of q.call)) [
    | inl c ↦ ground (arith, e, f, c, find_known-none id known f)
    | inr (i, c) ↦ elim (Bool-cases (i == id)) [
      | inl b ↦ absurd (ground (arith, e, f, c, b))
      | inr b ↦ ground (arith, e, f, c, b, find_known-none id known f)
    ]
  ]
]

IsLast-later :
    (id : String) (p q : PendingCall) (known : List PendingCall)
    → IsLast known id q
    → IsLast (p ∷ known) id q
IsLast-later id p q known (before, after, e, has, last) =
    (p ∷ before, after, ap (◌∷◌ p) e, has, last)

IsLast-here :
    (id : String) (p q : PendingCall) (known : List PendingCall)
    → p ≡ q
    → has_id id p ≡ true
    → any (has_id id) known ≡ false
    → IsLast (p ∷ known) id q
IsLast-here id p q known e has none_later =
    ([], known, ap (λ r. r ∷ known) e, ap (has_id id) (sym e) ∙ has, none_later)

find_known-IsLast :
    (id : String) (known : List PendingCall) (q : PendingCall)
    → find_known id known ≡ some q
    → IsLast known id q
unfolding find_known
find_known-IsLast id [] q e = absurd (ground (arith, e))
find_known-IsLast id (p ∷ known) q e = elim (Option-cases (find_known id known)) [
  | inr (r, f) ↦ IsLast-later id p q known (find_known-IsLast id known q (ground (arith, e, f)))
  | inl f ↦ elim (Option-cases (call_id_of p.call)) [
    | inl c ↦ absurd (ground (arith, e, f, c))
    | inr (i, c) ↦ elim (Bool-cases (i == id)) [
      | inl b ↦
          IsLast-here id p q known (ground (arith, e, f, c, b)) (ground (arith, c, b))
            (find_known-none id known f)
      | inr b ↦ absurd (ground (arith, e, f, c, b))
    ]
  ]
]

merge_one-Known :
    (known : List PendingCall) (p : PendingCall) → Fresh p → Known known (merge_one known p)
unfolding merge_one
merge_one-Known known p fresh =
    let as_it_is : merge_one known p ≡ p → Known known p → Known known (merge_one known p) =
      λ e k. subst (Known known) (sym e) k in
    elim (Option-cases (find_known (id_of p.call) known)) [
      | inl e ↦ as_it_is (ground (arith, e)) (inl (find_known-none (id_of p.call) known e, fresh))
      | inr (q, e) ↦
          let last = find_known-IsLast (id_of p.call) known q e in
          let kept : PendingCall = record q { call = p.call; notes = live_notes q.notes } in
          let merged : same_call q p ≡ true → merge_one known p ≡ kept =
            λ b. ground (arith, e, b) in
          elim (Bool-cases (same_call q p)) [
            | inl b ↦
                subst (Known known) (sym (merged b))
                  (inr (q, last, inl (b, (refl, refl, refl, refl))))
            | inr b ↦ as_it_is (ground (arith, e, b)) (inr (q, last, inr (b, fresh)))
          ]
    ]

merge_pending-Known :
    (known : List PendingCall) (calls : List Item)
    → All (Known known) (merge_pending (pending_calls unknown calls) known)
unfolding merge_pending
merge_pending-Known known [] = tt
merge_pending-Known known (call ∷ calls) =
    let fresh : PendingCall = record {
      call = call;
      reason = unknown;
      dispatched = false;
      idempotency_key = "";
      args = none;
      notes = [];
    } in
    (merge_one-Known known fresh (refl, refl, refl, refl), merge_pending-Known known calls)

module _ (known : List PendingCall) where
  without_notes-Known :
      (ps : List PendingCall) → All (Known known) ps → All (Known known) (without_notes ps)
  without_notes-Known [] all = tt
  without_notes-Known (p ∷ ps) (k, all) = (k, without_notes-Known ps all)

  write_notes-Known :
      (i : ℕ) (notes : List Note) (ps : List PendingCall)
      → All (Known known) ps
      → All (Known known) (write_notes i notes ps)
  unfolding write_notes
  write_notes-Known i notes [] all = tt
  write_notes-Known zero notes (p ∷ ps) (k, all) = (k, all)
  write_notes-Known (suc i) notes (p ∷ ps) (k, all) = (k, write_notes-Known i notes ps all)

  keep_notes-Known :
      (ps : List PendingCall) → All (Known known) ps → All (Known known) (keep_notes ps known)
  unfolding keep_notes
  keep_notes-Known ps all =
      let bare = without_notes-Known ps all in
      let Good : List PendingCall → Type 0 = λ qs. All (Known known) qs in
      elim (Option-cases (last_known (known_ids known) 0 none ps)) [
        | inl e ↦
            let same : keep_notes ps known ≡ without_notes ps = ground (arith, e) in
            subst Good (sym same) bare
        | inr (i, e) ↦ elim (List-cases (all_notes known)) [
          | inl n ↦
              let same : keep_notes ps known ≡ without_notes ps = ground (arith, e, n) in
              subst Good (sym same) bare
          | inr (n, ns, m) ↦
              let written : keep_notes ps known
                  ≡ write_notes i (all_notes known) (without_notes ps) =
                ground (arith, e, m) in
              subst Good (sym written)
                (write_notes-Known i (all_notes known) (without_notes ps) bare)
        ]
      ]

-- After a new transcript, the pending calls are exactly its calls with no output of their ID anywhere
-- in it, in its order. One stays known as it was, with its reason, its hand-off and its arguments, when
-- the last call known before under its ID has its name and arguments; of any other nothing is known.
pub derive_pending-Known :
    (t : List Item) (known : List PendingCall)
    → (map (λ p. p.call) (derive_pending t known) ≡ keep (is_open t) t)
      × All (Known known) (derive_pending t known)
unfolding derive_pending
derive_pending-Known t known = (
  keep_notes-calls _ known
      ∙ merge_pending-calls known _
      ∙ pending_calls-calls unknown (unanswered_calls t)
      ∙ unanswered_calls-eq-keep t,
  keep_notes-Known known _ (merge_pending-Known known (unanswered_calls t)),
)
