-- ===== src/Persons/Laws.antt =====
-- persons.go: which messages are a person's after the maps are merged and pruned.
use agentturn.Base.{
  ℕ, Bool, false, ◌&&◌, ◌||◌, List, [], ◌∷◌, none, some, contains, add_key, contains-add_key, any,
  ◌≡◌, refl, arith, Nat-Comparable, ◌==◌, Option-cases, Bool-cases, inl, inr,
}
use agentturn.Items.{Item}
use agentturn.Persons.{PersonMessages, message_ref, has, merged, retain_from, retain}

abbrev is_message_at : ℕ → Item → Bool
is_message_at r item = elim (message_ref item) [ none ↦ false | some s ↦ s == r ]

abbrev pub holds_message : ℕ → List Item → Bool
holds_message r t = any (is_message_at r) t

merged-contains :
    (m more : PersonMessages) (r : ℕ)
    → contains (merged m more) r ≡ (contains more r || contains m r)
unfolding merged contains
merged-contains m [] r = refl
merged-contains m (s ∷ more) r =
    ground (arith, contains-add_key s r (merged m more), merged-contains m more r)

retain_from-contains :
    (m out : PersonMessages) (t : List Item) (r : ℕ)
    → contains (retain_from m out t) r ≡ (contains out r || (holds_message r t && contains m r))
unfolding retain_from has
retain_from-contains m out [] r = ground arith
retain_from-contains m out (item ∷ t) r = elim (Option-cases (message_ref item)) [
  | inl e ↦ ground (arith, e, retain_from-contains m out t r)
  | inr (s, e) ↦ elim (Bool-cases (contains m s)) [
    | inl k ↦ elim (Bool-cases (s == r)) [
      | inl q ↦ ground (
        arith,
        e,
        k,
        q,
        retain_from-contains m (add_key s out) t r,
        contains-add_key s r out,
        Nat-Comparable.tells_apart s r,
      )
      | inr q ↦
          ground
            (arith, e, k, q, retain_from-contains m (add_key s out) t r, contains-add_key s r out)
    ]
    | inr k ↦ elim (Bool-cases (s == r)) [
      | inl q ↦
          ground (arith, e, k, q, retain_from-contains m out t r, Nat-Comparable.tells_apart s r)
      | inr q ↦ ground (arith, e, k, q, retain_from-contains m out t r)
    ]
  ]
]

-- After two maps are merged and pruned to a transcript, a message counts as a person's exactly when
-- either map had it and the transcript still holds it.
pub retain-merged-contains :
    (m more : PersonMessages) (t : List Item) (r : ℕ)
    → contains (retain (merged m more) t) r
      ≡ (holds_message r t && (contains more r || contains m r))
unfolding retain contains
retain-merged-contains m more t r =
    ground (arith, retain_from-contains (merged m more) [] t r, merged-contains m more r)
