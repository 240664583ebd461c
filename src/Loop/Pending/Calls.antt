-- ===== src/Loop/Pending/Calls.antt =====
-- run.go: the calls that pending reports, with their reasons and notes, and how an output settles a
-- call.
use agentturn.Base.{
  ℕ, Bool, true, false, not, is_empty, List, [], ◌∷◌, ◌++◌, map, none, some, String, ◌==◌,
  String-Comparable, if◌then◌else◌, any, keep, contains, lookup, keep-append, append-nil,
  contains-append, ◌≡◌, refl, ap, ◌∙◌, arith, inl, inr, ◌⊎◌, Option-cases,
}
use agentturn.Items.{
  Item, nil, at, message, function_call, function_call_output, reasoning, other, call_id_of,
  output_id_of, same_item,
}
use agentturn.Loop.{Note, PendingCall, CallMarks, HandOff}
use agentturn.Loop.Pending.{
  unanswered_calls, answered, open_call, classify, pending, on_last, may_have_run, find_prior,
  carried, id_of,
}

-- Whether there is an output of the ID.
abbrev is_output : String → Item → Bool
is_output id (at r (function_call_output i output)) = i == id
is_output id _ = false

abbrev has_output : String → List Item → Bool
has_output id t = any (is_output id) t

-- Whether the item is a call without an output in the transcript.
abbrev pub is_open : List Item → Item → Bool
is_open t (at r (function_call id name arguments)) = not (has_output id t)
is_open t _ = false

abbrev pub notes_of : List PendingCall → List Note
notes_of [] = []
notes_of (p ∷ ps) = p.notes ++ notes_of ps

module _ (same_args : String → String → Bool) where
  classify-call :
      (m : CallMarks) (mine : Bool) (call : Item) → (classify same_args m mine call).call ≡ call
  unfolding classify carried
  classify-call m mine call = ground arith

  classify-notes :
      (m : CallMarks) (mine : Bool) (call : Item) → (classify same_args m mine call).notes ≡ []
  unfolding classify carried
  classify-notes m mine call = ground arith

  on_last-call :
      (notes : List Note) (ps : List PendingCall)
      → map (λ p. p.call) (on_last same_args notes ps) ≡ map (λ p. p.call) ps
  on_last-call notes [] = refl
  on_last-call notes (p ∷ []) = refl
  on_last-call notes (p ∷ q ∷ ps) = ap (◌∷◌ p.call) (on_last-call notes (q ∷ ps))

  classified-calls :
      (m : CallMarks) (mine : Item → Bool) (calls : List Item)
      → map (λ p. p.call) (map (λ call. classify same_args m (mine call) call) calls) ≡ calls
  classified-calls m mine [] = refl
  classified-calls m mine (call ∷ calls) =
      ground (arith, classify-call m (mine call) call, classified-calls m mine calls)

  on_last-notes :
      (m : CallMarks) (mine : Item → Bool) (notes : List Note) (calls : List Item)
      → notes_of
          (on_last same_args notes (map (λ call. classify same_args m (mine call) call) calls))
        ≡ (if is_empty calls then [] else notes)
  on_last-notes m mine notes [] = refl
  on_last-notes m mine notes (call ∷ []) = append-nil notes
  on_last-notes m mine notes (call ∷ next ∷ calls) =
      let rest = map (λ call. classify same_args m (mine call) call) (next ∷ calls) in
      ap (λ (ns : List Note). ns ++ notes_of (on_last same_args notes rest))
        (classify-notes m (mine call) call)
      ∙ on_last-notes m mine notes (next ∷ calls)

contains-answered : (id : String) (t : List Item) → contains (answered t) id ≡ has_output id t
unfolding answered contains
contains-answered id [] = refl
contains-answered id (nil ∷ t) = contains-answered id t
contains-answered id (at r (function_call_output i o) ∷ t) = ground (arith, contains-answered id t)
contains-answered id (at r (message role text) ∷ t) = contains-answered id t
contains-answered id (at r (function_call i n a) ∷ t) = contains-answered id t
contains-answered id (at r reasoning ∷ t) = contains-answered id t
contains-answered id (at r (other type c) ∷ t) = contains-answered id t

open_call-is_open : (t : List Item) (item : Item) → open_call (answered t) item ≡ is_open t item
open_call-is_open t nil = refl
open_call-is_open t (at r (function_call i n a)) = ap not (contains-answered i t)
open_call-is_open t (at r (function_call_output i o)) = refl
open_call-is_open t (at r (message role text)) = refl
open_call-is_open t (at r reasoning) = refl
open_call-is_open t (at r (other type c)) = refl

keep-is_open : (t u : List Item) → keep (open_call (answered t)) u ≡ keep (is_open t) u
keep-is_open t [] = refl
keep-is_open t (x ∷ u) = ground (arith, open_call-is_open t x, keep-is_open t u)

pub unanswered_calls-eq-keep : (t : List Item) → unanswered_calls t ≡ keep (is_open t) t
unfolding unanswered_calls
unanswered_calls-eq-keep t = keep-is_open t t

-- The calls that a run ends with open are exactly the calls of its transcript with no output of their
-- ID anywhere in it, before them or after them, as often and in the order they stand there, whatever
-- the run noted of them. The notes handed in are on them, once and in order, and no other note is;
-- where no call is open there are none.
pub pending-calls :
    (same_args : String → String → Bool) (m : CallMarks) (transcript added : List Item)
    (notes : List Note)
    → (map (λ p. p.call) (pending same_args m transcript added notes)
        ≡ keep (is_open transcript) transcript)
      × (notes_of (pending same_args m transcript added notes)
          ≡ (if is_empty (keep (is_open transcript) transcript) then [] else notes))
unfolding pending
pending-calls same_args m transcript added notes =
    let mine : Item → Bool = λ call. any (same_item call) added in
    let calls = unanswered_calls transcript in
    (
      on_last-call same_args notes _
          ∙ classified-calls same_args m mine calls
          ∙ unanswered_calls-eq-keep transcript,
      on_last-notes same_args m mine notes calls
          ∙ ap (λ (cs : List Item). if is_empty cs then [] else notes)
              (unanswered_calls-eq-keep transcript),
    )

answered-append : (t u : List Item) → answered (t ++ u) ≡ answered t ++ answered u
unfolding answered
answered-append [] u = refl
answered-append (x ∷ t) u = ground (arith, answered-append t u)

-- An item that is no output answers nothing.
abbrev pub added_call : List Item → Item → List Item
added_call t item = if open_call (answered t) item then item ∷ [] else []

-- The calls left open once the output of `id` is there.
abbrev pub others : String → List Item → List Item
others id calls = keep (λ c. not (id == id_of c)) calls

keep_answered :
    (ids : List String) (id : String) (t : List Item)
    → keep (open_call (ids ++ id ∷ [])) t ≡ others id (keep (open_call ids) t)
unfolding contains
keep_answered ids id [] = refl
keep_answered ids id (x ∷ t) = elim (Option-cases (call_id_of x)) [
  | inl e ↦ ground (arith, e, keep_answered ids id t)
  | inr (k, e) ↦ ground (arith, e, keep_answered ids id t, contains-append ids (id ∷ []) k)
]

-- An output at the end of a transcript settles every call of its ID, and no other.
pub unanswered_calls-output :
    (t : List Item) (ref : ℕ) (id output : String)
    → unanswered_calls (t ++ at ref (function_call_output id output) ∷ [])
      ≡ others id (unanswered_calls t)
unfolding unanswered_calls answered
unanswered_calls-output t ref id output = ground (
  arith,
  answered-append t (at ref (function_call_output id output) ∷ []),
  keep-append (open_call (answered t ++ id ∷ [])) t (at ref (function_call_output id output) ∷ []),
  keep_answered (answered t) id t,
  append-nil (keep (open_call (answered t ++ id ∷ [])) t),
)

-- A call at the end of a transcript is left open unless an output of its ID is there already; an
-- item that is neither a call nor an output changes nothing.
pub unanswered_calls-item :
    (t : List Item) (item : Item)
    → output_id_of item ≡ none
    → unanswered_calls (t ++ item ∷ []) ≡ unanswered_calls t ++ added_call t item
unfolding unanswered_calls answered
unanswered_calls-item t item e = ground (
  arith,
  e,
  answered-append t (item ∷ []),
  append-nil (answered t),
  keep-append (open_call (answered t)) t (item ∷ []),
)

-- A call that the run handed to its tool, or that may have run before, is reported as one that may
-- have run, unless the run deferred it.
pub classify-may_have_run :
    (same_args : String → String → Bool) (m : CallMarks) (mine : Bool) (call : Item)
    → lookup (id_of call) m.deferred_calls ≡ none
    → ((h : HandOff) × (lookup (id_of call) m.dispatched_calls ≡ some h))
      ⊎ ((p : PendingCall) × (find_prior (id_of call) m.prior ≡ some p) × (may_have_run p ≡ true))
    → may_have_run (classify same_args m mine call) ≡ true
unfolding classify carried may_have_run
classify-may_have_run same_args m mine call e h = elim h [
  | inl (x, d) ↦ ground (arith, e, d)
  | inr (p, f, k) ↦ elim (Option-cases (lookup (id_of call) m.dispatched_calls)) [
    | inl d ↦ ground (arith, e, d, f, k)
    | inr (x, d) ↦ ground (arith, e, d)
  ]
]
