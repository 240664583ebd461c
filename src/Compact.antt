-- ===== src/Compact.antt =====
-- compact/compact.go: the transform that folds the older part of a transcript: Transform with view,
-- split, backOff, pinned and join, and FoldNext. The fold's model call, the estimators, the filter,
-- the pin and the hash of a prefix are parameters. The fold runs unlocked: what other callers do to
-- the memory meanwhile is a parameter too. Bounds and budgets are not negative here.
pub mod Split
pub mod Fold
pub mod Remembered
mod Tests
use agentturn.Base.{
  ℕ, zero, suc, ◌+◌, ◌-◌, ◌*◌, ◌/◌, max, min, Bool, true, false, not, ◌&&◌, ◌||◌, List, [], ◌∷◌,
  ◌++◌, reverse, Option, none, some, String, Result, ok, err, ◌==◌, String-Comparable,
  Nat-Comparable, if◌then◌else◌, ltb, leb, length, take, drop, get_elem?, is_empty, is_some, any,
  lookup, insert,
}
use agentturn.Items.{Item, call_id_of, output_id_of}
use agentturn.Persons.{PersonMessages, has}

-- What a Transform is set up with.
pub record Config : Type 0 where
  pub budget : ℕ
  pub keep_last : ℕ
  pub min_fold : ℕ
  pub estimate : List Item → ℕ
  pub filter : List Item → List Item
  pub pin : Option (Item → Bool)
  pub person_bound : ℕ
  pub person_total : Option ℕ
  pub no_back_off : Bool
  -- PrefixHash, empty where the items do not marshal; the length of an item's JSON.
  pub prefix_hash : List Item → String
  pub json_size : Item → Option ℕ

-- What a Transform remembers.
pub record Memory : Type 0 where
  pub next : Bool
  pub next_instructions : String
  pub prefix_len : ℕ
  pub prefix_hash : String
  pub prefix_gen : ℕ
  pub output : List Item
  pub last : Option Item
  pub fail_len : ℕ
  pub fail_hash : String
  pub fail_tokens : ℕ

-- The quarantine of the run, as its context shows it.
pub record QuarantineView : Type 0 where
  pub generation : ℕ
  pub has : Item → Bool
  pub apply : List Item → List Item

unfoldable pub fold_next : String → Memory → Memory
fold_next instructions t = record t { next = true; next_instructions = instructions }

-- The first call of an ID, of the items from index `i` on.
unfoldable pub first_calls : ℕ → List Item → List (String × ℕ) → List (String × ℕ)
first_calls i [] calls = calls
first_calls i (item ∷ items) calls = elim (call_id_of item) [
  | none ↦ first_calls (suc i) items calls
  | some id ↦
      first_calls (suc i) items (if is_some (lookup id calls) then calls else insert id i calls)
]

-- Where the call of the output at `i` makes the tail start.
abbrev pub move_to : List (String × ℕ) → Option Item → ℕ → ℕ
move_to calls none at = at
move_to calls (some item) at = elim (output_id_of item) [
  | none ↦ at
  | some id ↦ elim (lookup id calls) [ none ↦ at | some call ↦ if ltb call at then call else at ]
]

-- The walk back: the items before `i` are still to be met.
unfoldable pub split_from : List (String × ℕ) → List Item → ℕ → ℕ → ℕ
split_from calls items zero at = at
split_from calls items (suc i) at =
    let rest = split_from calls items i (move_to calls (get_elem? items i) at) in
    if ltb i at then at else rest

module _ (t : Config) where
  unfoldable pub split : List Item → ℕ
  unfolding split_from first_calls
  split items =
      let at = length items - t.keep_last in
      split_from (first_calls 0 (take at items) []) items (length items) at

  unfoldable pub back_off : List Item → ℕ → ℕ → Memory → Bool
  back_off items at tokens m =
      if t.no_back_off || m.fail_hash == "" || ltb (length items) m.fail_len
      then false
      else if leb (m.fail_len + max t.keep_last 1) at
          || leb (m.fail_tokens + max (t.budget / 4) 1) tokens
      then false
      else t.prefix_hash (take m.fail_len items) == m.fail_hash

  unfoldable pub quarantined_since : List Item → QuarantineView → Memory → Bool × Memory
  quarantined_since prefix q m =
      if q.generation == m.prefix_gen
      then (false, m)
      else if any q.has prefix
      then (true, m)
      else (false, record m { prefix_gen = q.generation })

  abbrev pub join : List Item → ℕ → Memory → List Item
  join items n m = m.output ++ drop n items

  abbrev forgotten : Memory → Memory
  forgotten m = record m { prefix_len = 0; prefix_hash = ""; output = [] }

  abbrev pub is_remembered : List Item → Memory → Bool
  is_remembered items m =
      not (m.prefix_hash == "")
      && ltb 0 m.prefix_len
      && leb m.prefix_len (length items)
      && t.prefix_hash (take m.prefix_len items) == m.prefix_hash

  unfoldable pub view : List Item → QuarantineView → Memory → (List Item × ℕ) × Memory
  unfolding quarantined_since
  view items q m =
      let (grown, m') = quarantined_since (take m.prefix_len items) q m in
      let whole : (List Item × ℕ) × Memory = ((items, 0), forgotten m) in
      if is_remembered items m
      then if grown then whole else ((join items m.prefix_len m, m.prefix_len), m')
      else whole

  unfoldable pub keeps_person : PersonMessages → Item → Bool
  keeps_person persons item =
      if t.person_bound == 0 || not (has persons item)
      then false
      else elim (t.json_size item) [ none ↦ false | some n ↦ leb n t.person_bound ]

  unfoldable pub person_total_of : ℕ → ℕ
  person_total_of settings =
      min (elim t.person_total [ none ↦ t.budget / 4 | some n ↦ n ]) ((t.budget - settings) / 2)

  -- The person's messages kept, newest first, until the next would pass the total.
  unfoldable pub keep_newest : PersonMessages → ℕ → ℕ → List Item → List Bool
  unfolding keeps_person
  keep_newest persons total used [] = []
  keep_newest persons total used (item ∷ older) =
      let used' = used + t.estimate (item ∷ []) in
      let skipped = keep_newest persons total used older in
      let kept = keep_newest persons total used' older in
      if not (keeps_person persons item)
      then false ∷ skipped
      else if ltb total used'
      then []
      else true ∷ kept

  abbrev pub pins : Item → Bool
  pins item = elim t.pin [ none ↦ false | some pin ↦ pin item ]

  -- `flags` may end early: what is past them is not kept.
  unfoldable pub pick : List Bool → List Item → List Item
  pick flags [] = []
  pick [] (item ∷ items) = let rest = pick [] items in if pins item then item ∷ rest else rest
  pick (k ∷ flags) (item ∷ items) =
      let rest = pick flags items in if pins item || k then item ∷ rest else rest

  unfoldable pub pinned : List Item → PersonMessages → ℕ → List Item
  unfolding person_total_of keep_newest pick
  pinned prefix persons settings =
      let total = person_total_of settings in
      let newest = reverse (t.filter prefix) in
      let flags = if ltb 0 total then keep_newest persons total 0 newest else [] in
      if not (is_some t.pin) && (is_empty persons || t.person_bound == 0 || total == 0)
      then []
      else reverse (pick flags newest)
