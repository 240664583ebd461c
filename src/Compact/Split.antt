-- ===== src/Compact/Split.antt =====
-- compact/compact.go: where split makes the kept tail start.
use agentturn.Base.{
  ℕ, zero, suc, ◌+◌, ◌-◌, ◌≤◌, ◌<◌, ◌≡◌, refl, sym, ap, ◌∙◌, subst, ◌⊎◌, inl, inr, false, List, [],
  ◌∷◌, Option, none, some, String, ◌==◌, String-Comparable, Nat-Comparable, arith, Bool-cases,
  Option-cases, by_if, by_option, nat_eq_iff, ltb, length, take, get_elem?, get_or_else, is_some,
  lookup, insert,
}
use agentturn.Items.{Item, call_id_of, output_id_of}
use agentturn.Compact.{Config, first_calls, move_to, split_from, split}

-- A call of the ID is remembered, no later than at `k`.
abbrev Known : List (String × ℕ) → String → ℕ → Type 0
Known calls id k = (at : ℕ) × (lookup id calls ≡ some at) × (at ≤ k)

insert-keeps :
    (known : String) (i : ℕ) (calls : List (String × ℕ)) (id : String) (at : ℕ)
    → is_some (lookup known calls) ≡ false
    → lookup id calls ≡ some at
    → lookup id (insert known i calls) ≡ some at
unfolding lookup insert
insert-keeps known i calls id at fresh h = elim (Bool-cases (known == id)) [
  | inl e ↦
      let same : known ≡ id = (String-Comparable.tells_apart known id).0 e in
      ground (arith, fresh, ap (λ j. is_some (lookup j calls)) same, ap is_some h)
  | inr e ↦ ground (arith, e, h)
]

-- A table that remembers an earlier call keeps it.
first_calls-keeps :
    (i : ℕ) (items : List Item) (calls : List (String × ℕ)) (id : String) (at : ℕ)
    → lookup id calls ≡ some at
    → lookup id (first_calls i items calls) ≡ some at
unfolding first_calls
first_calls-keeps i [] calls id at h = h
first_calls-keeps i (item ∷ items) calls id at h =
    by_option (λ table. lookup id table ≡ some at) (call_id_of item)
      (λ e. first_calls-keeps (suc i) items calls id at h)
      (λ known e.
        by_if (λ table. lookup id (first_calls (suc i) items table) ≡ some at)
          (is_some (lookup known calls)) (λ seen. first_calls-keeps (suc i) items calls id at h)
          (λ fresh.
            first_calls-keeps (suc i) items (insert known i calls) id at
              (insert-keeps known i calls id at fresh h)))

-- No call of the ID is remembered past `n`.
abbrev Bounded : String → ℕ → List (String × ℕ) → Type 0
Bounded id n calls = (at : ℕ) → lookup id calls ≡ some at → at ≤ n

insert-Bounded :
    (known : String) (i : ℕ) (calls : List (String × ℕ)) (id : String) (n : ℕ)
    → i ≤ n
    → Bounded id n calls
    → Bounded id n (insert known i calls)
unfolding lookup insert
insert-Bounded known i calls id n small before at h = elim (Bool-cases (known == id)) [
  | inl e ↦ ground (arith, small, e, h)
  | inr e ↦ before at (ground (arith, e, h))
]

lookup-inserted :
    (id : String) (i : ℕ) (calls : List (String × ℕ)) → lookup id (insert id i calls) ≡ some i
unfolding lookup insert
lookup-inserted id i calls = elim (Bool-cases (id == id)) [
  | inl e ↦ ground (arith, e)
  | inr e ↦ ground (arith, e, (String-Comparable.tells_apart id id).1 refl)
]

-- A call that is met is remembered, or an earlier one of its ID is.
first_calls-Known :
    (i : ℕ) (items : List Item) (calls : List (String × ℕ)) (id : String) (k : ℕ) (item : Item)
    → get_elem? items k ≡ some item
    → call_id_of item ≡ some id
    → Bounded id (i + k) calls
    → Known (first_calls i items calls) id (i + k)
unfolding first_calls
first_calls-Known i [] calls id k item here call before = ground (arith, here)
first_calls-Known i (x ∷ items) calls id zero item here call before =
    let same : call_id_of x ≡ some id = ap (λ o. call_id_of (get_or_else o x)) here ∙ call in
    by_option (λ table. Known table id (i + 0)) (call_id_of x) (λ e. ground (arith, sym e ∙ same))
      (λ known e.
        let named : known ≡ id = ap (λ o. get_or_else o known) (sym e ∙ same) in
        by_if (λ table. Known (first_calls (suc i) items table) id (i + 0))
          (is_some (lookup known calls))
          (λ seen. elim (Option-cases (lookup id calls)) [
            | inl f ↦ ground (arith, seen, ap (λ j. is_some (lookup j calls)) named, ap is_some f)
            | inr (at, f) ↦ (at, first_calls-keeps (suc i) items calls id at f, before at f)
          ])
          (λ fresh. (
            i,
            first_calls-keeps (suc i) items (insert known i calls) id i (
                subst (λ j. lookup j (insert known i calls) ≡ some i) named
                  (lookup-inserted known i calls)),
            omega arith,
          )))
first_calls-Known i (x ∷ items) calls id (suc k) item here call before =
    let later : (table : List (String × ℕ))
        → Bounded id (i + suc k) table
        → Known (first_calls (suc i) items table) id (i + suc k) =
      λ table bounded. subst (Known (first_calls (suc i) items table) id) (omega arith) (
        first_calls-Known (suc i) items table id k item here call
          (λ at h. omega (arith, bounded at h))) in
    by_option (λ table. Known table id (i + suc k)) (call_id_of x) (λ e. later calls before)
      (λ known e.
        by_if (λ table. Known (first_calls (suc i) items table) id (i + suc k))
          (is_some (lookup known calls)) (λ seen. later calls before)
          (λ fresh.
            later (insert known i calls)
              (insert-Bounded known i calls id (i + suc k) (omega arith) before)))

-- Every output met so far is in the tail with its call.
abbrev Joined : List (String × ℕ) → List Item → ℕ → ℕ → Type 0
Joined calls items i at =
    (k : ℕ) (item : Item) (id : String) (call : ℕ)
    → i ≤ k
    → get_elem? items k ≡ some item
    → output_id_of item ≡ some id
    → lookup id calls ≡ some call
    → at ≤ call

move_to-least : (calls : List (String × ℕ)) (o : Option Item) (at : ℕ) → move_to calls o at ≤ at
move_to-least calls none at = omega arith
move_to-least calls (some item) at =
    by_option (λ n. n ≤ at) (output_id_of item) (λ e. omega arith)
      (λ id e.
        by_option (λ n. n ≤ at) (lookup id calls) (λ e. omega arith)
          (λ call e. by_if (λ n. n ≤ at) (ltb call at) (λ b. ground (arith, b)) (λ b. omega arith)))

move_to-call :
    (calls : List (String × ℕ)) (item : Item) (id : String) (call at : ℕ)
    → output_id_of item ≡ some id
    → lookup id calls ≡ some call
    → move_to calls (some item) at ≤ call
move_to-call calls item id call at o l =
    by_option (λ n. n ≤ call) (output_id_of item) (λ e. ground (arith, sym e ∙ o))
      (λ id' e.
        let named : id' ≡ id = ap (λ q. get_or_else q id') (sym e ∙ o) in
        by_option (λ n. n ≤ call) (lookup id' calls)
          (λ f. ground (arith, sym f ∙ ap (λ j. lookup j calls) named ∙ l))
          (λ c f.
            let same : c ≡ call =
              ap (λ q. get_or_else q c) (sym f ∙ ap (λ j. lookup j calls) named ∙ l) in
            by_if (λ n. n ≤ call) (ltb c at) (λ b. omega (arith, same))
              (λ b. ground (arith, b, same))))

split_from-Joined :
    (calls : List (String × ℕ)) (items : List Item) (i at : ℕ)
    → Joined calls items i at
    → Joined calls items (split_from calls items i at) (split_from calls items i at)
      × (split_from calls items i at ≤ at)
unfolding split_from
split_from-Joined calls items zero at joined =
    (λ k item id call from. joined k item id call (omega arith), omega arith)
split_from-Joined calls items (suc i) at joined =
    by_if (λ n. Joined calls items n n × (n ≤ at)) (ltb i at)
      (λ b. (λ k item id call from. joined k item id call (ground (arith, b, from)), omega arith))
      (λ b.
        let at' = move_to calls (get_elem? items i) at in
        let met : Joined calls items i at' = (λ k item id call from here o l.
          elim (Bool-cases (k == i)) [
            | inl e ↦
                subst (λ q. move_to calls q at ≤ call)
                  (sym (ap (get_elem? items) (sym ((nat_eq_iff k i).0 e)) ∙ here))
                  (move_to-call calls item id call at o l)
            | inr e ↦ omega (
              arith,
              move_to-least calls (get_elem? items i) at,
              joined k item id call (ground (arith, from, e, nat_eq_iff k i)) here o l,
            )
          ]) in
        let (tail, least) = split_from-Joined calls items i at' met in
        (tail, omega (arith, least, move_to-least calls (get_elem? items i) at)))

get_elem?-take :
    {A : Type 0} (n : ℕ) (xs : List A) (j : ℕ) → j < n → get_elem? (take n xs) j ≡ get_elem? xs j
get_elem?-take zero xs j b = ground (arith, b)
get_elem?-take (suc n) [] j b = refl
get_elem?-take (suc n) (x ∷ xs) zero b = refl
get_elem?-take (suc n) (x ∷ xs) (suc j) b = get_elem?-take n xs j (omega (arith, b))

get_elem?-past : {A : Type 0} (xs : List A) (k : ℕ) → length xs ≤ k → get_elem? xs k ≡ none
get_elem?-past [] k b = refl
get_elem?-past (x ∷ xs) zero b = ground (arith, b)
get_elem?-past (x ∷ xs) (suc k) b = get_elem?-past xs k (omega (arith, b))

lt_or_le : (j n : ℕ) → (j < n) ⊎ (n ≤ j)
lt_or_le j n = elim (Bool-cases (ltb j n)) [
  | inl e ↦ inl (ground (arith, e))
  | inr e ↦ inr (ground (arith, e))
]

pub split-least : (t : Config) (items : List Item) → split t items ≤ length items - t.keep_last
unfolding split
split-least t items =
    let at = length items - t.keep_last in
    let known = first_calls 0 (take at items) [] in
    let start : Joined known items (length items) at =
      λ k item id c past found. ground (arith, past, found, get_elem?-past items k past) in
    (split_from-Joined known items (length items) at start).1

-- The kept tail starts no later than `keep_last` items from the end, and the call of an output in it,
-- wherever that stands in the transcript, is in the tail too.
pub split-tail :
    (t : Config) (items : List Item) (i j : ℕ) (output call : Item) (id : String)
    → split t items ≤ i
    → get_elem? items i ≡ some output
    → output_id_of output ≡ some id
    → get_elem? items j ≡ some call
    → call_id_of call ≡ some id
    → (split t items ≤ j) × (split t items ≤ length items - t.keep_last)
unfolding split lookup
split-tail t items i j output call id tail here answers there calls =
    let at = length items - t.keep_last in
    let known = first_calls 0 (take at items) [] in
    let start : Joined known items (length items) at =
      λ k item id c past found. ground (arith, past, found, get_elem?-past items k past) in
    let (joined, least) = split_from-Joined known items (length items) at start in
    (
      elim (lt_or_le j at) [
        | inl before ↦
            let (c, seen, early) =
              first_calls-Known 0 (take at items) [] id j call
                (get_elem?-take at items j before ∙ there) calls (λ c h. ground (arith, h)) in
            omega (arith, early, joined i output id c tail here answers seen)
        | inr after ↦ omega (arith, after, least)
      ],
      least,
    )
