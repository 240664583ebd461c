-- ===== src/Compact/Remembered.antt =====
-- compact/compact.go: a later call is answered from the fold that Transform remembers.
use agentturn.Base.{
  none, by_if, ltb, leb, sym, subst, ℕ, zero, suc, ◌+◌, ◌≤◌, ◌<◌, ◌≡◌, refl, ap, ◌∙◌, Bool, true,
  false, not, ◌&&◌, ◌||◌, max, ◌/◌, List, [], ◌∷◌, ◌++◌, String, ◌==◌, String-Comparable,
  Nat-Comparable, arith, length, take, drop, nat_eq_iff, length-append, append_assoc,
}
use agentturn.Items.{Item}
use agentturn.Compact.{
  Config, Memory, QuarantineView, back_off, split, view, join, pinned, quarantined_since,
  is_remembered,
}
use agentturn.Compact.Fold.{Folded, Request, FoldEnv, remember, fold_failed, failed_report}
use agentturn.Compact.Split.{split-least}

take-grown : {A : Type 0} (n : ℕ) (xs ys : List A) → n ≤ length xs → take n (xs ++ ys) ≡ take n xs
take-grown zero xs ys b = refl
take-grown (suc n) [] ys b = ground (arith, b)
take-grown (suc n) (x ∷ xs) ys b = ap (◌∷◌ x) (take-grown n xs ys (omega (arith, b)))

quarantined_since-same :
    (t : Config) (prefix : List Item) (q : QuarantineView) (m : Memory)
    → q.generation ≡ m.prefix_gen
    → quarantined_since t prefix q m ≡ (false, m)
unfolding quarantined_since
quarantined_since-same t prefix q m e = ground (arith, e, nat_eq_iff q.generation m.prefix_gen)

view-remembered :
    (t : Config) (items : List Item) (q : QuarantineView) (m : Memory)
    → is_remembered t items m ≡ true
    → quarantined_since t (take m.prefix_len items) q m ≡ (false, m)
    → view t items q m ≡ ((join t items m.prefix_len m, m.prefix_len), m)
unfolding view
view-remembered t items q m e f = ground (arith, e, f)

and_true : {a b : Bool} → a ≡ true → b ≡ true → (a && b) ≡ true
and_true e f = ground (arith, e, f)

eq_refl : (s : String) → (s == s) ≡ true
eq_refl s = (String-Comparable.tells_apart s s).1 refl

module _ {W Err : Type 0} (t : Config) (env : FoldEnv W Err) (a : Request) (items more : List Item)
    (f : Folded) (m : Memory) (q : QuarantineView) where
  view-remember_split :
      0 < split t items
      → (t.prefix_hash (take (split t items) items) == "") ≡ false
      → q.generation ≡ a.quarantine.generation
      → view t (items ++ more) q (remember t env a items f m) ≡ (
        (join t (items ++ more) (split t items) (remember t env a items f m), split t items),
        remember t env a items f m,
      )
  unfolding remember
  view-remember_split some_part hashed same =
      let n = split t items in
      let mem = remember t env a items f m in
      let fits : n ≤ length items = omega (arith, split-least t items) in
      let prefix : take n (items ++ more) ≡ take n items = take-grown n items more fits in
      view-remembered t (items ++ more) q mem
        (and_true
          (and_true (and_true (ap not hashed) (ground (arith, some_part)))
            (ground (arith, fits, length-append items more)))
          (ap (λ (p : List Item). t.prefix_hash p == t.prefix_hash (take n items)) prefix
            ∙ eq_refl (t.prefix_hash (take n items))))
        (quarantined_since-same t (take n (items ++ more)) q mem same)

take-prefix : {A : Type 0} (xs ys : List A) → take (length xs) (xs ++ ys) ≡ xs
take-prefix [] [] = refl
take-prefix [] (y ∷ ys) = refl
take-prefix (x ∷ xs) ys = ap (◌∷◌ x) (take-prefix xs ys)

drop-prefix : {A : Type 0} (xs ys : List A) → drop (length xs) (xs ++ ys) ≡ ys
drop-prefix [] ys = refl
drop-prefix (x ∷ xs) ys = drop-prefix xs ys

module _ {W Err : Type 0} (t : Config) (env : FoldEnv W Err) (a : Request)
    (prefix rest more : List Item) (f : Folded) (m : Memory) where
  join-remember :
      split t (prefix ++ rest) ≡ length prefix
      → join t ((prefix ++ rest) ++ more) (length prefix) (remember t env a (prefix ++ rest) f m)
        ≡ f.output ++ (pinned t prefix a.persons a.settings ++ (rest ++ more))
  unfolding remember
  join-remember cut =
      let folded : List Item → List Item → List Item =
        λ p tail. (f.output ++ pinned t p a.persons a.settings) ++ tail in
      ap (λ n. folded (take n (prefix ++ rest)) (drop (length prefix) ((prefix ++ rest) ++ more)))
        cut
      ∙ ap (λ p. folded p (drop (length prefix) ((prefix ++ rest) ++ more)))
          (take-prefix prefix rest)
      ∙ ap (λ l. folded prefix (drop (length prefix) l)) (append_assoc prefix rest more)
      ∙ ap (folded prefix) (drop-prefix prefix (rest ++ more))
      ∙ append_assoc f.output (pinned t prefix a.persons a.settings) (rest ++ more)

  -- A fold of a first part that is not empty and whose hash is not empty, once it is remembered,
  -- answers every later call whose transcript has grown and whose quarantine has not: what is sent is
  -- the fold's output, the items pinned of the part, and all that follows the part, each once and in
  -- order; and the memory stays.
  pub view-remember :
      (q : QuarantineView)
      → split t (prefix ++ rest) ≡ length prefix
      → 0 < length prefix
      → (t.prefix_hash prefix == "") ≡ false
      → q.generation ≡ a.quarantine.generation
      → view t ((prefix ++ rest) ++ more) q (remember t env a (prefix ++ rest) f m) ≡ (
        (f.output ++ (pinned t prefix a.persons a.settings ++ (rest ++ more)), length prefix),
        remember t env a (prefix ++ rest) f m,
      )
  view-remember q cut some_part hashed same =
      let items = prefix ++ rest in
      let mem = remember t env a items f m in
      let part : take (split t items) items ≡ prefix =
        ap (λ n. take n items) cut ∙ take-prefix prefix rest in
      view-remember_split t env a items more f m q (omega (arith, cut, some_part))
        (ap (λ p. t.prefix_hash p == "") part ∙ hashed) same
      ∙ ap (λ n. ((join t (items ++ more) n mem, n), mem)) cut
      ∙ ap (λ (l : List Item). ((l, length prefix), mem)) (join-remember cut)

failed_memory :
    {W Err : Type 0} (t : Config) (env : FoldEnv W Err) (a : Request) (items sent : List Item)
    (tokens : ℕ) (forced requested : Bool) (instructions : String) (e : Err) (m : Memory) (w : W)
    → env.unfolded e ≡ true
    → (t.prefix_hash (take (split t items) items) == "") ≡ false
    → (env.report (failed_report t env a items tokens forced requested instructions e) w).0 ≡ none
    → (fold_failed t env a items sent tokens forced requested instructions e m w).1.0 ≡ record m {
      fail_len = split t items;
      fail_hash = t.prefix_hash (take (split t items) items);
      fail_tokens = tokens;
    }
unfolding fold_failed
failed_memory t env a items sent tokens forced requested instructions e m w unfolds hashed told =
    ground (arith, unfolds, hashed, told)

false_or : {a b : Bool} → a ≡ false → b ≡ false → (a || b) ≡ false
false_or e f = ground (arith, e, f)

not_below : {a b : ℕ} → a < b → leb b a ≡ false
not_below h = ground (arith, h)

not_above : {a b : ℕ} → a ≤ b → ltb b a ≡ false
not_above h = ground (arith, h)

backed_off :
    (t : Config) (items : List Item) (at tokens : ℕ) (m : Memory)
    → t.no_back_off ≡ false
    → (m.fail_hash == "") ≡ false
    → m.fail_len ≤ length items
    → at < m.fail_len + max t.keep_last 1
    → tokens < m.fail_tokens + max (t.budget / 4) 1
    → t.prefix_hash (take m.fail_len items) ≡ m.fail_hash
    → back_off t items at tokens m ≡ true
unfolding back_off
backed_off t items at tokens m on hashed fits near small same =
    let watched : (t.no_back_off || m.fail_hash == "" || ltb (length items) m.fail_len) ≡ false =
      false_or (false_or on hashed) (not_above fits) in
    let close : (leb (m.fail_len + max t.keep_last 1) at
          || leb (m.fail_tokens + max (t.budget / 4) 1) tokens)
        ≡ false =
      false_or (not_below near) (not_below small) in
    by_if (λ r. r ≡ true) (t.no_back_off || m.fail_hash == "" || ltb (length items) m.fail_len)
      (λ c. ground (arith, sym c ∙ watched))
      (λ c.
        by_if (λ r. r ≡ true)
          (leb (m.fail_len + max t.keep_last 1) at
            || leb (m.fail_tokens + max (t.budget / 4) 1) tokens)
          (λ d. ground (arith, sym d ∙ close))
          (λ d.
            (String-Comparable.tells_apart (t.prefix_hash (take m.fail_len items)) m.fail_hash).1
              same))

-- After a fold of a part whose hash is not empty failed in a way that sends the transcript unfolded,
-- and the failure was reported, a transcript that has grown from it backs off, unless that is turned
-- off: as long as the part to fold has grown by less than `keep_last` items, at least one, and the
-- estimate by less than a quarter of the budget, at least one.
pub back_off-fold_failed :
    {W Err : Type 0} (t : Config) (env : FoldEnv W Err) (a : Request) (items more sent : List Item)
    (tokens : ℕ) (forced requested : Bool) (instructions : String) (e : Err) (m : Memory) (w : W)
    (at tokens' : ℕ)
    → t.no_back_off ≡ false
    → env.unfolded e ≡ true
    → (t.prefix_hash (take (split t items) items) == "") ≡ false
    → (env.report (failed_report t env a items tokens forced requested instructions e) w).0 ≡ none
    → at < split t items + max t.keep_last 1
    → tokens' < tokens + max (t.budget / 4) 1
    → back_off t
        (items ++ more)
        at
        tokens'
        (fold_failed t env a items sent tokens forced requested instructions e m w).1.0
      ≡ true
back_off-fold_failed t env a items more sent tokens forced requested instructions e m w at tokens'
      on unfolds hashed told near small =
    let n = split t items in
    let fits : n ≤ length items = omega (arith, split-least t items) in
    let m' : Memory = record m {
      fail_len = n;
      fail_hash = t.prefix_hash (take n items);
      fail_tokens = tokens;
    } in
    subst (λ mem. back_off t (items ++ more) at tokens' mem ≡ true)
      (sym (
        failed_memory t env a items sent tokens forced requested instructions e m w unfolds hashed
          told))
      (backed_off t (items ++ more) at tokens' m' on hashed
        (omega (arith, fits, length-append items more)) near small
        (ap t.prefix_hash (take-grown n items more fits)))
