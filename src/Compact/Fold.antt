-- ===== src/Compact/Fold.antt =====
-- compact/compact.go: Transform, which sends a transcript as it is, under the fold it remembers, or
-- under a new one.
use agentturn.Base.{
  ℕ, ◌+◌, ◌-◌, Bool, false, not, ◌&&◌, ◌||◌, List, [], ◌++◌, Option, none, some, String, Result, ok,
  err, ◌==◌, String-Comparable, Nat-Comparable, if◌then◌else◌, ltb, leb, take, drop, get_elem?,
  is_empty,
}
use agentturn.Items.{Item}
use agentturn.Persons.{PersonMessages}
use agentturn.Compact.{Config, Memory, QuarantineView, split, back_off, view, pinned, join}

-- What the fold's model call gives, less what is only reported of it.
pub record Folded : Type 0 where
  pub output : List Item
  pub summary : Option Item

-- What WithOnFold's functions are told.
pub record FoldReport (Err : Type 0) : Type 0 where
  pub split : ℕ
  pub first : Option Item
  pub output : List Item
  pub summary : Option Item
  pub pinned : List Item
  pub tokens_before : ℕ
  pub prefix_hash : String
  pub forced : Bool
  pub requested : Bool
  pub instructions : String
  pub err : Option Err

pub record FoldEnv (W Err : Type 0) : Type 0 where
  pub fold : List Item → String → W → Result Err Folded × W
  pub report : FoldReport Err → W → Option Err × W
  -- Whether a failure sends the transcript unfolded.
  pub unfolded : Err → Bool
  -- What other callers did to the memory while the fold ran.
  pub meanwhile : W → Memory → Memory

-- What the context of the call says.
pub record Request : Type 0 where
  -- The weight of the request's settings.
  pub settings : ℕ
  pub fold_requested : Bool
  pub quarantine : QuarantineView
  pub persons : PersonMessages

module _ {W Err : Type 0} (t : Config) (env : FoldEnv W Err) (a : Request) (items : List Item) where
  abbrev pub failed_report : ℕ → Bool → Bool → String → Err → FoldReport Err
  failed_report tokens forced requested instructions e = record {
    split = split t items;
    first = none;
    output = [];
    summary = none;
    pinned = [];
    tokens_before = tokens;
    prefix_hash = if env.unfolded e then t.prefix_hash (take (split t items) items) else "";
    forced = forced;
    requested = requested;
    instructions = instructions;
    err = some e;
  }

  -- A failure that sends the transcript unfolded is remembered.
  unfoldable pub fold_failed :
      List Item
      → ℕ
      → Bool
      → Bool
      → String
      → Err
      → Memory
      → W
      → Result Err (List Item) × (Memory × W)
  fold_failed sent tokens forced requested instructions e m w =
      let report = failed_report tokens forced requested instructions e in
      let (refused, w') = env.report report w in
      let remembered = record m {
        fail_len = split t items;
        fail_hash = report.prefix_hash;
        fail_tokens = tokens;
      } in
      elim refused [
        | some x ↦ (err x, (m, w'))
        | none ↦
            if not (env.unfolded e)
            then (err e, (m, w'))
            else (ok sent, (if report.prefix_hash == "" then m else remembered, w'))
      ]

  -- The memory of a fold, and what it reports of it.
  unfoldable pub remember : Folded → Memory → Memory
  unfolding pinned
  remember f m = record m {
    prefix_len = split t items;
    prefix_gen = a.quarantine.generation;
    prefix_hash = t.prefix_hash (take (split t items) items);
    output = f.output ++ pinned t (take (split t items) items) a.persons a.settings;
    last = elim f.summary [ none ↦ m.last | some s ↦ some s ];
  }

  abbrev done_report : ℕ → Bool → Bool → String → Folded → FoldReport Err
  done_report tokens forced requested instructions f = record {
    split = split t items;
    first = get_elem? items (split t items);
    output = f.output;
    summary = f.summary;
    pinned = pinned t (take (split t items) items) a.persons a.settings;
    tokens_before = tokens;
    prefix_hash = "";
    forced = forced;
    requested = requested;
    instructions = instructions;
    err = none;
  }

  abbrev same_prefix : Memory → Memory → Bool
  same_prefix m m' = m'.prefix_len == m.prefix_len && m'.prefix_hash == m.prefix_hash

  -- A fold that another caller overtook is answered from that caller's memory.
  unfoldable pub fold_done :
      ℕ
      → Bool
      → Bool
      → String
      → Folded
      → Memory
      → Memory
      → W
      → Result Err (List Item) × (Memory × W)
  unfolding remember view
  fold_done tokens forced requested instructions f before m w =
      let ((overtaken, _), m') = view t items a.quarantine m in
      let folded = remember f m in
      let (refused, w') = env.report (done_report tokens forced requested instructions f) w in
      let out : Result Err (List Item) = elim refused [
        | some x ↦ err x
        | none ↦ ok (join t items (split t items) folded)
      ] in
      if same_prefix before m then (out, (folded, w')) else (ok overtaken, (m', w))

  unfoldable pub transform : Memory → W → Result Err (List Item) × (Memory × W)
  unfolding split back_off view fold_failed fold_done
  transform m w =
      let forced = m.next || a.fold_requested in
      let ((sent, base), m1) =
        view t items a.quarantine (record m { next = false; next_instructions = "" }) in
      let tokens = t.estimate sent + a.settings in
      let at = split t items in
      let input =
        (if ltb 0 base then m1.output else [])
        ++ a.quarantine.apply (t.filter (take (at - base) (drop base items))) in
      let (r, w1) = env.fold input m.next_instructions w in
      let m2 = env.meanwhile w1 m1 in
      let folded : Result Err (List Item) × (Memory × W) = elim r [
        | err e ↦ fold_failed sent tokens forced m.next m.next_instructions e m2 w1
        | ok f ↦ fold_done tokens forced m.next m.next_instructions f m1 m2 w1
      ] in
      if leb tokens t.budget && not forced
      then (ok sent, (m1, w))
      else if leb at base || (not forced && back_off t items at tokens m1)
      then (ok sent, (m1, w))
      else if is_empty input || ltb (t.estimate input) t.min_fold
      then (ok sent, (m1, w))
      else folded
