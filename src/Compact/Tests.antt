-- ===== src/Compact/Tests.antt =====
-- compact/compact.go: the theorems on short transcripts.
use agentturn.Base.{
  true, ◌++◌, is_some, ℕ, suc, ◌≤◌, ◌≡◌, refl, false, [], ◌∷◌, none, some, String, ok, err, arith,
  length, lookup, insert,
}
use agentturn.Items.{Item, at, message, user, function_call, function_call_output, call_id_of}
use agentturn.Compact.{
  Config, Memory, QuarantineView, split, split_from, first_calls, view, back_off, pinned, pick,
  person_total_of, keep_newest, keeps_person,
}
use agentturn.Compact.Fold.{Folded, Request, FoldEnv, remember, fold_failed}
use agentturn.Compact.Split.{split-tail}
use agentturn.Compact.Remembered.{view-remember, back_off-fold_failed}

abbrev hello : Item
hello = at 1 (message user "hello")

abbrev call : Item
call = at 2 (function_call "c1" "read" "{}")

abbrev output : Item
output = at 3 (function_call_output "c1" "text")

-- Keeps the last item.
abbrev config : Config
config = record {
  budget = 10;
  keep_last = 1;
  min_fold = 0;
  estimate = λ items. length items;
  filter = λ items. items;
  pin = none;
  person_bound = 0;
  person_total = none;
  no_back_off = false;
  prefix_hash = λ items. "hash";
  json_size = λ item. some 1;
}

split-tail_example :
    (split config (call ∷ hello ∷ output ∷ []) ≤ 0)
    × (split config (call ∷ hello ∷ output ∷ []) ≤ 2)
unfolding split split_from first_calls lookup insert
split-tail_example =
    split-tail config (call ∷ hello ∷ output ∷ []) 2 0 output call "c1" (omega arith) refl refl refl
      refl

abbrev quarantine : QuarantineView
quarantine = record { generation = 0; has = λ item. false; apply = λ items. items }

abbrev request : Request
request = record { settings = 0; fold_requested = false; quarantine = quarantine; persons = [] }

abbrev folded : Folded
folded = record { output = hello ∷ []; summary = some hello }

abbrev folds : FoldEnv ℕ String
folds = record {
  fold = λ input instructions w. (ok folded, suc w);
  report = λ report w. (none, w);
  unfolded = λ e. false;
  meanwhile = λ w m. m;
}

abbrev memory : Memory
memory = record {
  next = false;
  next_instructions = "";
  prefix_len = 0;
  prefix_hash = "";
  prefix_gen = 0;
  output = [];
  last = none;
  fail_len = 0;
  fail_hash = "";
  fail_tokens = 0;
}

-- Pins every call.
abbrev pinning : Config
pinning = record config { pin = some (λ item. is_some (call_id_of item)); keep_last = 1 }

view-remember_example :
    view pinning
      (call ∷ output ∷ hello ∷ call ∷ [])
      quarantine
      (remember pinning folds request (call ∷ output ∷ hello ∷ []) folded memory)
    ≡ (
      (folded.output ++ (call ∷ hello ∷ call ∷ []), 2),
      remember pinning folds request (call ∷ output ∷ hello ∷ []) folded memory,
    )
unfolding split split_from first_calls pinned pick person_total_of keep_newest keeps_person
view-remember_example =
    view-remember pinning folds request (call ∷ output ∷ []) (hello ∷ []) (call ∷ []) folded memory
      quarantine refl (omega arith) refl refl

-- A fold that fails.
abbrev fails : FoldEnv ℕ String
fails = record {
  fold = λ input instructions w. (err "no summary", suc w);
  report = λ report w. (none, w);
  unfolded = λ e. true;
  meanwhile = λ w m. m;
}

back_off-fold_failed_example :
    back_off config
      (hello ∷ hello ∷ call ∷ [])
      1
      12
      (fold_failed config fails request
        (hello ∷ hello ∷ [])
        []
        11
        false
        false
        ""
        "no summary"
        memory
        1).1.0
    ≡ true
unfolding split split_from first_calls
back_off-fold_failed_example =
    back_off-fold_failed config fails request (hello ∷ hello ∷ []) (call ∷ []) [] 11 false false ""
      "no summary" memory 1 1 12 refl refl refl refl (omega arith) (omega arith)
