-- ===== src/Model/Reading/Still.antt =====
-- run.go: an event of the stream that does not commit the attempt leaves the run as it was.
use agentturn.Base.{
  ℕ, Bool, true, false, not, ◌&&◌, String, Result, ok, String-Comparable, if◌then◌else◌, ◌≡◌, ◌≢◌,
  refl, sym, ap, ◌∙◌, inl, inr, Result-cases, Option-cases, Bool-cases, by_if, by_option,
}
use agentturn.Items.{Item}
use agentturn.Loop.{Halt, State, Act}
use agentturn.Loop.Append.{◌>>=◌, ◌>>◌, pure, bind_ok, bind_err}
use agentturn.Model.{ModelEvent, streamed_start, streamed_update}
use agentturn.Model.Attempt.{
  Attempt, StreamEnv, StreamEvent, is_call, decided_call_id, item_added, item_done, error_event,
  within_item, other_event,
}
use agentturn.Model.Turn.Gives.{Gives, then-Gives, pure-Gives}
use agentturn.Model.Stream.{
  Delivered, delivered, wire_error, Att, report, attempt, keep_attempt, outside, flush_held,
  snapshot, renamed, open_item, on_item_added, commits_attempt, is_message, opened_at, change,
}
use agentturn.Model.Events.{
  settle_call, guard_message, complete, on_item_done, on_update, stream_event, done_call,
  current_id,
}

module _ {W Err : Type 0} where
  -- An action that leaves the run as it was, whatever it gives.
  abbrev pub Still : {A : Type 0} → Act W Err A → Type 0
  Still m = (s : State W) → (m s).1.run ≡ s.run

  pub bind-Still :
      {A B : Type 0} (m : Act W Err A) (f : A → Act W Err B)
      → Still m
      → ((a : A) → Still (f a))
      → Still (m >>= f)
  bind-Still m f still h s = elim (Result-cases (m s).0) [
    | inl (a, o) ↦ ap (λ r. r.1.run) (bind_ok m f s o) ∙ h a (m s).1 ∙ still s
    | inr (x, o) ↦ ap (λ r. r.1.run) (bind_err m f s o) ∙ still s
  ]

  -- An action that leaves the run as it was where what it gives is as `R` says.
  abbrev pub Spares : {A : Type 0} → (A → Type 0) → Act W Err A → Type 0
  Spares {A = A} R m = (s : State W) (a : A) → (m s).0 ≡ ok a → R a → (m s).1.run ≡ s.run

  pub bind-Spares :
      {A B : Type 0} (R : B → Type 0) (m : Act W Err A) (f : A → Act W Err B)
      → Still m
      → ((a : A) → Spares R (f a))
      → Spares R (m >>= f)
  bind-Spares R m f still h s b e r = elim (Result-cases (m s).0) [
    | inl (a, o) ↦
        ap (λ r. r.1.run) (bind_ok m f s o)
        ∙ h a (m s).1 b (sym (ap (λ r. r.0) (bind_ok m f s o)) ∙ e) r
        ∙ still s
    | inr (x, o) ↦ ap (λ r. r.1.run) (bind_err m f s o) ∙ still s
  ]

  Still-Spares : {A : Type 0} (R : A → Type 0) (m : Act W Err A) → Still m → Spares R m
  Still-Spares R m still s a e r = still s

module _ {W Err Response Raw Acc : Type 0} (env : StreamEnv W Err Response Raw Acc) (turn : ℕ) where
  report-Still : (ev : ModelEvent Err Response) → Still (report env turn ev)
  report-Still ev s =
      by_option (λ (out : Result (Halt Err) (Unit {0}) × State (Attempt × W)). out.1.run ≡ s.run)
        (env.tell ev s.world.1).0 (λ e. refl) (λ x e. refl)

  -- The event was delivered and does not commit the attempt, or reported an error.
  abbrev pub Uncommitting : Delivered Err → Type 0
  Uncommitting d = d ≢ delivered true

  open_item-Still : (item : Item) (index : ℕ) → Still (open_item env turn item index)
  unfolding open_item
  open_item-Still item index s = elim (Bool-cases (is_call item)) [
    | inl e ↦ rw e refl
    | inr e ↦ rw e refl
  ]

  -- What follows once the item is open, as it commits the attempt or not.
  abbrev started : String → Item → Bool → Att env turn (Delivered Err)
  started response_id item commits =
      (if commits then flush_held env turn else pure tt)
      >> (outside env turn (snapshot env turn item) >>= λ snap.
          report env turn (streamed_start turn snap response_id) >> pure (delivered commits))

  started-delivered :
      (response_id : String) (item : Item) (commits : Bool)
      → Gives (λ d. d ≡ delivered commits) (started response_id item commits)
  started-delivered response_id item commits =
      let R : Delivered Err → Type 0 = λ d. d ≡ delivered commits in
      then-Gives R (if commits then flush_held env turn else pure tt)
        (λ _. outside env turn (snapshot env turn item) >>= told)
        (λ _. then-Gives R (outside env turn (snapshot env turn item)) told (λ snap.
          then-Gives R (report env turn (streamed_start turn snap response_id))
            (λ _. pure (delivered commits)) (λ _. pure-Gives R (delivered commits) refl)))
    where
      told : Item → Att env turn (Delivered Err)
      told snap = report env turn (streamed_start turn snap response_id) >> pure (delivered commits)

  started-Spares :
      (response_id : String) (item : Item) (commits : Bool)
      → Spares Uncommitting (started response_id item commits)
  started-Spares response_id item true s a e r =
      absurd (r (started-delivered response_id item true s a e))
  started-Spares response_id item false s a e r =
      Still-Spares Uncommitting (started response_id item false)
        (bind-Still (pure tt) (λ _. outside env turn (snapshot env turn item) >>= told) (λ t. refl)
          (λ _.
            bind-Still (outside env turn (snapshot env turn item)) told (λ t. refl)
              (λ snap.
                bind-Still (report env turn (streamed_start turn snap response_id))
                  (λ _. pure (delivered false))
                  (report-Still (streamed_start turn snap response_id)) (λ _ t. refl))))
        s a e r
    where
      told : Item → Att env turn (Delivered Err)
      told snap = report env turn (streamed_start turn snap response_id) >> pure (delivered false)

  on_item_added-Spares :
      (index : ℕ) (opened : Item) (response_id : String) (committed : Bool)
      → Spares Uncommitting (on_item_added env turn index opened response_id committed)
  unfolding on_item_added
  on_item_added-Spares index opened response_id committed =
      bind-Spares Uncommitting (open_item env turn opened index)
        (λ item. started response_id item (not committed && commits_attempt item))
        (open_item-Still opened index)
        (λ item. started-Spares response_id item (not committed && commits_attempt item))

  settle_call-Still : (call : Item) (index : ℕ) → Still (settle_call env turn call index)
  unfolding settle_call
  settle_call-Still call index s = elim (Option-cases (decided_call_id env call index s.world.0)) [
    | inl e ↦ rw e refl
    | inr (id, e) ↦ rw e refl
  ]

  guard_message-Still :
      (acc : Acc) (response_id : String) (item : Item) (self : ℕ)
      → Still (guard_message env turn acc response_id item self)
  unfolding guard_message
  guard_message-Still acc response_id item self s =
      by_option (λ (out : Result (Halt Err) Item × State (Attempt × W)). out.1.run ≡ s.run)
        env.output_guard (λ e. refl) (λ f e. refl)

  complete-Still :
      (item : Item) (self : ℕ) (response_id model_call_id : String)
      → Still (complete env turn item self response_id model_call_id false)
  unfolding complete
  complete-Still item self response_id model_call_id s = refl

  on_update-Still :
      (index : ℕ) (acc : Acc) (response_id : String)
      → Still (on_update env turn index acc response_id)
  unfolding on_update
  on_update-Still index acc response_id =
      bind-Still (renamed env turn (env.item_at acc index) index)
        (λ item. outside env turn (snapshot env turn item) >>= told) (λ s. refl)
        (λ item.
          bind-Still (outside env turn (snapshot env turn item)) told (λ s. refl)
            (λ snap.
              bind-Still (report env turn (streamed_update turn snap response_id))
                (λ _. pure (delivered false)) (report-Still (streamed_update turn snap response_id))
                (λ _ s. refl)))
    where
      told : Item → Att env turn (Delivered Err)
      told snap = report env turn (streamed_update turn snap response_id) >> pure (delivered false)

  on_item_done-Still :
      (index : ℕ) (done : Item) (acc : Acc) (response_id : String)
      → Still (on_item_done env turn index done acc response_id false)
  unfolding on_item_done
  on_item_done-Still index done acc response_id =
      bind-Still (if is_call done then settle_call env turn done index else pure (done, "")) settled
        (by_if Still (is_call done) (λ e. settle_call-Still done index) (λ e s. refl))
        (λ out.
          bind-Still (attempt env turn) (opened out) (λ s. refl)
            (λ a.
              bind-Still (keep_attempt env turn (at_end a)) (kept out a) (λ s. refl)
                (λ _.
                  bind-Still
                    (if is_message out.0
                      then guard_message env turn acc response_id out.0 (opened_at index a.opened).0
                      else pure out.0)
                    (λ item.
                      complete env turn item (opened_at index a.opened).0 response_id out.1 false)
                    (by_if Still (is_message out.0)
                      (λ e. guard_message-Still acc response_id out.0 (opened_at index a.opened).0)
                      (λ e s. refl))
                    (λ item. complete-Still item (opened_at index a.opened).0 response_id out.1))))
    where
      at_end : Attempt → Attempt
      at_end a = record a {
        opened =
            if is_call done
            then change (done_call env turn done) (opened_at index a.opened).0
                (opened_at index a.opened).1
            else (opened_at index a.opened).1;
      }

      kept : Item × String → Attempt → Unit {0} → Att env turn (Delivered Err)
      kept out a _ =
          (if is_message out.0
            then guard_message env turn acc response_id out.0 (opened_at index a.opened).0
            else pure out.0)
          >>= λ item. complete env turn item (opened_at index a.opened).0 response_id out.1 false

      opened : Item × String → Attempt → Att env turn (Delivered Err)
      opened out a = keep_attempt env turn (at_end a) >>= kept out a

      settled : Item × String → Att env turn (Delivered Err)
      settled out = attempt env turn >>= opened out

  pub stream_event-Spares :
      (ev : Raw) (acc : Acc) → Spares Uncommitting (stream_event env turn ev acc false)
  unfolding stream_event
  stream_event-Spares ev acc = by_kind (env.kind ev)
    where
      id : String
      id = current_id env turn acc

      by_kind :
          (k : StreamEvent Err)
          → Spares Uncommitting (elim k as (λ x. Att env turn (Delivered Err)) [
            | item_added index ↦ on_item_added env turn index (env.item_at acc index) id false
            | item_done index item ↦ on_item_done env turn index item acc id false
            | error_event e ↦ pure (wire_error e)
            | within_item index ↦ on_update env turn index acc id
            | other_event ↦ pure (delivered false)
          ])
      by_kind (item_added index) = on_item_added-Spares index (env.item_at acc index) id false
      by_kind (item_done index item) =
          Still-Spares Uncommitting (on_item_done env turn index item acc id false)
            (on_item_done-Still index item acc id)
      by_kind (error_event e) = Still-Spares Uncommitting (pure (wire_error e)) (λ s. refl)
      by_kind (within_item index) =
          Still-Spares Uncommitting (on_update env turn index acc id) (on_update-Still index acc id)
      by_kind other_event = Still-Spares Uncommitting (pure (delivered false)) (λ s. refl)
