-- ===== src/Loop/Run/Invariant.antt =====
-- run.go: what every call out of the loop keeps of the rest of the program, a whole run keeps.
use agentturn.Base.{
  ℕ, ◌≡◌, refl, sym, subst, inl, inr, Bool, true, false, List, [], ◌∷◌, some, Result,
  String-Comparable, if◌then◌else◌, ltb, length, Result-cases, by_if, by_option,
}
use agentturn.Items.{
  Item, Input, is_nil_input, is_nil, plain, marks, provenance, zero_trigger, Trigger,
}
use agentturn.Loop.{
  InputMode, TurnInput, Event, item_start, item_end, notes_held, tool_event, Note, Runner, State,
  Act, Halt,
}
use agentturn.Loop.Append.{
  emit, append_one, append_with, append_arrived, appended, get, put, ◌>>=◌, bind_ok, bind_err,
}
use agentturn.Loop.Notes.{same_notes, report_notes, flush_one, flush_from, flush_notes, drop_note}
use agentturn.Loop.Turns.{Env}

-- The events that the loop itself sends.
abbrev pub is_loop_event : {Err : Type 0} → Event Err → Bool
is_loop_event (tool_event t) = false
is_loop_event _ = true

module _ {W Err : Type 0} (P : W → Type 0) where
  -- An action after which the world is as `P` says where it was so before.
  abbrev pub Preserves : {A : Type 0} → Act W Err A → Type 0
  Preserves m = (s : State W) → P s.world → P (m s).1.world

  pub Preserves-bind :
      {A B : Type 0} (m : Act W Err A) (f : A → Act W Err B)
      → Preserves m
      → ((a : A) → Preserves (f a))
      → Preserves (m >>= f)
  Preserves-bind m f keeps keeps' s p = elim (Result-cases (m s).0) [
    | inl (a, e) ↦ subst (λ r. P r.1.world) (sym (bind_ok m f s e)) (keeps' a (m s).1 (keeps s p))
    | inr (x, e) ↦ subst (λ r. P r.1.world) (sym (bind_err m f s e)) (keeps s p)
  ]

-- Every call out of the loop keeps `P`: the subscribers at the loop's own events, the queues and the
-- hooks that are given, the model's turn and the batches.
pub record Steady {W Err Response : Type 0} (env : Env W Err Response) (P : W → Type 0)
    : Type 0 where
  pub sent : (ev : Event Err) (w : W) → is_loop_event ev ≡ true → P w → P (env.send ev w).1
  pub steered : (q : W → List TurnInput × W) → env.steer ≡ some q → (w : W) → P w → P (q w).1
  pub followed : (q : W → List TurnInput × W) → env.follow_up ≡ some q → (w : W) → P w → P (q w).1
  pub drained : (q : W → List TurnInput × W) → env.last ≡ some q → (w : W) → P w → P (q w).1
  pub closed : (q : W → Bool × W) → env.closing ≡ some q → (w : W) → P w → P (q w).1
  pub before :
      (f : ℕ → Runner → W → Result Err (List Input) × W)
      → env.before_turn ≡ some f
      → (turn : ℕ) (r : Runner) (w : W) → P w
      → P (f turn r w).1
  pub asked :
      (f : ℕ → Response → List Bool → Bool → Runner → W → Result Err Bool × W)
      → env.should_stop ≡ some f
      → (turn : ℕ) (resp : Response) (results : List Bool) (final : Bool) (r : Runner) (w : W) → P w
      → P (f turn resp results final r w).1
  pub checked : (w : W) → P w → P (env.tools_refused w).1
  pub modelled : (turn : ℕ) → Preserves P (env.model_turn turn)
  pub batched : (turn : ℕ) (calls : List Item) → Preserves P (env.tool_batch turn calls)
  pub approved : Preserves P env.approved_batch

module _ {W Err Response : Type 0} (env : Env W Err Response) (P : W → Type 0)
    (steady : Steady env P) where
  pub emit-Preserves : (ev : Event Err) → is_loop_event ev ≡ true → Preserves P (emit env.send ev)
  unfolding emit
  emit-Preserves ev own s p =
      let q = steady.sent ev s.world own p in
      by_option (λ (out : Result (Halt Err) (Unit {0}) × State W). P out.1.world)
        (env.send ev s.world).0 (λ e. q) (λ x e. q)

  pub append_one-Preserves :
      (i : Input) (mode : InputMode) (t end_t : Trigger)
      → Preserves P (append_one env.send i mode t end_t)
  unfolding append_one
  append_one-Preserves i mode t end_t s p =
      let (item, hidden, copied) = marks i in
      let prov = provenance i in
      by_if (λ (m : Act W Err (Unit {0})). P (m s).1.world) (is_nil_input i) (λ e. p)
        (λ e.
          Preserves-bind P (emit env.send (item_start item hidden copied prov))
            (λ u. get >>= λ r. put (appended i mode t end_t r) >>= λ v.
              emit env.send (item_end item hidden copied end_t prov))
            (emit-Preserves (item_start item hidden copied prov) refl)
            (λ u s' p'.
              emit-Preserves (item_end item hidden copied end_t prov) refl
                (record s' { run = appended i mode t end_t s'.run }) p')
            s p)

  pub append_with-Preserves :
      (items : List Input) (mode : InputMode) (t end_t : Trigger)
      → Preserves P (append_with env.send items mode t end_t)
  unfolding append_with
  append_with-Preserves [] mode t end_t = λ s p. p
  append_with-Preserves (i ∷ items) mode t end_t =
      Preserves-bind P (append_one env.send i mode t end_t)
        (λ u. append_with env.send items mode t end_t) (append_one-Preserves i mode t end_t)
        (λ u. append_with-Preserves items mode t end_t)

  pub append_arrived-Preserves :
      (inputs : List TurnInput) → Preserves P (append_arrived env.send inputs)
  unfolding append_arrived
  append_arrived-Preserves [] = λ s p. p
  append_arrived-Preserves (i ∷ inputs) =
      Preserves-bind P (append_one env.send i.item i.mode i.trigger zero_trigger)
        (λ u. append_arrived env.send inputs)
        (append_one-Preserves i.item i.mode i.trigger zero_trigger)
        (λ u. append_arrived-Preserves inputs)

  pub report_notes-Preserves : Preserves P (report_notes env.send)
  unfolding report_notes
  report_notes-Preserves s p =
      by_if (λ (out : Result (Halt Err) (Unit {0}) × State W). P out.1.world)
        (same_notes s.run.notes s.run.reported) (λ e. p)
        (λ e.
          Preserves-bind P (emit env.send (notes_held s.run.notes))
            (λ u. get >>= λ r. put (record r { reported = r.notes }))
            (emit-Preserves (notes_held s.run.notes) refl) (λ u s' p'. p') s p)

  flush_one-Preserves : (n : Note) (rest : List Note) → Preserves P (flush_one env.send n rest)
  unfolding flush_one
  flush_one-Preserves n rest s p =
      let s' = (append_one env.send (plain n.item) n.mode zero_trigger n.trigger s).1 in
      let p' = append_one-Preserves (plain n.item) n.mode zero_trigger n.trigger s p in
      by_if (λ (t : State W). P t.world) (ltb (length s.run.transcript) (length s'.run.transcript))
        (λ e. p') (λ e. p')

  flush_from-Preserves : (notes : List Note) → Preserves P (flush_from env.send notes)
  unfolding flush_from
  flush_from-Preserves [] = report_notes-Preserves
  flush_from-Preserves (n ∷ rest) =
      Preserves-bind P
        (if is_nil n.item then drop_note env.send rest else flush_one env.send n rest)
        (λ u. flush_from env.send rest)
        (by_if (λ (m : Act W Err (Unit {0})). Preserves P m) (is_nil n.item) (λ e s p. p)
          (λ e. flush_one-Preserves n rest))
        (λ u. flush_from-Preserves rest)

  pub flush_notes-Preserves : Preserves P (flush_notes env.send)
  unfolding flush_notes
  flush_notes-Preserves s = flush_from-Preserves s.run.notes s
