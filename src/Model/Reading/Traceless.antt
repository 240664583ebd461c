-- ===== src/Model/Reading/Traceless.antt =====
-- run.go: an attempt that fails before it committed leaves nothing behind.
use agentturn.Base.{
  ℕ, Bool, true, false, ◌||◌, List, [], ◌∷◌, Option, none, some, Result, ok, err, String-Comparable,
  ◌≡◌, refl, ◌∙◌, by_result,
}
use agentturn.Loop.{Halt, stop, fault, State}
use agentturn.Model.{Request, Outcome, failed}
use agentturn.Model.Attempt.{Attempt, fresh_attempt, StreamEnv}
use agentturn.Model.Stream.{Delivered, delivered, wire_error}
use agentturn.Model.Events.{stream_event}
use agentturn.Model.Reading.{
  settle_response, finish_stream, stop_reading, read_events, stream, outcome_of, latest,
  guarded_response,
}
use agentturn.Model.Reading.Still.{stream_event-Spares}

module _ {W Err Response Raw Acc : Type 0} (env : StreamEnv W Err Response Raw Acc) (turn : ℕ) where
  -- The attempt failed and did not commit.
  abbrev pub Uncommitted : Outcome Err Response → Type 0
  Uncommitted out = (resp : Option Response) × (h : Halt Err) × (out ≡ failed resp false h)

  -- Where it did, it had not committed before and leaves the run as it was.
  abbrev Traceless :
      Bool → State (Attempt × W) → Outcome Err Response × State (Attempt × W) → Type 0
  Traceless committed s out = Uncommitted out.0 → (committed ≡ false) × (out.1.run ≡ s.run)

  outcome-committed : (r : Result (Halt Err) Response) → Uncommitted (outcome_of env turn r) → ⊥
  outcome-committed (ok resp) (o, h, e) = cc
  outcome-committed (err x) (o, h, e) = cc

  stopped-committed :
      (acc : Acc) (resp : Option Response) (events : List (Result Err Raw)) (x : Halt Err)
      → Uncommitted (stop_reading env turn acc resp events x)
      → ⊥
  stopped-committed acc resp events (stop reason cause e true) (o, h, f) = cc
  stopped-committed acc resp events (stop reason cause e false) (o, h, f) = cc
  stopped-committed acc resp events (fault e) (o, h, f) = cc

  finish_stream-Traceless :
      (resp : Option Response) (committed : Bool) (s : State (Attempt × W))
      → Traceless committed s (finish_stream env turn resp committed s)
  finish_stream-Traceless none committed s (o, h, e) = (cc, refl)
  finish_stream-Traceless (some resp) committed s u =
      absurd (outcome-committed (settle_response env turn resp s).0 u)

  delivered-Traceless :
      (ev : Raw) (acc : Acc) (resp : Option Response) (events : List (Result Err Raw))
      (committed : Bool) (s : State (Attempt × W)) (d : Delivered Err)
      → (stream_event env turn ev acc committed s).0 ≡ ok d
      → let s' = (stream_event env turn ev acc committed s).1 in
        ((c : Bool)
          → Traceless c s' (read_events env turn acc (latest env turn resp ev) c events s'))
        → Traceless committed s (elim d as (λ x. Outcome Err Response × State (Attempt × W)) [
          | wire_error e ↦ (failed (guarded_response env turn acc e) committed (fault e), s')
          | delivered commits ↦
              read_events env turn acc (latest env turn resp ev) (committed || commits) events s'
        ])
  delivered-Traceless ev acc resp events true s (wire_error e) o ih (x, h, f) = absurd (cc)
  delivered-Traceless ev acc resp events false s (wire_error e) o ih u =
      (refl, stream_event-Spares env turn ev acc s (wire_error e) o (λ g. absurd (cc)))
  delivered-Traceless ev acc resp events true s (delivered commits) o ih u =
      absurd (let (c, r) = ih true u in cc c)
  delivered-Traceless ev acc resp events false s (delivered true) o ih u =
      absurd (let (c, r) = ih true u in cc c)
  delivered-Traceless ev acc resp events false s (delivered false) o ih u =
      let (c, r) = ih false u in
      (refl, r ∙ stream_event-Spares env turn ev acc s (delivered false) o (λ g. absurd (cc)))

  failed-Traceless :
      {o o' : Option Response} {x h : Halt Err} (committed : Bool) (s : State (Attempt × W))
      → failed o committed x ≡ failed o' false h
      → (committed ≡ false) × (s.run ≡ s.run)
  failed-Traceless committed s e = (cc, refl)

  read_events-Traceless :
      (acc : Acc) (resp : Option Response) (committed : Bool) (events : List (Result Err Raw))
      (s : State (Attempt × W))
      → Traceless committed s (read_events env turn acc resp committed events s)
  unfolding read_events
  read_events-Traceless acc resp committed [] s = finish_stream-Traceless resp committed s
  read_events-Traceless acc resp committed (err e ∷ events) s =
      λ u. failed-Traceless committed s u.2
  read_events-Traceless acc resp committed (ok ev ∷ events) s =
      let acc' = env.add acc ev in
      let s' = (stream_event env turn ev acc' committed s).1 in
      by_result (Traceless committed s) (stream_event env turn ev acc' committed s).0
        (λ d o.
          delivered-Traceless ev acc' resp events committed s d o
            (λ c. read_events-Traceless acc' (latest env turn resp ev) c events s'))
        (λ x o u. absurd (stopped-committed acc' resp events x u))

-- An attempt that fails without having committed, which is the only kind that is made again, leaves
-- the runner as it found it, the transcript and the items added with the rest: whatever the stream
-- brought before, the loop's event subscribers and its output guard said to it, and wherever it broke
-- off.
pub stream-Traceless :
    {W Err Response Raw Acc : Type 0} (env : StreamEnv W Err Response Raw Acc) (turn : ℕ)
    (req : Request) (s : State W) (resp : Option Response) (h : Halt Err)
    → (stream env turn req s).0 ≡ failed resp false h
    → (stream env turn req s).1.run ≡ s.run
unfolding stream
stream-Traceless env turn req s resp h e =
    let (events, w) = env.events req s.world in
    (read_events-Traceless env turn env.empty none false events
      (record { run = s.run; world = (fresh_attempt, w) }) (resp, h, e)).1
