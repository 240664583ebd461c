-- ===== src/Handoff/Follow.antt =====
-- handoff/handoff.go: follow and Run: the handoffs that the runs of an agent end on, with agent.go's
-- Continue. The agent's other methods, and the run that Continue starts, are what they do to a state of
-- the rest of the program. The loop has fuel, one unit a round.
pub mod Delivery
pub mod Bound
use Prim.Native.String.{◌++◌}
use mathlib.Core.List.{◌++◌ as append}
use agentturn.Base.{
  ℕ, zero, suc, ◌+◌, Bool, true, false, not, ◌&&◌, ◌||◌, List, [], ◌∷◌, Option, none, some, String,
  if◌then◌else◌, ◌==◌, String-Comparable, nat_eq, is_some, map, length,
}
use agentturn.Items.{Item, nil, at, message, developer, Input, unhide_all, Trigger}
use agentturn.Items.Marks.{base}
use agentturn.Loop.{RunEnd, Reason, stopped, StopCause, terminate, partial_terminate}
use agentturn.Loop.Pending.{can_continue}
use agentturn.Handoff.{Config, Team}
use agentturn.Handoff.Name.{tool_name}
use agentturn.Handoff.Taken.{handed_to, route_of, find_filter, trim, inherit}

-- What a run returns: its end, and an error.
abbrev pub Ended : Type 0 → Type 0
Ended Err = Option (RunEnd Err) × Option Err

pub record TeamAgent (W Err Ctx : Type 0) : Type 0 where
  pub config : W → Config Ctx
  pub transcript : W → List Item
  -- The items queued to steer, and whether calls are pending.
  pub steer : W → List Input
  pub has_pending : W → Bool
  pub set_transcript : List Item → W → Option Err × W
  pub set_config : Config Ctx → W → Option Err × W
  pub prompt : Option Trigger → Item → W → Ended Err × W
  -- `a.run` with no items, under the trigger of its context.
  pub start_run : Option Trigger → W → Ended Err × W
  pub has_parts : Item → Bool
  pub answer : String → String
  pub new_ref : W → ℕ × W
  -- ErrInputRequired, ErrCannotContinue and ErrTooManyHandoffs, and `errors.Join`.
  pub input_required : Err
  pub cannot_continue : Err
  pub too_many : Err
  pub join : Err → Option Err → Err

-- Where the following stands.
pub record Standing (W Err : Type 0) : Type 0 where
  pub followed : ℕ
  pub path : List String
  pub end : Option (RunEnd Err)
  pub err : Option Err
  pub world : W

pub data Moved (W Err : Type 0) : Type 0 where
  over : Standing W Err → Moved W Err
  on : Standing W Err → Moved W Err

abbrev pub default_max_handoffs : ℕ
default_max_handoffs = 10

abbrev pub limit_of : ℕ → ℕ
limit_of zero = default_max_handoffs
limit_of (suc n) = suc n

abbrev pub is_terminating : Reason → StopCause → Bool
is_terminating stopped terminate = true
is_terminating stopped partial_terminate = true
is_terminating _ _ = false

unfoldable pub terminated : {Err : Type 0} → Option (RunEnd Err) → Bool
terminated none = false
terminated (some end) = is_terminating end.reason end.cause

module _ {W Err Ctx : Type 0} (agent : TeamAgent W Err Ctx) (team : Team Ctx) where
  -- `a.State().Steering`
  abbrev pub steering : W → ℕ
  steering w = length (agent.steer w)

  abbrev pub can_start : W → Bool
  can_start w = can_continue (append (agent.transcript w) (map base (unhide_all (agent.steer w))))

  -- Agent.Continue
  unfoldable pub continue_run : Option Trigger → W → Ended Err × W
  unfolding can_continue
  continue_run t w =
      if agent.has_pending w
      then ((none, some agent.input_required), w)
      else if not (can_start w)
      then ((none, some agent.cannot_continue), w)
      else agent.start_run t w

  abbrev pub limit : ℕ
  limit = limit_of team.max_handoffs

  -- Team.Handoff
  unfoldable pub handoff : Option (RunEnd Err) → Option (Config Ctx)
  unfolding handed_to route_of
  handoff none = none
  handoff (some end) = handed_to agent.has_parts (route_of team agent.answer) end.items

  abbrev pub note_text : Config Ctx → Config Ctx → String
  note_text from to =
      "The conversation was handed off by "
      ++ tool_name to.name
      ++ ", from "
      ++ from.name
      ++ " to "
      ++ to.name
      ++ ", which answers from here."

  -- The receiver's run: on a note, where the transcript cannot be continued from.
  unfoldable pub run_receiver : Bool → Config Ctx → Config Ctx → W → Ended Err × W
  unfolding continue_run
  run_receiver noted from to w =
      let handed : Option Trigger =
        some (record { kind = "handoff"; ref = from.name; source = ""; extra = [] }) in
      let (ref, w') = agent.new_ref w in
      if noted
      then agent.prompt handed (at ref (message developer (note_text from to))) w'
      else continue_run handed w

  abbrev pub ran : ℕ → List String → Ended Err × W → Standing W Err
  ran followed path ((end, e), w) = record {
    followed = followed;
    path = path;
    end = end;
    err = e;
    world = w;
  }

  -- The bound is met: the receiver runs only for a delivery that waits.
  abbrev pub past_limit : Standing W Err → Standing W Err → Standing W Err
  past_limit kept received =
      if nat_eq (steering kept.world) 0
      then record kept { err = some agent.too_many }
      else record received { err = some (agent.join agent.too_many received.err) }

  -- What follows once the receiver has the conversation.
  unfoldable pub receive : Config Ctx → Config Ctx → Standing W Err → Moved W Err
  unfolding run_receiver
  receive from to s =
      let path = append s.path (to.name ∷ []) in
      let noted = not (can_continue (agent.transcript s.world)) in
      let out = run_receiver noted from to s.world in
      if nat_eq s.followed limit
      then over (past_limit (record s { path = path }) (ran s.followed path out))
      else on (ran (s.followed + 1) path out)

  abbrev pub failed : Standing W Err → Err → W → Moved W Err
  failed s e w = over (record s { err = some e; world = w })

  abbrev pub switch_config : Config Ctx → Config Ctx → Standing W Err → Moved W Err
  switch_config from to s =
      let (e, w) = agent.set_config (inherit to from) s.world in
      elim e [ some x ↦ failed s x w | none ↦ receive from to (record s { world = w }) ]

  unfoldable pub switch : Config Ctx → Standing W Err → Moved W Err
  unfolding receive inherit find_filter trim
  switch to s =
      let from = agent.config s.world in
      let (e, w) = agent.set_transcript (trim team from to (agent.transcript s.world)) s.world in
      if not (is_some (find_filter team from.name to.name team.filters))
      then switch_config from to s
      else elim e [ some x ↦ failed s x w | none ↦ switch_config from to (record s { world = w }) ]

  -- A delivery that the stop left queued is the agent's to take.
  abbrev pub deliver_or_end : Standing W Err → Moved W Err
  deliver_or_end s =
      if nat_eq (steering s.world) 0
      then over s
      else on (ran s.followed s.path (continue_run none s.world))

  -- One round of follow.
  unfoldable pub follow_once : Standing W Err → Moved W Err
  unfolding terminated handoff switch continue_run
  follow_once s =
      if is_some s.err || not (terminated s.end)
      then over s
      else elim (handoff s.end) [ none ↦ deliver_or_end s | some to ↦ switch to s ]

  unfoldable pub follow : ℕ → Standing W Err → Option (Standing W Err)
  unfolding follow_once
  follow zero s = none
  follow (suc fuel) s = elim (follow_once s) [ over r ↦ some r | on s' ↦ follow fuel s' ]

  unfoldable pub run : ℕ → Item → W → Option (Standing W Err)
  unfolding follow
  run fuel item w = follow fuel (ran 0 ((agent.config w).name ∷ []) (agent.prompt none item w))
