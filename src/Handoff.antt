-- ===== src/Handoff.antt =====
-- handoff/handoff.go: a team of agents, the tools by which one hands the conversation to another, and
-- where a call of such a tool leads. `Ctx` is what a request's context shows the functions that a host
-- gives. A tool is its name, its description and, for a transfer, the receiver.
pub mod Name
pub mod Built
pub mod Taken
pub mod Follow
mod Tests
use Prim.Native.String.{◌++◌}
use agentturn.Base.{
  ℕ, Bool, true, false, not, ◌&&◌, ◌||◌, List, [], ◌∷◌, map, Option, none, some, String, Result, ok,
  err, ◌>>=◌, if◌then◌else◌, ◌==◌, String-Comparable, lookup, insert, contains, is_some, any,
}
use mathlib.Core.List.{◌++◌ as append}
use agentturn.Items.{Item}
use agentturn.Handoff.Name.{tool_name}

pub record Tool : Type 0 where
  pub name : String
  pub description : String
  pub transfer : Option String

-- agentturn.Config, with the members that the package reads.
pub record Config (Ctx : Type 0) : Type 0 where
  pub name : String
  pub description : String
  pub tools : List Tool
  pub tool_provider : Option (Ctx → List Tool)
  -- The question and record channels, by identity.
  pub tool_elicitor : Option ℕ
  pub tool_recorder : Option ℕ

abbrev pub Filter : Type 0
Filter = List Item → List Item

pub record To (Ctx : Type 0) : Type 0 where
  pub agent : String
  pub filter : Option Filter
  pub enabled : Option (Ctx → Bool)

pub record Member (Ctx : Type 0) : Type 0 where
  pub config : Config Ctx
  pub handoffs : List (To Ctx)

pub record Team (Ctx : Type 0) : Type 0 where
  -- A bound below one is none.
  pub max_handoffs : ℕ
  pub offer : Option (Ctx → String → List Tool → List Tool)
  pub configs : List (String × Config Ctx)
  pub tools : List (String × String)
  pub filters : List ((String × String) × Filter)

-- What New refuses.
pub data TeamError : Type 0 where
  no_name : TeamError
  same_name : String → TeamError
  shared_tool : (other name : String) → TeamError
  unknown_agent : (from to : String) → TeamError
  to_itself : String → TeamError
  twice : (from to : String) → TeamError
  tool_named : (from to : String) → TeamError

module _ {Ctx : Type 0} where
  -- config.go's ResolveTools
  abbrev pub resolve_tools : Config Ctx → Ctx → List Tool
  resolve_tools cfg ctx = elim cfg.tool_provider [ none ↦ cfg.tools | some provide ↦ provide ctx ]

  unfoldable pub transfer : Config Ctx → Tool
  transfer to = record {
    name = tool_name to.name;
    description =
        "Handoff to the "
        ++ to.name
        ++ " agent to handle the request."
        ++ (if to.description == "" then "" else " " ++ to.description);
    transfer = some to.name;
  }

  abbrev pub offered : Ctx → List (Tool × Option (Ctx → Bool)) → List Tool
  offered ctx [] = []
  offered ctx ((t, none) ∷ transfers) = t ∷ offered ctx transfers
  offered ctx ((t, some enabled) ∷ transfers) =
      let rest = offered ctx transfers in if enabled ctx then t ∷ rest else rest

  abbrev pub is_gated : Tool × Option (Ctx → Bool) → Bool
  is_gated (t, enabled) = is_some enabled

  unfoldable pub offer : Config Ctx → List (Tool × Option (Ctx → Bool)) → Config Ctx
  offer cfg [] = cfg
  offer cfg (t ∷ transfers) =
      let all = t ∷ transfers in
      let whole : Config Ctx = record cfg { tools = append cfg.tools (map (λ p. p.0) all) } in
      if is_some cfg.tool_provider || any is_gated all
      then record whole {
        tool_provider = some (λ ctx. append (resolve_tools cfg ctx) (offered ctx all));
      }
      else whole

  abbrev pub empty_team : Team Ctx
  empty_team = record { max_handoffs = 0; offer = none; configs = []; tools = []; filters = [] }

  -- The first loop of New.
  unfoldable pub register : List (Member Ctx) → Team Ctx → Result TeamError (Team Ctx)
  register [] t = ok t
  register (a ∷ agents) t =
      let name = a.config.name in
      let rest = register agents (record t {
        configs = insert name a.config t.configs;
        tools = insert (tool_name name) name t.tools;
      }) in
      if name == ""
      then err no_name
      else if is_some (lookup name t.configs)
      then err (same_name name)
      else elim (lookup (tool_name name) t.tools) [
        | some other ↦ err (shared_tool other name)
        | none ↦ rest
      ]

  -- Why a handoff is refused, if it is.
  abbrev pub refused : Team Ctx → Config Ctx → List String → To Ctx → Option TeamError
  refused t cfg seen h =
      if not (is_some (lookup h.agent t.configs))
      then some (unknown_agent cfg.name h.agent)
      else if h.agent == cfg.name
      then some (to_itself cfg.name)
      else if contains seen h.agent
      then some (twice cfg.name h.agent)
      else if any (λ own. own.name == tool_name h.agent) cfg.tools
      then some (tool_named cfg.name h.agent)
      else none

  abbrev pub with_filter : String → To Ctx → Team Ctx → Team Ctx
  with_filter from h t = elim h.filter [
    | none ↦ t
    | some f ↦ record t { filters = ((from, h.agent), f) ∷ t.filters }
  ]

  abbrev pub transfer_to : Option (Config Ctx) → To Ctx → List (Tool × Option (Ctx → Bool))
  transfer_to none h = []
  transfer_to (some to) h = (transfer to, h.enabled) ∷ []

  -- The handoffs of one agent.
  unfoldable pub add_handoffs :
      Config Ctx
      → List String
      → List (To Ctx)
      → List (Tool × Option (Ctx → Bool))
      → Team Ctx
      → Result TeamError (List (Tool × Option (Ctx → Bool)) × Team Ctx)
  unfolding transfer
  add_handoffs cfg seen [] transfers t = ok (transfers, t)
  add_handoffs cfg seen (h ∷ handoffs) transfers t =
      let rest =
        add_handoffs cfg (h.agent ∷ seen) handoffs
          (append transfers (transfer_to (lookup h.agent t.configs) h))
          (with_filter cfg.name h t) in
      elim (refused t cfg seen h) [ some e ↦ err e | none ↦ rest ]

  -- The second loop of New.
  unfoldable pub add_offers : List (Member Ctx) → Team Ctx → Result TeamError (Team Ctx)
  unfolding add_handoffs offer
  add_offers [] t = ok t
  add_offers (a ∷ agents) t = do
    (transfers, t') ← add_handoffs a.config [] a.handoffs [] t
    add_offers agents
        (record t' { configs = insert a.config.name (offer a.config transfers) t'.configs })

  unfoldable pub new : List (Member Ctx) → Result TeamError (Team Ctx)
  unfolding register add_offers
  new agents = do t ← register agents empty_team; add_offers agents t

  abbrev pub zero_config : Config Ctx
  zero_config = record {
    name = "";
    description = "";
    tools = [];
    tool_provider = none;
    tool_elicitor = none;
    tool_recorder = none;
  }

  -- Team.Config
  unfoldable pub config : Team Ctx → String → Config Ctx
  config t name = elim (lookup name t.configs) [
    | none ↦ zero_config
    | some cfg ↦ elim t.offer [
      | none ↦ cfg
      | some apply ↦ record cfg {
        tool_provider = some (λ ctx. apply ctx name (resolve_tools cfg ctx));
      }
    ]
  ]
