-- ===== src/Agent/Run.antt =====
-- crates/ciacola-core/src/agent.rs: `run_exchange_with_ceiling`, before the provider runs and after. A
-- provider is a foreign command: what it answers, what it reports on the way and how an error displays
-- are parameters.
use ciacola.Base.{ℕ, String, Bool, Option, none, some, List, Result, ok, err, ◌>>=◌}
use ciacola.Contract.Intent.{McpScope, TurnCeiling, TurnIntent}
use ciacola.Contract.Outcome.{TokenUsage, TurnOutcome}
use ciacola.Contract.Capability.{Capabilities, validate, blocking}
use ciacola.Contract.Failure.{AgentError, unsupported}
use ciacola.Contract.Registry
use ciacola.Contract.Registry.{Registry, Provider}
use ciacola.Agent.Definition.{AgentDef}
use ciacola.Agent.Exchange.{Exchange, exchange_from, partial_exchange}
use ciacola.Agent.Intent.{intent_for}

-- what a provider reports while it runs
pub data TurnEvent : Type 0 where
  resume_id : String → TurnEvent
  usage_snapshot : TokenUsage → TurnEvent

pub record Conduct : Type 0 where
  pub events : List TurnEvent
  pub answer : Result AgentError TurnOutcome
  pub measured_ms : ℕ

-- the world outside: providers, and one variable of the environment
pub record World : Type 0 where
  pub home : Option String
  pub conduct : String → TurnIntent → Conduct
  pub display : AgentError → String

-- the provider that may be run, and the intent that it is handed
pub record Launch : Type 0 where
  pub provider : Provider
  pub intent : TurnIntent

-- everything before `provider.run`
unfoldable pub prepare_exchange :
    World
    → Registry
    → AgentDef
    → Option McpScope
    → Option String
    → Bool
    → String
    → Option TurnCeiling
    → Result AgentError Launch
unfolding Registry.get intent_for validate blocking
prepare_exchange w providers def mcp session started text turn_ceiling = do
  provider ← Registry.get providers def.provider
  let intent = record (intent_for w.home def mcp session started text) {
    turn_ceiling = turn_ceiling;
  }
  elim (blocking (validate provider.capabilities intent)) [
    | some b ↦ err (unsupported def.provider b.constraint)
    | none ↦ ok (record { provider = provider; intent = intent })
  ]

-- everything after it
unfoldable pub finish_exchange : World → Capabilities → Conduct → Result AgentError Exchange
unfolding exchange_from partial_exchange
finish_exchange w capabilities c = elim c.answer [
  | ok outcome ↦ ok (exchange_from outcome)
  | err e ↦ elim (partial_exchange e (w.display e) capabilities c.measured_ms) [
    | some x ↦ ok x
    | none ↦ err e
  ]
]
